-- ===== src/Golang/FileSystem.antt =====
-- The file system, which the program reaches by `ioutil.ReadFile`, `ioutil.WriteFile`,
-- `ioutil.ReadDir` and `os.MkdirAll`: operations on an unknown state.
pub mod Memory
use mathlib.Core.List.{Mem}
use coreos_baremetal.Prelude.{[], ◌∷◌, ◌++◌, ℕ, ◌≡◌, ◌≢◌, Option, none, some, List}
use coreos_baremetal.Prelude.Text.{Text}
use coreos_baremetal.Golang.Errors.{Error, Result, ok}
use coreos_baremetal.Golang.FilePath.{clean}
use coreos_baremetal.Golang.FilePath.Resolve.{IsSafe}

pub record FileSystem : Type 1 where
  pub State : Type 0
  pub read_file : State → Text → Result Text
  -- path, contents, mode
  pub write_file : State → Text → Text → ℕ → State × Option Error
  pub mkdir_all : State → Text → ℕ → State × Option Error
  -- the names of a directory's entries, sorted
  pub read_dir : State → Text → Result (List Text)

-- A file that was written is read back. Writing it and making directories leave the contents of
-- the files under other cleaned paths: no other path is a link to the file.
pub record IsLawful (F : FileSystem) : Type 0 where
  pub read-write :
      (s : F.State) (p data' : Text) (mode : ℕ)
      → (F.write_file s p data' mode).1 ≡ none
      → F.read_file (F.write_file s p data' mode).0 p ≡ ok data'
  pub read-write_ne :
      (s : F.State) (p q data' found : Text) (mode : ℕ)
      → clean p ≢ clean q
      → F.read_file s (clean q) ≡ ok found
      → F.read_file (F.write_file s (clean p) data' mode).0 (clean q) ≡ ok found
  pub read-mkdir_all :
      (s : F.State) (d q found : Text) (mode : ℕ)
      → F.read_file s q ≡ ok found
      → F.read_file (F.mkdir_all s d mode).0 q ≡ ok found

-- A file that was written in a directory is an entry of it.
pub record ListsFiles (F : FileSystem) : Type 0 where
  pub read_dir-write :
      (s : F.State) (d file data' : Text) (mode : ℕ)
      → d ≢ []
      → IsSafe file
      → (F.write_file s (d ++ (b'/' ∷ file)) data' mode).1 ≡ none
      → (files : List Text) × (F.read_dir (F.write_file s (d ++ (b'/' ∷ file)) data' mode).0 d
          ≡ ok files)
        × Mem file files
