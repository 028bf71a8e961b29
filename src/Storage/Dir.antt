-- ===== src/Storage/Dir.antt =====
-- bootcfg/storage/fs.go
pub mod Contained
pub mod Files
use coreos_baremetal.Prelude.{ℕ, Bool, Option, none, some, List, [], ◌∷◌, if◌then◌else◌}
use coreos_baremetal.Prelude.Text.{Text, ◌==◌, contains_byte}
use coreos_baremetal.Golang.Errors.{Error, invalid_file_path_character, Result, ok, err, ◌>>=◌}
use coreos_baremetal.Golang.FilePath.{dot, clean, join_paths, dir_of}
use coreos_baremetal.Golang.FileSystem.{FileSystem}

-- `0755` and `0644`
abbrev pub default_directory_mode : ℕ
default_directory_mode = 0o755

abbrev pub default_file_mode : ℕ
default_file_mode = 0o644

-- The directory, where the empty one is `.`.
abbrev pub root_of : Text → Text
root_of d = if d == [] then dot else d

-- `Dir.sanitize`, on a system whose separator is `/`.
unfoldable pub sanitize : Text → Text → Result Text
sanitize d name =
    if contains_byte name 0
    then err invalid_file_path_character
    else ok (join_paths (root_of d ∷ clean (b'/' ∷ name) ∷ []))

module _ (F : FileSystem) (d : Text) where
  -- `Dir.readFile`
  unfoldable pub read_file : F.State → Text → Result Text
  read_file s path = do p ← sanitize d path; F.read_file s p

  -- `Dir.readDir`
  unfoldable pub read_dir : F.State → Text → Result (List Text)
  read_dir s dirname = do p ← sanitize d dirname; F.read_dir s p

  -- The part of `Dir.writeFile` below the parent directories.
  abbrev pub write_below : Text → Text → F.State × Option Error → F.State × Option Error
  write_below p data' (s, some e) = (s, some e)
  write_below p data' (s, none) = F.write_file s p data' default_file_mode

  -- `Dir.writeFile`
  unfoldable pub write_file : F.State → Text → Text → F.State × Option Error
  write_file s path data' = elim (sanitize d path) [
    | err e ↦ (s, some e)
    | ok p ↦ write_below p data' (F.mkdir_all s (dir_of p) default_directory_mode)
  ]
