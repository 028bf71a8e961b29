-- ===== src/Storage/FileStore/Encoded.antt =====
-- The write that ends `GroupPut` and `ProfilePut`.
use coreos_baremetal.Prelude.{◌≡◌, ◌≢◌, refl, none}
use coreos_baremetal.Prelude.Text.{Text}
use coreos_baremetal.Golang.Errors.{Result, ok, err}
use coreos_baremetal.Golang.FileSystem.{FileSystem, IsLawful}
use coreos_baremetal.Storagepb.Json.{Json}
use coreos_baremetal.Storage.Dir.{read_file, sanitize}
use coreos_baremetal.Storage.Dir.Files.{read_file-write_file, read_file-write_file_ne}
use coreos_baremetal.Storage.FileStore.{put_encoded}

module _ (F : FileSystem) (L : IsLawful F) (json : Json) (root : Text) where
  -- A put that succeeds had an encoding, and the file now holds it.
  pub read_file-put_encoded :
      (s : F.State) (path : Text) (r : Result Text)
      → (put_encoded F json root s path r).1 ≡ none
      → (data' : Text) × (r ≡ ok data')
        × (read_file F root (put_encoded F json root s path r).0 path ≡ ok data')
  read_file-put_encoded s path (err e) h = cc
  read_file-put_encoded s path (ok data') h =
      (data', refl, read_file-write_file F L root s path data' h)

  pub read_file-put_encoded_ne :
      (s : F.State) (path other found : Text) (r : Result Text)
      → sanitize root path ≢ sanitize root other
      → read_file F root s other ≡ ok found
      → read_file F root (put_encoded F json root s path r).0 other ≡ ok found
  read_file-put_encoded_ne s path other found (err e) ne h = h
  read_file-put_encoded_ne s path other found (ok data') ne h =
      read_file-write_file_ne F L root s path other data' found ne h
