-- ===== src/Storage/FileStore/Templates.antt =====
-- The Ignition templates of bootcfg/storage/filestore.go, through puts of groups and profiles.
use coreos_baremetal.Prelude.{refl, ◌≡◌, ◌≢◌, none, inl, ◌++◌}
use coreos_baremetal.Prelude.Text.{Text, text, ◌==◌, ==_false}
use coreos_baremetal.Golang.Errors.{ok}
use coreos_baremetal.Golang.FileSystem.{FileSystem, IsLawful}
use coreos_baremetal.Storagepb.Json.{Group, Profile, Json}
use coreos_baremetal.Storage.Dir.Files.{read_file-write_file}
use coreos_baremetal.Storage.Store.Keeping.{KeepsIgnition}
use coreos_baremetal.Storage.FileStore.{
  groups_dir, profiles_dir, ignition_dir, json_suffix, file_store, group_put, profile_put,
  ignition_put, ignition_get,
}
use coreos_baremetal.Storage.FileStore.Paths.{
  IsId, IsFileName, id-IsFileName, groups_dir-IsFileName, profiles_dir-IsFileName,
  sanitize_distinct,
}
use coreos_baremetal.Storage.FileStore.Profiles.{ignition_dir-IsFileName}
use coreos_baremetal.Storage.FileStore.Encoded.{read_file-put_encoded_ne}
use coreos_baremetal.Storage.FileStore.Kept.{FitsGroup, FitsProfile}

groups_apart : groups_dir ≢ ignition_dir
unfolding text ◌==◌
groups_apart = ==_false groups_dir ignition_dir refl

profiles_apart : profiles_dir ≢ ignition_dir
unfolding text ◌==◌
profiles_apart = ==_false profiles_dir ignition_dir refl

module _ (F : FileSystem) (L : IsLawful F) (json : Json) (root : Text) where
  ignition_get-ignition_put :
      (s : F.State) (name config : Text)
      → (ignition_put F json root s name config).1 ≡ none
      → ignition_get F json root (ignition_put F json root s name config).0 name ≡ ok config
  unfolding ignition_put ignition_get
  ignition_get-ignition_put s name config h = read_file-write_file F L root s _ config h

  ignition_get-profile_put :
      (s : F.State) (p : Profile) (name found : Text)
      → IsId p.id
      → IsFileName name
      → ignition_get F json root s name ≡ ok found
      → ignition_get F json root (profile_put F json root s p).0 name ≡ ok found
  unfolding ignition_get profile_put
  ignition_get-profile_put s p name found h k e =
      read_file-put_encoded_ne F L json root s _ _ found _
        (sanitize_distinct root profiles_dir ignition_dir (p.id ++ json_suffix) name
          profiles_dir-IsFileName ignition_dir-IsFileName (id-IsFileName p.id h) k
          (inl profiles_apart))
        e

  ignition_get-group_put :
      (s : F.State) (g : Group) (name found : Text)
      → IsId g.id
      → IsFileName name
      → ignition_get F json root s name ≡ ok found
      → ignition_get F json root (group_put F json root s g).0 name ≡ ok found
  unfolding ignition_get group_put
  ignition_get-group_put s g name found h k e =
      read_file-put_encoded_ne F L json root s _ _ found _
        (sanitize_distinct root groups_dir ignition_dir (g.id ++ json_suffix) name
          groups_dir-IsFileName ignition_dir-IsFileName (id-IsFileName g.id h) k (inl groups_apart))
        e

  -- Over a lawful file system, the file store keeps the Ignition templates.
  pub file_store-KeepsIgnition :
      KeepsIgnition (file_store F json root) (FitsGroup json) (FitsProfile json) IsFileName
  file_store-KeepsIgnition = record {
    ignition_get-put = ignition_get-ignition_put;
    ignition_get-profile_put =
        λ s p name found fits h e. ignition_get-profile_put s p name found fits.named h e;
    ignition_get-group_put =
        λ s g name found fits h e. ignition_get-group_put s g name found fits.named h e;
  }
