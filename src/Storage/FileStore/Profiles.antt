-- ===== src/Storage/FileStore/Profiles.antt =====
-- `ProfilePut`, `ProfileGet` and the templates over a lawful file system.
use coreos_baremetal.Prelude.{◌≡◌, ◌≢◌, refl, none, ◌++◌, arith, inl, inr}
use coreos_baremetal.Prelude.Text.{Text, text, contains_byte}
use coreos_baremetal.Golang.Errors.{ok, ◌>>◌, >>=-eq-ok, >>-eq-ok}
use coreos_baremetal.Golang.FileSystem.{FileSystem, IsLawful}
use coreos_baremetal.Storagepb.Json.{Profile, Json}
use coreos_baremetal.Storagepb.Profile.{assert_valid_profile}
use coreos_baremetal.Storage.Dir.{read_file}
use coreos_baremetal.Storage.Dir.Files.{read_file-write_file, read_file-write_file_ne}
use coreos_baremetal.Storage.FileStore.{
  profiles_dir, ignition_dir, cloud_dir, json_file, json_suffix, profile_put, profile_get,
  ignition_put, ignition_get, cloud_put, cloud_get,
}
use coreos_baremetal.Storage.FileStore.Paths.{
  IsFileName, IsId, id-IsFileName, profiles_dir-IsFileName, sanitize_distinct,
}
use coreos_baremetal.Storage.FileStore.Encoded.{read_file-put_encoded, read_file-put_encoded_ne}
use coreos_baremetal.Storage.FileStore.Groups.{suffix_injective}

pub ignition_dir-IsFileName : IsFileName ignition_dir
unfolding text contains_byte
ignition_dir-IsFileName = record { safe = (cc, cc, cc, omega arith); no_nul = refl }

pub cloud_dir-IsFileName : IsFileName cloud_dir
unfolding text contains_byte
cloud_dir-IsFileName = record { safe = (cc, cc, cc, omega arith); no_nul = refl }

clouds_apart_ignitions : cloud_dir ≢ ignition_dir
unfolding text
clouds_apart_ignitions = cc

module _ (F : FileSystem) (json : Json) (root : Text) where
  -- A profile that is read is valid.
  pub profile_get-valid :
      (s : F.State) (id : Text) (p : Profile)
      → profile_get F json root s id ≡ ok p
      → assert_valid_profile p ≡ none
  unfolding profile_get
  profile_get-valid s id p h =
      let (data', q, r) = >>=-eq-ok (read_file F root s (json_file profiles_dir id)) _ h in
      let (found, t, u) = >>=-eq-ok (json.unmarshal_profile data') _ r in
      let (valid, same) = >>-eq-ok (assert_valid_profile found) (ok found) u in cc

module _ (F : FileSystem) (L : IsLawful F) (json : Json) (root : Text) where
  -- Over a lawful file system, a profile that was put without an error is got back if it has an
  -- id, and is refused if it has none, where the codec reads back what it wrote for the profile.
  pub profile_put_roundtrip :
      (s : F.State) (p : Profile) (data' : Text)
      → json.marshal_profile p ≡ ok data'
      → json.unmarshal_profile data' ≡ ok p
      → (profile_put F json root s p).1 ≡ none
      → profile_get F json root (profile_put F json root s p).0 p.id
        ≡ (assert_valid_profile p >> ok p)
  unfolding profile_get profile_put
  profile_put_roundtrip s p data' q r h =
      let (data'', t, u) =
        read_file-put_encoded F L json root s (json_file profiles_dir p.id) _ h in
      let same : data'' ≡ data' = cc in rw (u, same, r)

  -- Over a lawful file system and for ids without slashes and NUL bytes, a put of a profile leaves
  -- every profile with another id that could be read as it is.
  pub profile_get-profile_put_ne :
      (s : F.State) (p found : Profile) (id : Text)
      → IsId p.id
      → IsId id
      → p.id ≢ id
      → profile_get F json root s id ≡ ok found
      → profile_get F json root (profile_put F json root s p).0 id ≡ ok found
  unfolding profile_get profile_put
  profile_get-profile_put_ne s p found id h k ne e =
      let (data', q, r) = >>=-eq-ok (read_file F root s (json_file profiles_dir id)) _ e in
      let apart =
        sanitize_distinct root profiles_dir profiles_dir (p.id ++ json_suffix) (id ++ json_suffix)
          profiles_dir-IsFileName profiles_dir-IsFileName (id-IsFileName p.id h)
          (id-IsFileName id k) (inr (suffix_injective p.id id ne)) in
      rw (read_file-put_encoded_ne F L json root s _ _ data' _ apart q) r

  -- A template that was put is got back whole, of either kind.
  pub templates_roundtrip :
      (s : F.State) (name config : Text)
      → (ignition_put F json root s name config).1 ≡ none
      → (cloud_put F json root s name config).1 ≡ none
      → (ignition_get F json root (ignition_put F json root s name config).0 name ≡ ok config)
        × (cloud_get F json root (cloud_put F json root s name config).0 name ≡ ok config)
  unfolding ignition_put ignition_get cloud_put cloud_get
  templates_roundtrip s name config h k =
      (read_file-write_file F L root s _ config h, read_file-write_file F L root s _ config k)

  -- The put of a cloud template leaves every Ignition template as it is.
  pub ignition_get-cloud_put :
      (s : F.State) (name other config found : Text)
      → IsFileName name
      → IsFileName other
      → ignition_get F json root s other ≡ ok found
      → ignition_get F json root (cloud_put F json root s name config).0 other ≡ ok found
  unfolding ignition_get cloud_put
  ignition_get-cloud_put s name other config found h k e =
      read_file-write_file_ne F L root s _ _ config found
        (sanitize_distinct root cloud_dir ignition_dir name other cloud_dir-IsFileName
          ignition_dir-IsFileName h k (inl clouds_apart_ignitions))
        e
