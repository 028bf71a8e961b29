-- ===== src/Server/Runs/Written.antt =====
-- A put of bootcfg/server/server.go over the file store is at most one write of a file.
use coreos_baremetal.Server.Runs.Keys.{directory, file}
use coreos_baremetal.Prelude.{
  ◌≡◌, refl, Bool, true, false, ◌⊎◌, inl, inr, Option, none, some, [], ◌∷◌, Option-cases,
}
use coreos_baremetal.Prelude.Text.{Text}
use coreos_baremetal.Golang.Errors.{Error, ok, err, Result-cases, ◌>>=◌, ◌>>◌, >>=-ok}
use coreos_baremetal.Golang.FilePath.{join_paths}
use coreos_baremetal.Golang.FileSystem.{FileSystem}
use coreos_baremetal.Storagepb.Json.{Profile, Json}
use coreos_baremetal.Storagepb.Group.{assert_valid, to_rich_group, parse_group}
use coreos_baremetal.Storagepb.Profile.{assert_valid_profile}
use coreos_baremetal.Storage.Dir.{read_file, write_file}
use coreos_baremetal.Storage.FileStore.{
  file_store, put_encoded, json_file, groups_dir, profiles_dir,
}
use coreos_baremetal.Storage.FileStore
use coreos_baremetal.Server.{
  Core, Sorts, new_server, group_put, profile_put, ignition_put, cloud_put,
}
use coreos_baremetal.Server
use coreos_baremetal.Server.Runs.{
  Kind, groups, profiles, ignition, cloud, Resource, group, profile, ignition_template,
  cloud_template, kind_of, name_of, put, get, encode, decode, succeeded,
}

abbrev pub path_of : Kind → Text → Text
path_of k name = join_paths (directory k ∷ file k name ∷ [])

abbrev pub is_none : {A : Type 0} → Option A → Bool
is_none none = true
is_none (some a) = false

-- The server over the file store.
abbrev pub file_server : FileSystem → Json → Text → Sorts → Core
file_server F json root sorts = new_server (file_store F json root) sorts

module _ (F : FileSystem) (json : Json) (root : Text) (sorts : Sorts) (s : F.State) where
  abbrev core : Core
  core = file_server F json root sorts

  -- The write of a text under a kind and name, with whether it succeeded.
  abbrev pub written_file : Kind → Text → Text → F.State × Bool
  written_file k name data' =
      let w = write_file F root s (path_of k name) data' in (w.0, is_none w.1)

  accepted_write :
      {A : Type 0} (a : A) (w : F.State × Option Error)
      → ◌≡◌ {A = F.State × Bool}
          ((Server.answer a w).0, succeeded (Server.answer a w).1)
          (w.0, is_none w.1)
  accepted_write a (t, none) = refl
  accepted_write a (t, some e) = refl

  -- A put either is refused before anything is written, or writes the encoded resource.
  pub put-cases :
      (r : Resource)
      → ((e : Error) × (encode json r ≡ err e) × (put core s r ≡ (s, false)))
        ⊎ ((data' : Text) × (encode json r ≡ ok data')
            × (put core s r ≡ written_file (kind_of r) (name_of r) data'))
  unfolding encode put group_put profile_put ignition_put cloud_put FileStore.group_put
      FileStore.profile_put FileStore.ignition_put FileStore.cloud_put
  put-cases (group g) = elim (Option-cases (assert_valid g)) [
    | inr (e, p) ↦ inl (e, rw p refl, rw (p, group_put) refl)
    | inl p ↦ elim (Result-cases (to_rich_group json g >>= json.marshal_group)) [
      | inr (e, q) ↦ inl (e, rw (p, q) refl, rw (p, group_put, q) refl)
      | inl (data', q) ↦ inr (data', rw (p, q) refl, rw (p, group_put, q) (accepted_write g _))
    ]
  ]
  put-cases (profile p) = elim (Option-cases (assert_valid_profile p)) [
    | inr (e, h) ↦ inl (e, rw h refl, rw (h, profile_put) refl)
    | inl h ↦ elim (Result-cases (json.marshal_profile p)) [
      | inr (e, q) ↦ inl (e, rw (h, q) refl, rw (h, profile_put, q) refl)
      | inl (data', q) ↦ inr (data', rw (h, q) refl, rw (h, profile_put, q) (accepted_write p _))
    ]
  ]
  put-cases (ignition_template name config) = inr (config, refl, accepted_write config _)
  put-cases (cloud_template name config) = inr (config, refl, accepted_write config _)

  group_get_of_file :
      (id data' : Text)
      → read_file F root s (path_of groups id) ≡ ok data'
      → Server.group_get (file_store F json root) sorts s id ≡ parse_group json data'
  unfolding Server.group_get FileStore.group_get
  group_get_of_file id data' h =
      rw (Server.group_get, FileStore.group_get, h) (>>=-ok (parse_group json data'))

  -- The profile is tested by the store and by the server again.
  profile_get_of_file :
      (id data' : Text)
      → read_file F root s (path_of profiles id) ≡ ok data'
      → Server.profile_get (file_store F json root) sorts s id
        ≡ (json.unmarshal_profile data' >>= (λ p. assert_valid_profile p >> ok p))
  unfolding Server.profile_get FileStore.profile_get
  profile_get_of_file id data' h = elim (Result-cases (json.unmarshal_profile data')) [
    | inr (e, q) ↦ rw (Server.profile_get, FileStore.profile_get, h, q) refl
    | inl (p, q) ↦ elim (Option-cases (assert_valid_profile p)) [
      | inr (e, r) ↦ rw (Server.profile_get, FileStore.profile_get, h, q, r) refl
      | inl r ↦ rw (Server.profile_get, FileStore.profile_get, h, q, r, r) refl
    ]
  ]

  valid_mapped :
      (p : Profile)
      → ((assert_valid_profile p >> ok p) >>= (λ q. ok (profile q)))
        ≡ (assert_valid_profile p >> ok (profile p))
  valid_mapped p = elim (Option-cases (assert_valid_profile p)) [
    | inr (e, h) ↦ rw h refl
    | inl h ↦ rw h refl
  ]

  -- A get decodes the file of its kind and name, where it can be read.
  pub get_lem :
      (k : Kind) (name data' : Text)
      → read_file F root s (path_of k name) ≡ ok data'
      → get core s k name ≡ decode json k name data'
  unfolding get decode Server.group_get Server.profile_get Server.ignition_get Server.cloud_get
      FileStore.group_get FileStore.profile_get FileStore.ignition_get FileStore.cloud_get
  get_lem groups id data' h = rw (group_get_of_file id data' h) refl
  get_lem profiles id data' h =
      rw (profile_get_of_file id data' h) (elim (Result-cases (json.unmarshal_profile data')) [
        | inr (e, q) ↦ rw q refl
        | inl (p, q) ↦ rw q (valid_mapped p)
      ])
  get_lem ignition name data' h = rw h refl
  get_lem cloud name data' h = rw h refl
