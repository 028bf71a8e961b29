-- ===== src/Storage/FileStore/Groups.antt =====
-- `GroupPut` and `GroupGet` over a lawful file system.
use mathlib.Core.List.{append_cancel_right}
use coreos_baremetal.Prelude.{◌≡◌, ◌≢◌, sym, ◌∙◌, Option, none, some, ◌++◌, inl, inr}
use coreos_baremetal.Prelude.Text.{Text, text}
use coreos_baremetal.Golang.Errors.{ok, ◌>>◌, >>=-eq-ok}
use coreos_baremetal.Golang.FileSystem.{FileSystem, IsLawful}
use coreos_baremetal.Storagepb.Json.{Group, Profile, RichGroup, Json, Fields, end}
use coreos_baremetal.Storagepb.Group.{to_rich_group, to_group, parse_group, normalize}
use coreos_baremetal.Storage.Dir.{read_file}
use coreos_baremetal.Storage.FileStore.{
  groups_dir, profiles_dir, json_file, json_suffix, group_put, group_get, profile_put,
}
use coreos_baremetal.Storage.FileStore.Paths.{
  IsId, id-IsFileName, groups_dir-IsFileName, profiles_dir-IsFileName, sanitize_distinct,
}
use coreos_baremetal.Storage.FileStore.Encoded.{read_file-put_encoded, read_file-put_encoded_ne}

-- `json:"metadata,omitempty"`: an empty map is not written.
abbrev pub omit_empty : Option Fields → Option Fields
omit_empty (some end) = none
omit_empty metadata = metadata

pub suffix_injective : (id id' : Text) → id ≢ id' → id ++ json_suffix ≢ id' ++ json_suffix
suffix_injective id id' ne e = ne (append_cancel_right id id' json_suffix e)

pub groups_apart_profiles : groups_dir ≢ profiles_dir
unfolding text
groups_apart_profiles = cc

module _ (F : FileSystem) (L : IsLawful F) (json : Json) (root : Text) where
  -- After a successful put, a get of the group's id parses what the encoder wrote for the group.
  pub group_get-group_put :
      (s : F.State) (g : Group)
      → (group_put F json root s g).1 ≡ none
      → (rich : RichGroup) × (data' : Text) × (to_rich_group json g ≡ ok rich)
        × (json.marshal_group rich ≡ ok data')
        × (group_get F json root (group_put F json root s g).0 g.id ≡ parse_group json data')
  unfolding group_get group_put
  group_get-group_put s g h =
      let (data', p, r) = read_file-put_encoded F L json root s (json_file groups_dir g.id) _ h in
      let (rich, q, t) = >>=-eq-ok (to_rich_group json g) _ p in (rich, data', q, t, rw r)

  -- Over a lawful file system and for ids without slashes and NUL bytes, a put of a group leaves
  -- every group with another id that could be read as it is.
  pub group_get-group_put_ne :
      (s : F.State) (g found : Group) (id : Text)
      → IsId g.id
      → IsId id
      → g.id ≢ id
      → group_get F json root s id ≡ ok found
      → group_get F json root (group_put F json root s g).0 id ≡ ok found
  unfolding group_get group_put
  group_get-group_put_ne s g found id h k ne e =
      let (data', p, q) = >>=-eq-ok (read_file F root s (json_file groups_dir id)) _ e in
      let apart =
        sanitize_distinct root groups_dir groups_dir (g.id ++ json_suffix) (id ++ json_suffix)
          groups_dir-IsFileName groups_dir-IsFileName (id-IsFileName g.id h) (id-IsFileName id k)
          (inr (suffix_injective g.id id ne)) in
      rw (read_file-put_encoded_ne F L json root s _ _ data' _ apart p) q

  -- Over a lawful file system and for ids without slashes and NUL bytes, a put of a profile leaves
  -- every group that could be read as it is.
  pub group_get-profile_put :
      (s : F.State) (profile : Profile) (found : Group) (id : Text)
      → IsId profile.id
      → IsId id
      → group_get F json root s id ≡ ok found
      → group_get F json root (profile_put F json root s profile).0 id ≡ ok found
  unfolding group_get profile_put
  group_get-profile_put s profile found id h k e =
      let (data', p, q) = >>=-eq-ok (read_file F root s (json_file groups_dir id)) _ e in
      let apart =
        sanitize_distinct root profiles_dir groups_dir (profile.id ++ json_suffix)
          (id ++ json_suffix) profiles_dir-IsFileName groups_dir-IsFileName
          (id-IsFileName profile.id h) (id-IsFileName id k)
          (inl (λ same. groups_apart_profiles (sym same))) in
      rw (read_file-put_encoded_ne F L json root s _ _ data' _ apart p) q

  -- Over a lawful file system, a group that was put without an error, whose metadata is absent or
  -- in the encoder's own form, comes back normalized, or with the error of its normalization,
  -- where the codec reads back what it wrote for the group.
  pub group_put_roundtrip :
      (s : F.State) (g : Group) (rich : RichGroup) (data' : Text)
      → to_rich_group json g ≡ ok rich
      → json.marshal_group rich ≡ ok data'
      → json.unmarshal_group data' ≡ ok (record rich { metadata = omit_empty rich.metadata })
      → to_group json (record rich { metadata = omit_empty rich.metadata }) ≡ ok g
      → (group_put F json root s g).1 ≡ none
      → group_get F json root (group_put F json root s g).0 g.id
        ≡ ((normalize g).1 >> ok (normalize g).0)
  unfolding parse_group
  group_put_roundtrip s g rich data' p q r t h =
      let (rich', data'', p', q', get) = group_get-group_put s g h in
      let same : data'' ≡ data' = cc in get ∙ rw (same, parse_group, r, t)
