-- ===== src/Storage/FileStore/Kept.antt =====
-- The store of bootcfg/storage/filestore.go keeps what was put.
use coreos_baremetal.Prelude.{◌≡◌, sym, ap, ◌∙◌, none, inl, ◌++◌}
use coreos_baremetal.Prelude.Text.{Text}
use coreos_baremetal.Golang.Errors.{ok, ◌>>◌, >>=-eq-ok}
use coreos_baremetal.Golang.FileSystem.{FileSystem, IsLawful, ListsFiles}
use coreos_baremetal.Storagepb.Json.{Group, Profile, RichGroup, Json}
use coreos_baremetal.Storagepb.Group.{to_rich_group, parse_group}
use coreos_baremetal.Storagepb.Profile.{assert_valid_profile}
use coreos_baremetal.Storage.Dir.{read_file}
use coreos_baremetal.Storage.Store.Keeping.{IsKeeping}
use coreos_baremetal.Storage.FileStore.{
  groups_dir, profiles_dir, json_file, json_suffix, file_store, group_put, group_get, profile_put,
  profile_get,
}
use coreos_baremetal.Storage.FileStore.Paths.{
  IsId, id-IsFileName, groups_dir-IsFileName, profiles_dir-IsFileName, sanitize_distinct,
}
use coreos_baremetal.Storage.FileStore.Encoded.{read_file-put_encoded_ne}
use coreos_baremetal.Storage.FileStore.Groups.{group_get-group_put, groups_apart_profiles}
use coreos_baremetal.Storage.FileStore.Profiles.{profile_put_roundtrip}
use coreos_baremetal.Storage.FileStore.Listed.{group_list-group_put}

module _ (json : Json) where
  -- The codec reads back the group that it wrote, and the id is one of a file.
  pub record FitsGroup (g : Group) : Type 0 where
    pub named : IsId g.id
    pub rich : RichGroup
    pub data' : Text
    pub converted : to_rich_group json g ≡ ok rich
    pub encoded : json.marshal_group rich ≡ ok data'
    pub parsed : parse_group json data' ≡ ok g

  -- The same for a profile.
  pub record FitsProfile (p : Profile) : Type 0 where
    pub named : IsId p.id
    pub data' : Text
    pub encoded : json.marshal_profile p ≡ ok data'
    pub parsed : json.unmarshal_profile data' ≡ ok p

module _ (F : FileSystem) (L : IsLawful F) (D : ListsFiles F) (json : Json) (root : Text) where
  group_back :
      (s : F.State) (g : Group)
      → FitsGroup json g
      → (group_put F json root s g).1 ≡ none
      → group_get F json root (group_put F json root s g).0 g.id ≡ ok g
  group_back s g fits h =
      let (rich, data', p, q, get) = group_get-group_put F L json root s g h in
      let rich_same : rich ≡ fits.rich = (let same = sym p ∙ fits.converted in cc) in
      let same : data' ≡ fits.data' =
        (let both = sym q ∙ ap json.marshal_group rich_same ∙ fits.encoded in cc) in
      get ∙ ap (parse_group json) same ∙ fits.parsed

  profile_back :
      (s : F.State) (p : Profile)
      → FitsProfile json p
      → assert_valid_profile p ≡ none
      → (profile_put F json root s p).1 ≡ none
      → profile_get F json root (profile_put F json root s p).0 p.id ≡ ok p
  profile_back s p fits valid h =
      profile_put_roundtrip F L json root s p fits.data' fits.encoded fits.parsed h
      ∙ ap (λ e. e >> ok p) valid

  -- Over a lawful file system and for ids without slashes and NUL bytes, a put of a group leaves
  -- every profile that could be read as it is.
  pub profile_get-group_put :
      (s : F.State) (g : Group) (found : Profile) (id : Text)
      → IsId g.id
      → IsId id
      → profile_get F json root s id ≡ ok found
      → profile_get F json root (group_put F json root s g).0 id ≡ ok found
  unfolding profile_get group_put
  profile_get-group_put s g found id h k e =
      let (data', p, q) = >>=-eq-ok (read_file F root s (json_file profiles_dir id)) _ e in
      let apart =
        sanitize_distinct root groups_dir profiles_dir (g.id ++ json_suffix) (id ++ json_suffix)
          groups_dir-IsFileName profiles_dir-IsFileName (id-IsFileName g.id h) (id-IsFileName id k)
          (inl groups_apart_profiles) in
      rw (read_file-put_encoded_ne F L json root s _ _ data' _ apart p) q

  -- Over a lawful file system whose directories list their files, the file store keeps the groups
  -- and profiles that the codec reads back as they were.
  pub file_store-IsKeeping : IsKeeping (file_store F json root) (FitsGroup json) (FitsProfile json)
  file_store-IsKeeping = record {
    profile_get-put = profile_back;
    profile_get-group_put =
        λ s g p fits fits' h. profile_get-group_put s g p p.id fits.named fits'.named h;
    group_list-put = λ s g fits h.
        group_list-group_put F L D json root s g g fits.named h (group_back s g fits h);
  }
