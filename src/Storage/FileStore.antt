-- ===== src/Storage/FileStore.antt =====
-- bootcfg/storage/filestore.go. The file system, the codec and the root directory are parameters.
pub mod Paths
pub mod Encoded
pub mod Groups
pub mod Profiles
pub mod Listing
pub mod Stems
pub mod Listed
pub mod Kept
pub mod Templates
use coreos_baremetal.Prelude.{ℕ, Bool, Option, none, some, List, [], ◌∷◌, ◌++◌, if◌then◌else◌}
use coreos_baremetal.Prelude.Text.{Text, text}
use coreos_baremetal.Golang.Errors.{Error, Result, ok, err, ◌>>=◌, ◌>>◌}
use coreos_baremetal.Golang.FilePath.{join_paths, ext, trim_suffix}
use coreos_baremetal.Golang.FileSystem.{FileSystem}
use coreos_baremetal.Storagepb.Json.{Group, Profile, Json}
use coreos_baremetal.Storagepb.Group.{to_rich_group, parse_group}
use coreos_baremetal.Storagepb.Profile.{assert_valid_profile}
use coreos_baremetal.Storage.Dir.{read_file, read_dir, write_file}
use coreos_baremetal.Storage.Store.{Store}

abbrev pub groups_dir : Text
groups_dir = text "groups"

abbrev pub profiles_dir : Text
profiles_dir = text "profiles"

abbrev pub ignition_dir : Text
ignition_dir = text "ignition"

abbrev pub cloud_dir : Text
cloud_dir = text "cloud"

abbrev pub generic_dir : Text
generic_dir = text "generic"

abbrev pub json_suffix : Text
json_suffix = text ".json"

-- `filepath.Join(dir, id+".json")`
abbrev pub json_file : Text → Text → Text
json_file dir id = join_paths (dir ∷ (id ++ json_suffix) ∷ [])

abbrev pub plain_file : Text → Text → Text
plain_file dir name = join_paths (dir ∷ name ∷ [])

-- `strings.TrimSuffix(name, filepath.Ext(name))`
abbrev pub stem : Text → Text
stem name = trim_suffix name (ext name)

-- The loop of the two lists: an entry that cannot be read is left out.
unfoldable pub collect : {A : Type 0} → (Text → Result A) → List Text → List A
collect get [] = []
collect get (name ∷ names) = elim (get (stem name)) [
  | err e ↦ collect get names
  | ok a ↦ a ∷ collect get names
]

module _ (F : FileSystem) (json : Json) (root : Text) where
  -- The tail of a `Put`: the data is written, or the error of the encoder is returned.
  abbrev pub put_encoded : F.State → Text → Result Text → F.State × Option Error
  put_encoded s path (err e) = (s, some e)
  put_encoded s path (ok data') = write_file F root s path data'

  -- `(*fileStore).GroupPut`
  unfoldable pub group_put : F.State → Group → F.State × Option Error
  group_put s group =
      put_encoded s (json_file groups_dir group.id)
        (to_rich_group json group >>= json.marshal_group)

  -- `(*fileStore).GroupGet`
  unfoldable pub group_get : F.State → Text → Result Group
  group_get s id = do data' ← read_file F root s (json_file groups_dir id); parse_group json data'

  -- `(*fileStore).GroupList`
  unfoldable pub group_list : F.State → Result (List Group)
  group_list s = do files ← read_dir F root s groups_dir; ok (collect (group_get s) files)

  -- `(*fileStore).ProfilePut`
  unfoldable pub profile_put : F.State → Profile → F.State × Option Error
  profile_put s profile =
      put_encoded s (json_file profiles_dir profile.id) (json.marshal_profile profile)

  -- `(*fileStore).ProfileGet`
  unfoldable pub profile_get : F.State → Text → Result Profile
  profile_get s id = do
    data' ← read_file F root s (json_file profiles_dir id)
    profile ← json.unmarshal_profile data'
    assert_valid_profile profile >> ok profile

  -- `(*fileStore).ProfileList`
  unfoldable pub profile_list : F.State → Result (List Profile)
  profile_list s = do files ← read_dir F root s profiles_dir; ok (collect (profile_get s) files)

  -- `(*fileStore).IgnitionPut` and the four like it.
  unfoldable pub ignition_put : F.State → Text → Text → F.State × Option Error
  ignition_put s name config = write_file F root s (plain_file ignition_dir name) config

  unfoldable pub ignition_get : F.State → Text → Result Text
  ignition_get s name = read_file F root s (plain_file ignition_dir name)

  unfoldable pub cloud_put : F.State → Text → Text → F.State × Option Error
  cloud_put s name config = write_file F root s (plain_file cloud_dir name) config

  unfoldable pub cloud_get : F.State → Text → Result Text
  cloud_get s name = read_file F root s (plain_file cloud_dir name)

  unfoldable pub generic_get : F.State → Text → Result Text
  generic_get s name = read_file F root s (plain_file generic_dir name)

  -- `NewFileStore`
  abbrev pub file_store : Store
  file_store = record {
    State = F.State;
    group_put = group_put;
    group_get = group_get;
    group_list = group_list;
    profile_put = profile_put;
    profile_get = profile_get;
    profile_list = profile_list;
    ignition_put = ignition_put;
    ignition_get = ignition_get;
    cloud_put = cloud_put;
    cloud_get = cloud_get;
    generic_get = generic_get;
  }
