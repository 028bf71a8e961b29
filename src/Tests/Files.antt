-- ===== src/Tests/Files.antt =====
-- Paths, and the file store over the file system in memory.
use coreos_baremetal.Prelude.{◌≡◌, refl, none, some, [], ◌∷◌, All}
use coreos_baremetal.Prelude.Text.{Text, text, ◌==◌, join, contains_byte, to_lower}
use coreos_baremetal.Golang.Errors.{ok, err, invalid_file_path_character, ◌>>◌, Result, failure}
use coreos_baremetal.Golang.Dict.{Dict, insert, lookup}
use coreos_baremetal.Golang.FilePath.{
  split_slash, is_rooted, pop, push, resolve, render, clean, join_paths, elements, ext, trim_suffix,
  base, dir_of,
}
use coreos_baremetal.Golang.FilePath.Resolve.{IsSafe}
use coreos_baremetal.Golang.FileSystem.Memory.{memory, memory-IsLawful, strip, entries_of}
use coreos_baremetal.Storagepb.Json.{Json, RichGroup, end, Fields, Profile, field}
use coreos_baremetal.Storagepb.Group.{
  to_rich_group, to_group, parse_group, normalize, normalize_entries,
}
use coreos_baremetal.Storagepb.Profile.{assert_valid_profile}
use coreos_baremetal.Storage.Dir.{sanitize, write_file, read_file, read_dir}
use coreos_baremetal.Storage.Dir.Contained.{below, sanitize_contained}
use coreos_baremetal.Storage.FileStore.{
  group_put, stem, groups_dir, group_get, profile_put, profile_get,
}
use coreos_baremetal.Storagepb.Group.Normal.{IsNormal}
use coreos_baremetal.Storagepb.Group.Rich.{parse_group-IsNormal, ReadsBack}
use coreos_baremetal.Storage.FileStore.Groups.{group_put_roundtrip}
use coreos_baremetal.Storage.FileStore.Profiles.{profile_put_roundtrip}
use coreos_baremetal.Tests.Samples.{rich_of, region, worker, one_value}

clean_tests :
    (clean (text "/a/../../etc//./x/") ≡ text "/etc/x")
    × (clean (text "../a/..") ≡ text "..")
    × (clean (text "a/..") ≡ text ".")
    × (join_paths (text "groups" ∷ text "../x.json" ∷ []) ≡ text "x.json")
unfolding text clean split_slash is_rooted pop push resolve render join_paths join ◌==◌
clean_tests = (refl, refl, refl, refl)

name_tests :
    (stem (text "node.1.json") ≡ text "node.1")
    × (base (text "/pixiecore/v1/boot/52:da/") ≡ text "52:da")
    × (dir_of (text "/var/groups/a.json") ≡ text "/var/groups")
unfolding text ext trim_suffix contains_byte base dir_of clean split_slash is_rooted pop push
    resolve render join ◌==◌
name_tests = (refl, refl, refl)

-- Names that climb out of the directory are held below it.
sanitize_tests :
    (sanitize (text "/var/lib") (text "groups/../../../etc/passwd")
      ≡ ok (text "/var/lib/etc/passwd"))
    × (sanitize [] (text "../x") ≡ ok (text "x"))
    × (sanitize (text "/var") (0 ∷ []) ≡ err invalid_file_path_character)
unfolding text sanitize contains_byte clean split_slash is_rooted pop push resolve render join_paths
    join ◌==◌
sanitize_tests = (refl, refl, refl)

sanitize_contained_example :
    (sanitize (text "/var") (text "../x")
      ≡ ok (below (text "/var") (elements (b'/' ∷ text "../x"))))
    × All IsSafe (elements (b'/' ∷ text "../x"))
unfolding text contains_byte
sanitize_contained_example = sanitize_contained (text "/var") (text "../x") refl

abbrev json : Json
json = one_value region worker

files : Dict Text
unfolding text group_put to_rich_group write_file sanitize contains_byte clean split_slash is_rooted
    pop push resolve render join_paths join ◌==◌ insert
files = (group_put memory json (text "/data") [] region).0

files_test : files ≡ (text "/data/groups/one.json", text "{}") ∷ []
unfolding files dir_of
files_test = refl

abbrev root : Text
root = text "/data"

region_stored : (group_put memory json root [] region).1 ≡ none
unfolding files
region_stored = refl

abbrev rich_region : RichGroup
rich_region = record (rich_of region) { metadata = some end }

group_put_roundtrip_example :
    group_get memory json root (group_put memory json root [] region).0 region.id
    ≡ ((normalize region).1 >> ok (normalize region).0)
unfolding to_rich_group to_group
group_put_roundtrip_example =
    group_put_roundtrip memory memory-IsLawful json root [] region rich_region (text "{}") refl refl
      refl refl region_stored

region_read : group_get memory json root files region.id ≡ ok region
unfolding files group_get parse_group to_group normalize normalize_entries to_lower lookup read_file
region_read = refl

worker_stored : (profile_put memory json root files worker).1 ≡ none
unfolding files profile_put
worker_stored = refl

profile_put_roundtrip_example :
    profile_get memory json root (profile_put memory json root files worker).0 worker.id
    ≡ (assert_valid_profile worker >> ok worker)
profile_put_roundtrip_example =
    profile_put_roundtrip memory memory-IsLawful json root files worker (text "{}") refl refl
      worker_stored

listed : read_dir memory root files groups_dir ≡ ok (text "one.json" ∷ [])
unfolding files read_dir strip entries_of contains_byte
listed = refl

parse_group-IsNormal_example : All IsNormal region.selector
unfolding parse_group to_group normalize normalize_entries to_lower text ◌==◌
parse_group-IsNormal_example = parse_group-IsNormal json (text "{}") region refl

-- A codec of objects that knows the empty object alone.
marshal_empty : Fields → Result Text
marshal_empty end = ok (text "{}")
marshal_empty (field k v fields) = err (failure (text "not empty"))

abbrev empty_json : Json
empty_json = record json { marshal_object = marshal_empty }

empty_json-ReadsBack : ReadsBack empty_json
unfolding marshal_empty
empty_json-ReadsBack end data' e = refl
empty_json-ReadsBack (field k v fields) data' e = cc

files_and_worker : Dict Text
unfolding files profile_put
files_and_worker = (profile_put memory json root files worker).0

worker_read : profile_get memory json root files_and_worker (text "p1") ≡ ok worker
unfolding files_and_worker profile_get assert_valid_profile read_file text ◌==◌ lookup
worker_read = refl

abbrev other : Profile
other = record worker { id = text "p1b" }
