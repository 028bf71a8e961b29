-- ===== src/Tests/Runs.antt =====
-- A run of puts over the file store in memory.
use coreos_baremetal.Golang.FileSystem.Memory.{memory, memory-IsLawful}
use coreos_baremetal.Prelude.{◌≡◌, refl, List, [], ◌∷◌, All, arith}
use coreos_baremetal.Prelude.Text.{text, ◌==◌, join, contains_byte}
use coreos_baremetal.Golang.FilePath.{
  join_paths, clean, render, is_rooted, resolve, split_slash, push,
}
use coreos_baremetal.Storagepb.Json.{Json}
use coreos_baremetal.Storagepb.Group.{assert_valid, to_rich_group}
use coreos_baremetal.Storagepb.Profile.{assert_valid_profile}
use coreos_baremetal.Storage.FileStore.Paths.{IsId}
use coreos_baremetal.Storage.FileStore
use coreos_baremetal.Storage.Dir.{write_file, sanitize}
use coreos_baremetal.Server
use coreos_baremetal.Server.{Core, Labels, select_profile}
use coreos_baremetal.Server.Runs.{
  groups, Resource, group, profile, ignition_template, kind_of, name_of, put, run, get, encode,
  decode, replay, same_kind,
}
use coreos_baremetal.Server.Runs.Keys.{IsNamed}
use coreos_baremetal.Server.Runs.Written.{file_server}
use coreos_baremetal.Server.Runs.Refined.{get-run}
use coreos_baremetal.Tests.Samples.{sorts, region, node, worker, one_value}

abbrev json : Json
json = one_value region worker

abbrev core : Core
core = file_server memory json (text "/data") sorts

abbrev later : List Resource
later = profile worker ∷ ignition_template (text "w.yaml") (text "systemd:") ∷ group node ∷ []

one-IsId : IsId (text "one")
unfolding text contains_byte
one-IsId = record { no_slash = omega arith; no_nul = refl }

named : All (λ r. IsNamed (kind_of r) (name_of r)) (group region ∷ later)
unfolding text contains_byte
named = (
  one-IsId,
  (
    record { no_slash = omega arith; no_nul = refl },
    (
      record { safe = (cc, cc, cc, omega arith); no_nul = refl },
      (record { no_slash = omega arith; no_nul = refl }, tt),
    ),
  ),
)

get-run_example :
    get core (run core [] (group region ∷ later)) groups (text "one")
    ≡ decode json groups (text "one") (text "{}")
unfolding put encode replay Server.group_put Server.profile_put Server.ignition_put same_kind
    assert_valid assert_valid_profile text ◌==◌ FileStore.group_put FileStore.profile_put
    FileStore.ignition_put to_rich_group write_file sanitize contains_byte join_paths clean render
    is_rooted join resolve split_slash push
get-run_example =
    get-run memory memory-IsLawful json (text "/data") sorts [] (group region ∷ later) groups
      (text "one") (text "{}") named one-IsId refl
