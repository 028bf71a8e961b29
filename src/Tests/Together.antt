-- ===== src/Tests/Together.antt =====
-- A machine boots from what the commands have put.
use coreos_baremetal.Prelude.{◌≡◌, refl, none, some, [], ◌∷◌, arith, sym, ◌∙◌, List}
use coreos_baremetal.Prelude.Text.{Text, text, ◌==◌, to_lower, contains_byte, join}
use coreos_baremetal.Golang.Errors.{ok}
use coreos_baremetal.Golang.Http.{write_or_fail, status_ok}
use coreos_baremetal.Golang.Http.Recorder.{respond}
use coreos_baremetal.Golang.Dict.{lookup, insert, Dict}
use coreos_baremetal.Storagepb.Json.{Json, Group}
use coreos_baremetal.Storagepb.Group.{
  assert_valid, parse_group, to_group, normalize, normalize_entries, matches, matches_all,
  to_rich_group,
}
use coreos_baremetal.Storagepb.Profile.{assert_valid_profile, parse_profile}
use coreos_baremetal.Server
use coreos_baremetal.Server.{new_server}
use coreos_baremetal.Rpc
use coreos_baremetal.Rpc.{grpc_error}
use coreos_baremetal.Cli.{
  run_group_put, run_profile_put, load_group, load_profile, create_command, must_client_from_cmd,
  endpoints_from_cmd, tls_info_from_cmd, returned,
}
use coreos_baremetal.Http.Boot.{ipxe_script}
use coreos_baremetal.Http.Handlers.{home_handler}
use coreos_baremetal.Http.Parse.{labels_from_request, collect_labels}
use coreos_baremetal.Http.Parse
use coreos_baremetal.Http.Routes.{http_handler}
use coreos_baremetal.Http.Routes
use coreos_baremetal.Golang.FileSystem.Memory.{
  memory, memory-IsLawful, memory-ListsFiles, entries_of, strip,
}
use coreos_baremetal.Storage.Store.{Store}
use coreos_baremetal.Storage.Store.Keeping.{IsKeeping}
use coreos_baremetal.Storage.FileStore.{file_store, collect}
use coreos_baremetal.Storage.FileStore
use coreos_baremetal.Storage.FileStore.Kept.{FitsGroup, FitsProfile, file_store-IsKeeping}
use coreos_baremetal.Golang.FilePath.{
  join_paths, clean, dir_of, is_rooted, pop, push, render, resolve, split_slash, ext, trim_suffix,
}
use coreos_baremetal.Storage.Dir.{write_file, sanitize, read_file, read_dir}
use mathlib.Core.List.{Mem}
use coreos_baremetal.Storage.FileStore.Listed.{group_list-group_put}
use coreos_baremetal.System.{created_boots}
use coreos_baremetal.Tests.Samples.{sorts, region, worker, one_value}
use coreos_baremetal.Tests.Web.{libraries}
use coreos_baremetal.Tests.Booting.{first_boot, alone}
use coreos_baremetal.Tests.Running.{command}

abbrev json : Json
json = one_value region worker

abbrev files : Store
files = file_store memory json (text "/data")

abbrev with_worker : Dict Text
with_worker = (text "/data/profiles/p1.json", text "{}") ∷ []

abbrev with_both : Dict Text
with_both =
    (text "/data/profiles/p1.json", text "{}") ∷ (text "/data/groups/one.json", text "{}") ∷ []

region-Fits : FitsGroup json region
unfolding to_rich_group parse_group to_group normalize normalize_entries to_lower text ◌==◌
    contains_byte
region-Fits = record {
  named = record { no_slash = omega arith; no_nul = refl };
  rich = _;
  data' = text "{}";
  converted = refl;
  encoded = refl;
  parsed = refl;
}

worker-Fits : FitsProfile json worker
unfolding text contains_byte
worker-Fits = record {
  named = record { no_slash = omega arith; no_nul = refl };
  data' = text "{}";
  encoded = refl;
  parsed = refl;
}

keeping : IsKeeping files (FitsGroup json) (FitsProfile json)
keeping = file_store-IsKeeping memory memory-IsLawful memory-ListsFiles json (text "/data")

worker_created :
    run_profile_put command json (new_server files sorts) [] (text "worker.json") []
    ≡ (with_worker, returned)
unfolding run_profile_put load_profile parse_profile Rpc.profile_put Server.profile_put
    assert_valid_profile FileStore.profile_put create_command text must_client_from_cmd
    endpoints_from_cmd tls_info_from_cmd grpc_error ◌==◌ insert write_file sanitize contains_byte
    join_paths clean dir_of is_rooted pop push render resolve split_slash join
worker_created = refl

region_created :
    run_group_put command json (new_server files sorts) with_worker (text "region.json") []
    ≡ (with_both, returned)
unfolding run_group_put load_group parse_group to_group normalize normalize_entries to_lower
    Rpc.group_put Server.group_put assert_valid FileStore.group_put to_rich_group create_command
    text must_client_from_cmd endpoints_from_cmd tls_info_from_cmd grpc_error ◌==◌ insert write_file
    sanitize contains_byte join_paths clean dir_of is_rooted pop push render resolve split_slash
    join
region_created = refl

both_listed : files.group_list with_both ≡ ok (region ∷ [])
unfolding FileStore.group_list FileStore.group_get read_file read_dir collect entries_of strip ext
    trim_suffix lookup parse_group to_group normalize normalize_entries to_lower text ◌==◌
    write_file sanitize contains_byte join_paths clean dir_of is_rooted pop push render resolve
    split_slash join
both_listed = refl

created_boots_example :
    (script : Text) × (ipxe_script sorts.texts worker.boot ≡ ok script)
    × (http_handler libraries json sorts.texts
          (new_server files sorts)
          with_both
          (λ path. home_handler)
          (Routes.new_server (record { assets_path = []; signer = none; armored_signer = none }))
          first_boot
        ≡ some (write_or_fail script ∷ []))
    × (respond (write_or_fail script ∷ [])
        ≡ record { status = some status_ok; header = []; body = script })
unfolding text load_group load_profile parse_group parse_profile to_group assert_valid_profile
    normalize normalize_entries to_lower ◌==◌ matches matches_all lookup labels_from_request
    collect_labels Parse.get insert
created_boots_example =
    created_boots libraries json (λ path. home_handler)
      (Routes.new_server (record { assets_path = []; signer = none; armored_signer = none })) files
      keeping sorts command [] with_worker with_both b'w' b'r' (text "orker.json")
      (text "egion.json") worker (record { kernel = text "/vmlinuz"; initrd = []; cmdline = [] })
      region first_boot worker-Fits region-Fits worker_created region_created refl refl refl refl
      refl refl (λ groups x h. alone groups x (sym both_listed ∙ h))

group_list-group_put_example :
    (groups : List Group) × (FileStore.group_list memory json
        (text "/data")
        (FileStore.group_put memory json (text "/data") with_worker region).0
      ≡ ok groups)
    × Mem region groups
unfolding FileStore.group_put FileStore.group_get read_file strip lookup parse_group to_group
    normalize normalize_entries to_lower text ◌==◌ insert to_rich_group write_file sanitize
    contains_byte join_paths clean dir_of is_rooted pop push render resolve split_slash join
group_list-group_put_example =
    group_list-group_put memory memory-IsLawful memory-ListsFiles json (text "/data") with_worker
      region region region-Fits.named refl refl
