-- ===== src/Tests/Igniting.antt =====
-- A machine gets the Ignition config that the commands have put.
use coreos_baremetal.Prelude.{◌≡◌, refl, none, some, [], ◌∷◌, arith, sym, ◌∙◌}
use coreos_baremetal.Prelude.Text.{Text, text, ◌==◌, to_lower, contains_byte, join, has_suffix}
use coreos_baremetal.Golang.Errors.{ok}
use coreos_baremetal.Golang.Dict.{lookup, insert, Dict}
use coreos_baremetal.Golang.FileSystem.Memory.{
  memory, memory-IsLawful, memory-ListsFiles, entries_of, strip,
}
use coreos_baremetal.Golang.FilePath.{
  join_paths, clean, dir_of, is_rooted, pop, push, render, resolve, split_slash, ext, trim_suffix,
  base,
}
use coreos_baremetal.Golang.Http.{Request, status_ok}
use coreos_baremetal.Golang.Http.Recorder.{respond}
use coreos_baremetal.Storagepb.Json.{Json, Profile}
use coreos_baremetal.Storagepb.Group.{
  assert_valid, parse_group, to_group, normalize, normalize_entries, matches, matches_all,
  to_rich_group,
}
use coreos_baremetal.Storagepb.Profile.{assert_valid_profile, parse_profile}
use coreos_baremetal.Storage.Dir.{write_file, sanitize, read_file, read_dir}
use coreos_baremetal.Storage.Store.{Store}
use coreos_baremetal.Storage.Store.Keeping.{IsKeeping, KeepsIgnition}
use coreos_baremetal.Storage.FileStore.{file_store, collect}
use coreos_baremetal.Storage.FileStore
use coreos_baremetal.Storage.FileStore.Paths.{IsFileName}
use coreos_baremetal.Storage.FileStore.Kept.{FitsGroup, FitsProfile, file_store-IsKeeping}
use coreos_baremetal.Storage.FileStore.Templates.{file_store-KeepsIgnition}
use coreos_baremetal.Server
use coreos_baremetal.Server.{new_server}
use coreos_baremetal.Rpc
use coreos_baremetal.Rpc.{grpc_error}
use coreos_baremetal.Cli.{
  run_ignition_put, run_group_put, run_profile_put, load_group, load_profile, create_command,
  must_client_from_cmd, endpoints_from_cmd, tls_info_from_cmd, returned,
}
use coreos_baremetal.Http.Configs.{is_ignition}
use coreos_baremetal.Http.Handlers.{home_handler}
use coreos_baremetal.Http.Parse.{labels_from_request, collect_labels}
use coreos_baremetal.Http.Parse
use coreos_baremetal.Http.Render.{write_json}
use coreos_baremetal.Http.Routes.{http_handler}
use coreos_baremetal.Http.Routes
use coreos_baremetal.System.Ignition.{created_ignites}
use coreos_baremetal.Tests.Samples.{sorts, region, worker, one_value}
use coreos_baremetal.Tests.Web.{libraries}
use coreos_baremetal.Tests.Booting.{first_boot, alone}
use coreos_baremetal.Tests.Running.{command}

abbrev igniter : Profile
igniter = record worker { ignition_id = text "worker.ign" }

abbrev json : Json
json = one_value region igniter

abbrev files : Store
files = file_store memory json (text "/data")

abbrev with_config : Dict Text
with_config = (text "/data/ignition/worker.ign", text "{}") ∷ []

abbrev with_profile : Dict Text
with_profile =
    (text "/data/ignition/worker.ign", text "{}") ∷ (text "/data/profiles/p1.json", text "{}") ∷ []

abbrev with_all : Dict Text
with_all =
    (text "/data/ignition/worker.ign", text "{}")
    ∷ (text "/data/profiles/p1.json", text "{}")
    ∷ (text "/data/groups/one.json", text "{}")
    ∷ []

region-Fits : FitsGroup json region
unfolding to_rich_group parse_group to_group normalize normalize_entries to_lower text ◌==◌
    contains_byte
region-Fits = record {
  named = record { no_slash = omega arith; no_nul = refl };
  rich = _;
  data' = text "{}";
  converted = refl;
  encoded = refl;
  parsed = refl;
}

igniter-Fits : FitsProfile json igniter
unfolding text contains_byte
igniter-Fits = record {
  named = record { no_slash = omega arith; no_nul = refl };
  data' = text "{}";
  encoded = refl;
  parsed = refl;
}

template-IsFileName : IsFileName (text "worker.ign")
unfolding text contains_byte
template-IsFileName = record { safe = (cc, cc, cc, omega arith); no_nul = refl }

keeping : IsKeeping files (FitsGroup json) (FitsProfile json)
keeping = file_store-IsKeeping memory memory-IsLawful memory-ListsFiles json (text "/data")

templates : KeepsIgnition files (FitsGroup json) (FitsProfile json) IsFileName
templates = file_store-KeepsIgnition memory memory-IsLawful json (text "/data")

config_created :
    run_ignition_put command json (new_server files sorts) [] (text "worker.ign") []
    ≡ (with_config, returned)
unfolding run_ignition_put Rpc.ignition_put Server.ignition_put FileStore.ignition_put
    create_command text must_client_from_cmd endpoints_from_cmd tls_info_from_cmd grpc_error ◌==◌
    insert write_file sanitize contains_byte join_paths clean dir_of is_rooted pop push render
    resolve split_slash join base
config_created = refl

profile_created :
    run_profile_put command json (new_server files sorts) with_config (text "profile.json") []
    ≡ (with_profile, returned)
unfolding run_profile_put load_profile parse_profile Rpc.profile_put Server.profile_put
    assert_valid_profile FileStore.profile_put create_command text must_client_from_cmd
    endpoints_from_cmd tls_info_from_cmd grpc_error ◌==◌ insert write_file sanitize contains_byte
    join_paths clean dir_of is_rooted pop push render resolve split_slash join
profile_created = refl

group_created :
    run_group_put command json (new_server files sorts) with_profile (text "group.json") []
    ≡ (with_all, returned)
unfolding run_group_put load_group parse_group to_group normalize normalize_entries to_lower
    Rpc.group_put Server.group_put assert_valid FileStore.group_put to_rich_group create_command
    text must_client_from_cmd endpoints_from_cmd tls_info_from_cmd grpc_error ◌==◌ insert write_file
    sanitize contains_byte join_paths clean dir_of is_rooted pop push render resolve split_slash
    join
group_created = refl

listed : files.group_list with_all ≡ ok (region ∷ [])
unfolding FileStore.group_list FileStore.group_get read_file read_dir collect entries_of strip ext
    trim_suffix lookup parse_group to_group normalize normalize_entries to_lower text ◌==◌
    write_file sanitize contains_byte join_paths clean dir_of is_rooted pop push render resolve
    split_slash join
listed = refl

abbrev ignites : Request
ignites = record first_boot { path = text "/ignition" }

created_ignites_example :
    (http_handler libraries json sorts.texts
        (new_server files sorts)
        with_all
        (λ path. home_handler)
        (Routes.new_server (record { assets_path = []; signer = none; armored_signer = none }))
        ignites
      ≡ some (write_json (text "{}")))
    × (respond (write_json (text "{}")) ≡ record {
      status = some status_ok;
      header = (text "Content-Type", text "application/json") ∷ [];
      body = text "{}";
    })
unfolding text load_group load_profile parse_group parse_profile to_group assert_valid_profile
    normalize normalize_entries to_lower ◌==◌ matches matches_all lookup labels_from_request
    collect_labels Parse.get insert base is_ignition ext split_slash has_suffix
created_ignites_example =
    created_ignites libraries json (λ path. home_handler)
      (Routes.new_server (record { assets_path = []; signer = none; armored_signer = none })) files
      keeping templates sorts command [] with_config with_profile with_all b'w' b'p' b'g'
      (text "orker.ign") (text "rofile.json") (text "roup.json") (text "{}") igniter region ignites
      igniter-Fits region-Fits template-IsFileName config_created profile_created group_created refl
      refl refl refl refl refl refl refl (λ groups x h. alone groups x (sym listed ∙ h))
