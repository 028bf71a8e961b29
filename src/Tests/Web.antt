-- ===== src/Tests/Web.antt =====
-- The HTTP endpoints over a store in maps, with a template engine that copies its template.
use coreos_baremetal.Storagepb.Profile.{assert_valid_profile}
use coreos_baremetal.Server
use coreos_baremetal.Server.{new_server, select_group}
use coreos_baremetal.Testfakes.Fixed.{
  find, group_put, group_get, profile_put, profile_get, FixedStore, fixed_store, new_fixed_store,
  fixed_store_lem,
}
use coreos_baremetal.Testfakes.Fixed
use coreos_baremetal.Http.Context.{group_from_context, background, with_group}
use coreos_baremetal.Http.Render.{render_template, parse_all, Libraries}
use coreos_baremetal.Prelude.{
  ◌≡◌, ◌⊎◌, refl, true, false, none, some, List, [], ◌∷◌, ◌++◌, map, if◌then◌else◌, All, is_some,
}
use coreos_baremetal.Prelude.Text.{Text, text, ◌==◌, join}
use coreos_baremetal.Golang.Errors.{ok, Result, intentional}
use coreos_baremetal.Golang.Dict.{lookup}
use coreos_baremetal.Golang.Http.{
  Request, Call, not_found, serve_content, error_reply, run, run_call, write_header,
  partial_content, write,
}
use coreos_baremetal.Golang.Http.Recorder.{respond}
use coreos_baremetal.Storagepb.Json.{Json, Fields, end, field, object, string}
use coreos_baremetal.Testfakes.{broken_store}
use coreos_baremetal.Sign.Writer.{signature_handler}
use coreos_baremetal.Sign.Writer.Signed.{signature_handler_lem, signed_status}
use coreos_baremetal.Http.Parse.{
  labels_from_request, collect_variables, request_key, request_variables,
}
use coreos_baremetal.Http.Parse.Labels.{label_of, lookup-labels_from_request}
use coreos_baremetal.Http.Parse.Variables.{
  lookup_field, last_selector, decoded_metadata, collect_variables_lem,
}
use coreos_baremetal.Http.Metadata.{render_as_env_file, metadata_handler, env_line, to_upper}
use coreos_baremetal.Http.Metadata.EnvFile.{leaves, leaf_line, render_as_env_file_lem}
use coreos_baremetal.Http.Handlers.{home_handler, new_handler, select_group_handler}
use coreos_baremetal.Http.Configs.{cloud_handler, generic_handler, ignition_handler, is_user_data}
use coreos_baremetal.Http.Configs.Outcomes.{
  CloudConfig, cloud_handler_served, cloud_handler_serves, unmatched,
}
use coreos_baremetal.Http.Routes.Signatures.{handler_at, endpoint_names, signed_endpoints}
use coreos_baremetal.Tests.Samples.{region, worker, one_value, sorts}

abbrev pub query : Request
query = record {
  method = text "GET";
  path = text "/cloud";
  query = (text "region", text "a" ∷ []) ∷ (text "MAC", text "52-DA-00-89-D8-10" ∷ []) ∷ [];
  raw_query = text "region=a";
  header = [];
}

abbrev pub libraries : Libraries
libraries = record {
  Template = Text;
  new_template = [];
  parse_template = λ template content. ok content;
  execute = λ template fields. (template, none);
  is_cloud_config = λ config. true;
  is_script = λ config. false;
  new_cloud_config = λ config. none;
  parse_ignition = λ config. none;
  IgnitionConfig = Text;
  parse_fuze = λ config. ok config;
  marshal_ignition = λ config. ok config;
  describe = λ content. [];
  serve_conditional = λ req content. write_header partial_content ∷ write content ∷ [];
}

abbrev pub json : Json
json = one_value region worker

abbrev pub cloudy : FixedStore
cloudy = record new_fixed_store {
  groups = (text "one", region) ∷ [];
  profiles = (text "p1", record worker { cloud_id = text "c" }) ∷ [];
  cloud_configs = (text "c", text "#cloud-config") ∷ [];
}

lookup-labels_from_request_example : lookup (text "MAC") (labels_from_request query) ≡ (
    if is_some (lookup (text "MAC") query.query) then label_of query.query (text "MAC") else none)
lookup-labels_from_request_example = lookup-labels_from_request query (text "MAC")

collect_variables_lem_example :
    (variables : Fields) × (collect_variables json query region ≡ ok (some variables))
    × (lookup_field (text "region") variables ≡ (
        if request_key == text "region"
        then some (request_variables query)
        else last_selector
            (text "region")
            region.selector
            (lookup_field (text "region") (field request_key (object end) end))))
unfolding decoded_metadata
collect_variables_lem_example =
    collect_variables_lem json query region (field request_key (object end) end) (text "region")
      refl

abbrev signer : Text → Result Text
signer message = ok (text "signed: " ++ message)

signature_handler_lem_example :
    (signed : List Call) × (signature_handler signer home_handler query ≡ some signed)
    × (respond signed ≡ record {
      status = some (signed_status not_found);
      header = [];
      body = text "signed: 404 page not found" ++ (10 ∷ []);
    })
unfolding home_handler text ◌==◌ not_found error_reply respond run run_call
signature_handler_lem_example =
    signature_handler_lem signer home_handler query not_found
      (text "signed: 404 page not found" ++ (10 ∷ [])) refl refl

abbrev variables : Fields
variables = field (text "outer") (object (field (text "inner") (string (text "val")) end)) end

render_as_env_file_lem_example : render_as_env_file [] variables ≡ map leaf_line (leaves variables)
render_as_env_file_lem_example = render_as_env_file_lem variables

env_file_test : map leaf_line (leaves variables) ≡ (text "OUTER_INNER=val" ++ (10 ∷ [])) ∷ []
unfolding leaves env_line to_upper join text
env_file_test = refl

unmatched_example :
    All
      (λ endpoint.
        new_handler (select_group_handler (new_server broken_store sorts) tt endpoint) query
        ≡ some not_found)
      (generic_handler libraries json (new_server broken_store sorts) tt
        ∷ cloud_handler libraries json (new_server broken_store sorts) tt
        ∷ ignition_handler libraries json (new_server broken_store sorts) tt
        ∷ metadata_handler json
        ∷ [])
unfolding select_group
unmatched_example =
    unmatched libraries json (new_server broken_store sorts) tt query intentional refl

signed_endpoints_example :
    All
      (λ name.
        handler_at libraries json sorts.texts
          (new_server broken_store sorts)
          tt
          (λ path. home_handler)
          (record { assets_path = []; signer = some signer; armored_signer = none })
          (name ++ text ".sig")
        ≡ signature_handler signer (
            handler_at libraries json sorts.texts
              (new_server broken_store sorts)
              tt
              (λ path. home_handler)
              (record { assets_path = []; signer = some signer; armored_signer = none })
              name))
      endpoint_names
signed_endpoints_example =
    signed_endpoints libraries json sorts.texts (new_server broken_store sorts) tt
      (λ path. home_handler) signer [] none

-- The only group's cloud-config is rendered.
rendered :
    CloudConfig libraries json
      (new_server fixed_store sorts)
      cloudy
      query
      (with_group background region)
      (text "#cloud-config")
unfolding group_from_context with_group Server.profile_get Server.cloud_get Fixed.profile_get
    Fixed.cloud_get find lookup text ◌==◌ assert_valid_profile collect_variables render_template
    parse_all
rendered = record {
  group = region;
  in_context = refl;
  profile = record worker { cloud_id = text "c" };
  named = refl;
  template = text "#cloud-config";
  stored = refl;
  variables = _;
  collected = refl;
  rendered = refl;
}

cloud_handler_served_example :
    (serve_content libraries.describe libraries.serve_conditional query (text "#cloud-config")
      ≡ not_found)
    ⊎ ((content : Text) × CloudConfig libraries json
          (new_server fixed_store sorts)
          cloudy
          query
          (with_group background region)
          content
        × (is_user_data libraries content ≡ true)
        × (serve_content libraries.describe libraries.serve_conditional query (text "#cloud-config")
            ≡ serve_content libraries.describe libraries.serve_conditional query content))
unfolding is_user_data
cloud_handler_served_example =
    cloud_handler_served libraries json (new_server fixed_store sorts) cloudy query
      (with_group background region)
      (serve_content libraries.describe libraries.serve_conditional query (text "#cloud-config"))
      (cloud_handler_serves libraries json (new_server fixed_store sorts) cloudy query
        (with_group background region) (text "#cloud-config") rendered)
