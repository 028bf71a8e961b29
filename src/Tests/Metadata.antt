-- ===== src/Tests/Metadata.antt =====
-- The metadata endpoint, as a client reads its answer.
use coreos_baremetal.Prelude.{◌≡◌, refl, some, List, [], ◌∷◌, map}
use coreos_baremetal.Prelude.Text.{text, ◌==◌, join, to_lower, contains_byte}
use coreos_baremetal.Golang.Dict.{insert, lookup}
use coreos_baremetal.Golang.Http.{Request, Call}
use coreos_baremetal.Golang.Http.Recorder.{respond}
use coreos_baremetal.Storagepb.Json.{Json, Fields, end, field, string, string_map, object}
use coreos_baremetal.Http.Context.{background, with_group, group_from_context}
use coreos_baremetal.Http.Parse.{
  request_variables, collect_variables, set_selectors, set_field, labels_from_request,
  collect_labels, get,
}
use coreos_baremetal.Http.Metadata.{metadata_handler, to_upper}
use coreos_baremetal.Http.Metadata.EnvFile.{leaves, leaves_of, leaves_of_strings}
use coreos_baremetal.Http.Metadata.Read.{variable, read_env_file, read_from, metadata_read}
use coreos_baremetal.Tests.Samples.{region, worker, one_value}

abbrev json : Json
json = one_value region worker

abbrev query : Request
query = record {
  method = text "GET";
  path = text "/metadata";
  query = (text "region", text "a" ∷ []) ∷ [];
  raw_query = text "region=a";
  header = [];
}

abbrev variables : Fields
variables =
    field (text "request")
      (object (
        field (text "query") (string_map ((text "region", text "a") ∷ []))
          (field (text "raw_query") (string (text "region=a")) end)))
      (field (text "region") (string (text "a")) end)

-- A text with `=` is read up to the end of its line.
read_test :
    read_env_file (text "REQUEST_QUERY_REGION=a\nREQUEST_RAW_QUERY=region=a\nREGION=a\n")
    ≡ map variable (leaves variables)
unfolding text read_env_file read_from leaves leaves_of leaves_of_strings to_upper join
read_test = refl

metadata_read_example :
    (calls : List Call) × (metadata_handler json (with_group background region) query ≡ some calls)
    × (read_env_file (respond calls).body ≡ map variable (leaves variables))
unfolding group_from_context with_group collect_variables set_selectors set_field request_variables
    labels_from_request collect_labels get text ◌==◌ to_lower insert lookup leaves leaves_of
    leaves_of_strings contains_byte
metadata_read_example =
    metadata_read json (with_group background region) query region variables refl refl (
      ((refl, refl), ((refl, refl), ((refl, refl), tt)), refl),
      (((refl, refl), ((refl, refl), tt), refl), (((refl, refl), tt, refl), tt)),
    )
