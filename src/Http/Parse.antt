-- ===== src/Http/Parse.antt =====
-- bootcfg/http/parse.go
pub mod Labels
pub mod Variables
pub mod Spelling
use coreos_baremetal.Prelude.{◌≡◌, Option, none, some, List, [], ◌∷◌, if◌then◌else◌}
use coreos_baremetal.Prelude.Text.{Text, text, ◌==◌, to_lower}
use coreos_baremetal.Golang.Errors.{Result, ok, err, ◌>>=◌}
use coreos_baremetal.Golang.Dict.{Dict, lookup, insert, keys}
use coreos_baremetal.Golang.Mac.{parse_mac, mac_string}
use coreos_baremetal.Golang.Http.{Request}
use coreos_baremetal.Storagepb.Json.{
  Group, Json, Value, string, string_map, object, Fields, end, field,
}
use coreos_baremetal.Storagepb.Group.{mac_key}

-- `url.Values.Get`: the first value, or the empty text.
unfoldable pub get : Dict (List Text) → Text → Text
get values key = elim (lookup key values) [
  | none ↦ []
  | some vs ↦ elim vs [ [] ↦ [] | v ∷ rest ↦ v ]
]

-- The loop of `labelsFromRequest` over the keys, with the labels made so far.
unfoldable pub collect_labels : Dict (List Text) → List Text → Dict Text → Dict Text
collect_labels values [] labels = labels
collect_labels values (key ∷ rest) labels =
    if to_lower key == mac_key
    then (elim (parse_mac (get values key)) [
      | some hw ↦ collect_labels values rest (insert key (mac_string hw) labels)
      | none ↦ collect_labels values rest labels
    ])
    else collect_labels values rest (insert key (get values key) labels)

-- `labelsFromRequest`
unfoldable pub labels_from_request : Request → Dict Text
labels_from_request req = collect_labels req.query (keys req.query) []

-- `data[key] = value` on a `map[string]interface{}`.
unfoldable pub set_field : Text → Value → Fields → Fields
set_field key value end = field key value end
set_field key value (field k old fields) =
    if k == key then field k value fields else field k old (set_field key value fields)

-- The loop of `collectVariables` over the selector.
unfoldable pub set_selectors : Dict Text → Fields → Fields
set_selectors [] fields = fields
set_selectors ((key, value) ∷ sel) fields =
    set_selectors sel (set_field (to_lower key) (string value) fields)

abbrev pub request_key : Text
request_key = text "request"

-- The reserved variables of a request.
unfoldable pub request_variables : Request → Value
request_variables req = object (
    field (text "query") (string_map (labels_from_request req))
      (field (text "raw_query") (string req.raw_query) end))

-- `collectVariables`. Metadata that is the JSON text `null` leaves a `nil` map, and the assignment
-- that follows panics: that result is `ok none`.
unfoldable pub collect_variables : Json → Request → Group → Result (Option Fields)
collect_variables json req group = do
  decoded ← elim group.metadata [
    | none ↦ ok (some (field request_key (object end) end))
    | some data' ↦ json.unmarshal_object (field request_key (object end) end) data'
  ]
  ok (elim decoded [
    | none ↦ none
    | some fields ↦
        some (set_field request_key (request_variables req) (set_selectors group.selector fields))
  ])
