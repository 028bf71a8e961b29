-- ===== src/Http/Parse/Variables.antt =====
-- The variables that templates are rendered with, by key (bootcfg/http/parse.go).
use coreos_baremetal.Prelude.{◌≡◌, refl, arith, ap, ◌∙◌, Option, none, some, [], ◌∷◌, if◌then◌else◌}
use coreos_baremetal.Prelude.Text.{Text, ◌==◌, ==_iff, to_lower}
use coreos_baremetal.Golang.Errors.{Result, ok}
use coreos_baremetal.Golang.Dict.{Dict}
use coreos_baremetal.Golang.Http.{Request}
use coreos_baremetal.Storagepb.Json.{Group, Json, Value, string, object, Fields, end, field}
use coreos_baremetal.Http.Parse.{
  set_field, set_selectors, request_key, request_variables, collect_variables,
}

unfoldable pub lookup_field : Text → Fields → Option Value
lookup_field key end = none
lookup_field key (field k value fields) = if k == key then some value else lookup_field key fields

lookup_field-set_field :
    (key other : Text) (value : Value) (fields : Fields)
    → lookup_field other (set_field key value fields)
      ≡ (if key == other then some value else lookup_field other fields)
unfolding lookup_field set_field
lookup_field-set_field key other value end = refl
lookup_field-set_field key other value (field k old fields) = ground (
  arith,
  ==_iff k key,
  ==_iff key other,
  ==_iff k other,
  lookup_field-set_field key other value fields,
)

-- The value of the last selector whose name is `key` in lower case, or else `found`.
unfoldable pub last_selector : Text → Dict Text → Option Value → Option Value
last_selector key [] found = found
last_selector key ((k, value) ∷ sel) found =
    last_selector key sel (if to_lower k == key then some (string value) else found)

lookup_field-set_selectors :
    (key : Text) (sel : Dict Text) (fields : Fields)
    → lookup_field key (set_selectors sel fields) ≡ last_selector key sel (lookup_field key fields)
unfolding set_selectors last_selector
lookup_field-set_selectors key [] fields = refl
lookup_field-set_selectors key ((k, value) ∷ sel) fields =
    lookup_field-set_selectors key sel _
    ∙ ap (last_selector key sel) (lookup_field-set_field (to_lower k) key (string value) fields)

-- What the metadata of a group decodes to, over the empty request that is there before.
unfoldable pub decoded_metadata : Json → Group → Result (Option Fields)
decoded_metadata json group = elim group.metadata [
  | none ↦ ok (some (field request_key (object end) end))
  | some data' ↦ json.unmarshal_object (field request_key (object end) end) data'
]

-- Where the metadata decodes to a map, `request` is always the request's own variables, which no
-- metadata and no selector replaces; under any other key stands the last selector of that name in
-- lower case, if there is one, and otherwise what the metadata has.
pub collect_variables_lem :
    (json : Json) (req : Request) (group : Group) (decoded : Fields) (key : Text)
    → decoded_metadata json group ≡ ok (some decoded)
    → (variables : Fields) × (collect_variables json req group ≡ ok (some variables))
      × (lookup_field key variables ≡ (
          if request_key == key
          then some (request_variables req)
          else last_selector key group.selector (lookup_field key decoded)))
unfolding collect_variables decoded_metadata
collect_variables_lem json req group decoded key h = (
  set_field request_key (request_variables req) (set_selectors group.selector decoded),
  rw h refl,
  rw
      (
        lookup_field-set_field request_key key (request_variables req)
            (set_selectors group.selector decoded),
        lookup_field-set_selectors key group.selector decoded,
      )
      refl,
)
