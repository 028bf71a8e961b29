-- ===== src/Http/Metadata.antt =====
-- bootcfg/http/metadata.go
pub mod EnvFile
pub mod Read
use coreos_baremetal.Prelude.{
  Bool, true, false, Option, none, some, List, [], ◌∷◌, ◌++◌, ◌&&◌, if◌then◌else◌, map, leb, ℕ, ◌-◌,
}
use coreos_baremetal.Prelude.Text.{Text, text}
use coreos_baremetal.Golang.Errors.{Result, ok, err}
use coreos_baremetal.Golang.Dict.{Dict}
use coreos_baremetal.Golang.Http.{Call, set_header, write, not_found, Request}
use coreos_baremetal.Storagepb.Json.{
  Json, Value, null, boolean, number, string, array, object, string_map, Fields, end, field,
}
use coreos_baremetal.Http.Context.{Context, group_from_context}
use coreos_baremetal.Http.Parse.{collect_variables}

-- `strings.ToUpper` on ASCII text
abbrev pub upper_byte : ℕ → ℕ
upper_byte c = if leb b'a' c && leb c b'z' then c - 32 else c

unfoldable pub to_upper : Text → Text
to_upper = map upper_byte

-- `%v` of a boolean
abbrev pub bool_text : Bool → Text
bool_text true = text "true"
bool_text false = text "false"

-- `fmt.Fprintf(w, "%s=%v\n", strings.ToUpper(name), val)`
unfoldable pub env_line : Text → Text → Text
env_line name value = to_upper name ++ (b'=' ∷ (value ++ (10 ∷ [])))

-- The call for a `map[string]string`, whose entries are texts.
unfoldable pub env_strings : Text → Dict Text → List Text
env_strings prefix [] = []
env_strings prefix ((key, value) ∷ m) = env_line (prefix ++ key) value ∷ env_strings prefix m

unfoldable mutual
  -- `renderAsEnvFile`: the lines that it writes, in the order in which Go ranges over the maps.
  pub render_as_env_file : Text → Fields → List Text
  render_as_env_file prefix end = []
  render_as_env_file prefix (field key value root) =
      env_value (prefix ++ key) value ++ render_as_env_file prefix root

  -- The switch on the type of one value.
  pub env_value : Text → Value → List Text
  env_value name null = []
  env_value name (boolean b) = env_line name (bool_text b) ∷ []
  env_value name (number n) = env_line name n ∷ []
  env_value name (string s) = env_line name s ∷ []
  env_value name (array vs) = []
  env_value name (object root) = render_as_env_file (name ++ (b'_' ∷ [])) root
  env_value name (string_map m) = env_strings (name ++ (b'_' ∷ [])) m

-- `(*Server).metadataHandler`; `none` is a panic.
unfoldable pub metadata_handler : Json → Context → Request → Option (List Call)
metadata_handler json ctx req = elim (group_from_context ctx) [
  | err e ↦ some not_found
  | ok group ↦ elim (collect_variables json req group) [
    | err e ↦ some not_found
    | ok variables ↦ elim variables [
      | none ↦ none
      | some data' ↦ some (
          set_header (text "Content-Type") (text "plain/text")
          ∷ map write (render_as_env_file [] data'))
    ]
  ]
]
