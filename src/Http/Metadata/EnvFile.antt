-- ===== src/Http/Metadata/EnvFile.antt =====
-- The env file of bootcfg/http/metadata.go next to the leaves of the nested maps.
use mathlib.Core.List.{append_assoc, map-append}
use coreos_baremetal.Prelude.{◌≡◌, refl, ◌∙◌, ap, sym, List, [], ◌∷◌, ◌++◌, map}
use coreos_baremetal.Prelude.Text.{Text, join}
use coreos_baremetal.Golang.Dict.{Dict}
use coreos_baremetal.Storagepb.Json.{
  Value, null, boolean, number, string, array, object, string_map, Fields, end, field,
}
use coreos_baremetal.Http.Metadata.{bool_text, env_line, env_strings, render_as_env_file, env_value}

-- A leaf: the key of the outermost map, the keys below it on the way to the leaf, and its text.
abbrev pub Leaf : Type 0
Leaf = Text × List Text × Text

abbrev pub Below : Type 0
Below = List Text × Text

abbrev at_key : Text → Below → Leaf
at_key key (path, value) = (key, path, value)

abbrev under : Leaf → Below
under (key, path, value) = (key ∷ path, value)

unfoldable pub leaves_of_strings : Dict Text → List Below
leaves_of_strings [] = []
leaves_of_strings ((key, value) ∷ m) = (key ∷ [], value) ∷ leaves_of_strings m

unfoldable mutual
  pub leaves : Fields → List Leaf
  leaves end = []
  leaves (field key value root) = map (at_key key) (leaves_of value) ++ leaves root

  pub leaves_of : Value → List Below
  leaves_of null = []
  leaves_of (boolean b) = ([], bool_text b) ∷ []
  leaves_of (number n) = ([], n) ∷ []
  leaves_of (string s) = ([], s) ∷ []
  leaves_of (array vs) = []
  leaves_of (object root) = map under (leaves root)
  leaves_of (string_map m) = leaves_of_strings m

abbrev pub underscore : Text
underscore = b'_' ∷ []

path_name : Text → List Text → Text
path_name name [] = name
path_name name (key ∷ path) = path_name (name ++ underscore ++ key) path

line_of : Text → Below → Text
line_of name (path, value) = env_line (path_name name path) value

root_line : Text → Leaf → Text
root_line prefix (key, path, value) = env_line (path_name (prefix ++ key) path) value

join-append :
    (s t : Text) (path : List Text)
    → join ((s ++ t) ∷ path) underscore ≡ s ++ join (t ∷ path) underscore
unfolding join
join-append s t [] = refl
join-append s t (key ∷ path) = append_assoc s t _

path_name_lem :
    (name : Text) (path : List Text) → path_name name path ≡ join (name ∷ path) underscore
unfolding path_name join
path_name_lem name [] = refl
path_name_lem name (key ∷ path) =
    path_name_lem _ path
    ∙ (join-append (name ++ underscore) key path ∙ append_assoc name underscore _)

map-root_line-at_key :
    (prefix key : Text) (below : List Below)
    → map (root_line prefix) (map (at_key key) below) ≡ map (line_of (prefix ++ key)) below
unfolding root_line line_of
map-root_line-at_key prefix key [] = refl
map-root_line-at_key prefix key ((path, value) ∷ below) =
    ap (λ l. env_line (path_name (prefix ++ key) path) value ∷ l)
      (map-root_line-at_key prefix key below)

map-line_of-under :
    (name : Text) (found : List Leaf)
    → map (line_of name) (map under found) ≡ map (root_line (name ++ underscore)) found
unfolding root_line line_of path_name
map-line_of-under name [] = refl
map-line_of-under name ((key, path, value) ∷ found) =
    ap (λ l. env_line (path_name (name ++ underscore ++ key) path) value ∷ l)
      (map-line_of-under name found)

env_strings_lem :
    (name : Text) (m : Dict Text)
    → env_strings (name ++ underscore) m ≡ map (line_of name) (leaves_of_strings m)
unfolding env_strings leaves_of_strings line_of path_name
env_strings_lem name [] = refl
env_strings_lem name ((key, value) ∷ m) =
    ap (λ l. env_line (name ++ underscore ++ key) value ∷ l) (env_strings_lem name m)

mutual
  unfolding render_as_env_file env_value leaves leaves_of line_of path_name

  lines_of_root :
      (prefix : Text) (root : Fields)
      → render_as_env_file prefix root ≡ map (root_line prefix) (leaves root)
  lines_of_root prefix end = refl
  lines_of_root prefix (field key value root) =
      rw
        (
          lines_of_value (prefix ++ key) value,
          lines_of_root prefix root,
          map-append (root_line prefix) (map (at_key key) (leaves_of value)) (leaves root),
          map-root_line-at_key prefix key (leaves_of value),
        )
        refl

  lines_of_value :
      (name : Text) (value : Value) → env_value name value ≡ map (line_of name) (leaves_of value)
  lines_of_value name null = refl
  lines_of_value name (boolean b) = refl
  lines_of_value name (number n) = refl
  lines_of_value name (string s) = refl
  lines_of_value name (array vs) = refl
  lines_of_value name (object root) =
      lines_of_root (name ++ underscore) root ∙ sym (map-line_of-under name (leaves root))
  lines_of_value name (string_map m) = env_strings_lem name m

abbrev pub leaf_line : Leaf → Text
leaf_line (key, path, value) = env_line (join (key ∷ path) underscore) value

map-leaf_line : (found : List Leaf) → map (root_line []) found ≡ map leaf_line found
unfolding root_line
map-leaf_line [] = refl
map-leaf_line ((key, path, value) ∷ found) = rw (path_name_lem key path, map-leaf_line found) refl

-- The env file has one line for each leaf of the nested maps, in their order: its keys, joined by
-- underscores and in upper case, and its text. Arrays and `null` have no line.
pub render_as_env_file_lem :
    (root : Fields) → render_as_env_file [] root ≡ map leaf_line (leaves root)
render_as_env_file_lem root = lines_of_root [] root ∙ map-leaf_line (leaves root)
