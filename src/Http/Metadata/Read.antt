-- ===== src/Http/Metadata/Read.antt =====
-- The env file of bootcfg/http/metadata.go, as a client reads it: the response of the metadata
-- handler is read back line by line.
use mathlib.Core.List.{append_assoc, append-nil}
use coreos_baremetal.Prelude.{
  false, ℕ, ◌≡◌, ◌≢◌, refl, sym, ◌∙◌, ap, Option, none, some, List, [], ◌∷◌, ◌++◌, map, All,
  All-append, eqb, eqb_iff, if◌then◌else◌, arith, false,
}
use coreos_baremetal.Prelude.Text.{Text, text, join, contains_byte}
use coreos_baremetal.Golang.Errors.{ok}
use coreos_baremetal.Golang.Http.{run_call, Call, write, set_header, Request, run}
use coreos_baremetal.Golang.Http.Recorder.{Response, respond, recorder}
use coreos_baremetal.Storagepb.Json.{Json, Group, Fields}
use coreos_baremetal.Http.Context.{Context, group_from_context}
use coreos_baremetal.Http.Parse.{collect_variables}
use coreos_baremetal.Http.Metadata.{
  upper_byte, to_upper, env_line, render_as_env_file, metadata_handler,
}
use coreos_baremetal.Http.Metadata.EnvFile.{
  Leaf, leaves, leaf_line, underscore, render_as_env_file_lem,
}

-- A reader of env files: the name of the line at hand, once its `=` is read, and the bytes since.
abbrev pub Reading : Type 0
Reading = Option Text × Text

-- Each byte ends a variable, or is kept for the next; a line without `=` is dropped.
pub read_byte : ℕ → Reading → List (Text × Text) × Reading
read_byte c (none, s) =
    if eqb c b'='
    then ([], (some s, []))
    else if eqb c 10
    then ([], (none, []))
    else ([], (none, s ++ (c ∷ [])))
read_byte c (some name, s) =
    if eqb c 10 then ((name, s) ∷ [], (none, [])) else ([], (some name, s ++ (c ∷ [])))

unfoldable pub read_from : Reading → Text → List (Text × Text)
unfolding read_byte
read_from r [] = []
read_from r (c ∷ s) = let (found, next) = read_byte c r in found ++ read_from next s

-- The variables of an env file, in order.
unfoldable pub read_env_file : Text → List (Text × Text)
read_env_file = read_from (none, [])

-- A key without `=` and without a newline.
abbrev pub IsName : Text → Type 0
IsName s = (contains_byte s b'=' ≡ false) × (contains_byte s 10 ≡ false)

-- The keys of a leaf are names, and its text has no newline.
abbrev pub IsPlain : Leaf → Type 0
IsPlain (key, path, value) = IsName key × All IsName path × (contains_byte value 10 ≡ false)

abbrev IsNameByte : ℕ → Type 0
IsNameByte c = (c ≢ b'=') × (c ≢ 10)

abbrev IsValueByte : ℕ → Type 0
IsValueByte c = c ≢ 10

-- The variable of a leaf.
abbrev pub variable : Leaf → Text × Text
variable (key, path, value) = (to_upper (join (key ∷ path) underscore), value)

false_of : (c d : ℕ) → c ≢ d → eqb c d ≡ false
false_of c d h = ground (arith, eqb_iff c d)

all_of_false :
    (c d : ℕ) (s : Text) → contains_byte (c ∷ s) d ≡ false → (c ≢ d) × (contains_byte s d ≡ false)
unfolding contains_byte
all_of_false c d s h = ground (arith, eqb_iff c d)

value_bytes : (s : Text) → contains_byte s 10 ≡ false → All IsValueByte s
value_bytes [] h = tt
value_bytes (c ∷ s) h = let (p, rest) = all_of_false c 10 s h in (p, value_bytes s rest)

name_bytes : (s : Text) → IsName s → All IsNameByte s
name_bytes [] h = tt
name_bytes (c ∷ s) (h, k) =
    let (p, rest) = all_of_false c b'=' s h in
    let (q, rest') = all_of_false c 10 s k in ((p, q), name_bytes s (rest, rest'))

read_value :
    (name v s rest : Text)
    → All IsValueByte v
    → read_from (some name, s) (v ++ (10 ∷ rest)) ≡ (name, s ++ v) ∷ read_from (none, []) rest
unfolding read_from read_byte
read_value name [] s rest h = rw (append-nil s) refl
read_value name (c ∷ v) s rest (p, h) =
    rw
      (
        false_of c 10 p,
        read_from,
        read_byte,
        read_value name v (s ++ (c ∷ [])) rest h,
        append_assoc s (c ∷ []) v,
      )
      refl

read_name :
    (n s rest : Text)
    → All IsNameByte n
    → read_from (none, s) (n ++ (b'=' ∷ rest)) ≡ read_from (some (s ++ n), []) rest
unfolding read_from read_byte
read_name [] s rest h = rw (append-nil s) refl
read_name (c ∷ n) s rest ((p, q), h) =
    rw
      (
        false_of c b'=' p,
        false_of c 10 q,
        read_from,
        read_byte,
        read_name n (s ++ (c ∷ [])) rest h,
        append_assoc s (c ∷ []) n,
      )
      refl

upper_byte-IsNameByte : (c : ℕ) → IsNameByte c → IsNameByte (upper_byte c)
upper_byte-IsNameByte c (p, q) = ground arith

to_upper-IsNameByte : (n : Text) → All IsNameByte n → All IsNameByte (to_upper n)
unfolding to_upper
to_upper-IsNameByte [] h = tt
to_upper-IsNameByte (c ∷ n) (p, h) = (upper_byte-IsNameByte c p, to_upper-IsNameByte n h)

join-IsNameByte :
    (key : Text) (path : List Text)
    → IsName key
    → All IsName path
    → All IsNameByte (join (key ∷ path) underscore)
unfolding join
join-IsNameByte key [] h k = name_bytes key h
join-IsNameByte key (next ∷ path) h (p, k) =
    All-append IsNameByte key (underscore ++ join (next ∷ path) underscore) (name_bytes key h) (
      (λ e. absurd (omega (arith, e)), λ e. absurd (omega (arith, e))),
      join-IsNameByte next path p k,
    )

text_of : List Text → Text
text_of [] = []
text_of (s ∷ lines) = s ++ text_of lines

-- The lines of plain leaves are read back.
read_lines :
    (found : List Leaf)
    → All IsPlain found
    → read_env_file (text_of (map leaf_line found)) ≡ map variable found
unfolding text_of env_line read_env_file read_from
read_lines [] h = refl
read_lines ((key, path, value) ∷ found) ((p, q, r), h) =
    let name = to_upper (join (key ∷ path) underscore) in
    let rest = text_of (map leaf_line found) in
    let plain = to_upper-IsNameByte (join (key ∷ path) underscore) (join-IsNameByte key path p q) in
    ap (read_from (none, [])) (
      append_assoc name (b'=' ∷ (value ++ (10 ∷ []))) rest
      ∙ ap (λ t. name ++ (b'=' ∷ t)) (append_assoc value (10 ∷ []) rest))
    ∙ (read_name name [] (value ++ (10 ∷ rest)) plain
        ∙ (read_value name value [] rest (value_bytes value r)
            ∙ ap (λ vs. (name, value) ∷ vs) (read_lines found h)))

body_written :
    (lines : List Text) (r : Response)
    → (run recorder (map write lines) r).body ≡ r.body ++ text_of lines
unfolding run run_call text_of
body_written [] r = sym (append-nil r.body)
body_written (s ∷ lines) r = body_written lines _ ∙ append_assoc r.body s (text_of lines)

-- Where the metadata handler answers with variables whose leaves are plain, a client reads from the
-- body exactly those variables, in their order, each under the keys of its leaf joined by
-- underscores and in upper case.
pub metadata_read :
    (json : Json) (ctx : Context) (req : Request) (group : Group) (variables : Fields)
    → group_from_context ctx ≡ ok group
    → collect_variables json req group ≡ ok (some variables)
    → All IsPlain (leaves variables)
    → (calls : List Call) × (metadata_handler json ctx req ≡ some calls)
      × (read_env_file (respond calls).body ≡ map variable (leaves variables))
unfolding metadata_handler respond run run_call
metadata_read json ctx req group variables g v plain =
    let lines = render_as_env_file [] variables in
    (
      set_header (text "Content-Type") (text "plain/text") ∷ map write lines,
      rw (metadata_handler, g, v) refl,
      ap read_env_file (body_written lines _ ∙ ap text_of (render_as_env_file_lem variables))
          ∙ read_lines (leaves variables) plain,
    )
