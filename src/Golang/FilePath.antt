-- ===== src/Golang/FilePath.antt =====
-- The packages `path` and `path/filepath` where the separator is `/`. `Clean` is written over the
-- path's elements, by the rules that its documentation states.
pub mod Split
pub mod Resolve
pub mod Below
pub mod Distinct
use mathlib.Core.List.{reverse}
use coreos_baremetal.Prelude.Text.{contains_byte, Text, text, join, ◌==◌}
use coreos_baremetal.Prelude.{
  not, ◌&&◌, ℕ, Bool, true, false, Option, none, some, List, [], ◌∷◌, ◌++◌, ◌||◌, eqb,
  if◌then◌else◌,
}

abbrev pub put_byte : ℕ → List Text → List Text
put_byte c [] = [] ∷ []
put_byte c (t ∷ rest) = if eqb c b'/' then [] ∷ (t ∷ rest) else (c ∷ t) ∷ rest

-- The elements between slashes: always at least one.
unfoldable pub split_slash : Text → List Text
split_slash [] = [] ∷ []
split_slash (c ∷ s) = put_byte c (split_slash s)

unfoldable pub is_rooted : Text → Bool
is_rooted [] = false
is_rooted (c ∷ s) = eqb c b'/'

abbrev pub dot : Text
dot = b'.' ∷ []

abbrev pub dot_dot : Text
dot_dot = b'.' ∷ b'.' ∷ []

-- A `..` element drops the element before it, is dropped at the root, and stays at the front
-- of a relative path. The stack has the last element at its head.
unfoldable pub pop : Bool → List Text → List Text
pop rooted [] = if rooted then [] else dot_dot ∷ []
pop rooted (top ∷ stack) = if top == dot_dot then dot_dot ∷ (top ∷ stack) else stack

unfoldable pub push : Bool → List Text → Text → List Text
push rooted stack e =
    if e == [] || e == dot then stack else if e == dot_dot then pop rooted stack else e ∷ stack

unfoldable pub resolve : Bool → List Text → List Text → List Text
resolve rooted stack [] = stack
resolve rooted stack (e ∷ es) = resolve rooted (push rooted stack e) es

-- The text of a path from its elements; the empty relative path is `.`.
unfoldable pub render : Bool → List Text → Text
render true es = b'/' ∷ join es (b'/' ∷ [])
render false [] = dot
render false (e ∷ es) = join (e ∷ es) (b'/' ∷ [])

abbrev pub elements : Text → List Text
elements p = reverse (resolve (is_rooted p) [] (split_slash p))

-- `path.Clean` and `filepath.Clean`
unfoldable pub clean : Text → Text
clean p = render (is_rooted p) (elements p)

-- `filepath.Join`: empty arguments are ignored.
abbrev pub drop_empty : List Text → List Text
drop_empty [] = []
drop_empty (e ∷ es) = if e == [] then drop_empty es else e ∷ es

unfoldable pub join_paths : List Text → Text
join_paths es = elim (drop_empty es) [ [] ↦ [] | f ∷ fs ↦ clean (join (f ∷ fs) (b'/' ∷ [])) ]

-- `filepath.Dir`: the text up to the last slash, cleaned.
abbrev pub up_to_slash : Text → Text
up_to_slash [] = []
up_to_slash (c ∷ s) =
    let rest = up_to_slash s in if rest == [] then (if eqb c b'/' then c ∷ [] else []) else c ∷ rest

unfoldable pub dir_of : Text → Text
dir_of p = clean (up_to_slash p)

-- `filepath.Ext`: from the last dot, if it stands in the last element.
unfoldable pub ext : Text → Text
ext [] = []
ext (c ∷ s) =
    let rest = ext s in
    if rest == [] then (if eqb c b'.' && not (contains_byte s b'/') then c ∷ s else []) else rest

-- `strings.TrimSuffix`
unfoldable pub trim_suffix : Text → Text → Text
trim_suffix [] t = []
trim_suffix (c ∷ s) t = let rest = trim_suffix s t in if (c ∷ s) == t then [] else c ∷ rest

-- `filepath.Base`: the last element, after the trailing slashes are dropped.
abbrev pub drop_slashes : Text → Text
drop_slashes [] = []
drop_slashes (c ∷ s) = if eqb c b'/' then drop_slashes s else c ∷ s

abbrev pub last_element : List Text → Text
last_element [] = []
last_element (e ∷ []) = e
last_element (e ∷ f ∷ es) = last_element (f ∷ es)

unfoldable pub base : Text → Text
base [] = dot
base (c ∷ s) = elim (drop_slashes (reverse (c ∷ s))) [
  | [] ↦ b'/' ∷ []
  | d ∷ t ↦ last_element (split_slash (reverse (d ∷ t)))
]
