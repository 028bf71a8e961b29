-- ===== src/Golang/FilePath/Distinct.antt =====
-- The path of a file in a directory of the root, for distinct elements.
use coreos_baremetal.Prelude.{
  eqb, ℕ, ◌≡◌, refl, sym, ◌∙◌, ap, Bool, true, false, List, [], ◌∷◌, ◌++◌, arith, All, All-append,
  All-reverse_aux,
}
use coreos_baremetal.Prelude.Text.{Text, join}
use coreos_baremetal.Golang.FilePath.{
  split_slash, is_rooted, resolve, push, pop, render, elements, join_paths,
}
use coreos_baremetal.Golang.FilePath.Split.{
  NoSlash, slash, split_slash-append, split_slash-join, split_slash-slash, split_slash-NoSlash,
  split_slash_of_NoSlash,
}
use coreos_baremetal.Golang.FilePath.Resolve.{IsSafe, resolve_of_IsSafe}
use coreos_baremetal.Golang.FilePath.Below.{rooted_slash, clean_lem, join_paths_two, resolve_empty}

tail_eq : (s t : Text) (c : ℕ) → c ∷ s ≡ c ∷ t → s ≡ t
tail_eq s t c h = cc

join_injective :
    (e f : Text) (es fs : List Text)
    → All NoSlash (e ∷ es)
    → All NoSlash (f ∷ fs)
    → join (e ∷ es) slash ≡ join (f ∷ fs) slash
    → e ∷ es ≡ f ∷ fs
join_injective e f es fs h k p =
    sym (split_slash-join e es h) ∙ ap split_slash p ∙ split_slash-join f fs k

render_injective :
    (rooted : Bool) (e f : Text) (es fs : List Text)
    → All NoSlash (e ∷ es)
    → All NoSlash (f ∷ fs)
    → render rooted (e ∷ es) ≡ render rooted (f ∷ fs)
    → e ∷ es ≡ f ∷ fs
unfolding render
render_injective true e f es fs h k p = join_injective e f es fs h k (tail_eq _ _ _ p)
render_injective false e f es fs h k p = join_injective e f es fs h k p

append_cancel : (xs : List Text) {ys zs : List Text} → xs ++ ys ≡ xs ++ zs → ys ≡ zs
append_cancel [] p = p
append_cancel (x ∷ xs) {ys} {zs} p = append_cancel xs (tails (xs ++ ys) (xs ++ zs) p)
  where
    tails : (us vs : List Text) → x ∷ us ≡ x ∷ vs → us ≡ vs
    tails us vs q = cc

-- Below one directory, paths of distinct elements differ.
pub render-append_injective :
    (rooted : Bool) (top : List Text) (e f : Text) (es fs : List Text)
    → All NoSlash top
    → All NoSlash (e ∷ es)
    → All NoSlash (f ∷ fs)
    → render rooted (top ++ (e ∷ es)) ≡ render rooted (top ++ (f ∷ fs))
    → e ∷ es ≡ f ∷ fs
render-append_injective rooted [] e f es fs t h k p = render_injective rooted e f es fs h k p
render-append_injective rooted (x ∷ top) e f es fs (q, t) h k p = append_cancel (x ∷ top) (
    render_injective rooted x x _ _ (q, All-append NoSlash top (e ∷ es) t h)
      (q, All-append NoSlash top (f ∷ fs) t k) p)

push-NoSlash :
    (rooted : Bool) (stack : List Text) (e : Text)
    → All NoSlash stack
    → NoSlash e
    → All NoSlash (push rooted stack e)
unfolding push pop
push-NoSlash true [] e h k = ground arith
push-NoSlash false [] e h k = ground arith
push-NoSlash rooted (top ∷ stack) e h k = ground arith

resolve-NoSlash :
    (rooted : Bool) (stack es : List Text)
    → All NoSlash stack
    → All NoSlash es
    → All NoSlash (resolve rooted stack es)
unfolding resolve
resolve-NoSlash rooted stack [] h k = h
resolve-NoSlash rooted stack (e ∷ es) h (p, k) =
    resolve-NoSlash rooted (push rooted stack e) es (push-NoSlash rooted stack e h p) k

pub elements-NoSlash : (p : Text) → All NoSlash (elements p)
elements-NoSlash p =
    All-reverse_aux NoSlash (resolve (is_rooted p) [] (split_slash p)) []
      (resolve-NoSlash (is_rooted p) [] (split_slash p) tt (split_slash-NoSlash p)) tt

split_slash_two :
    (dir file : Text)
    → NoSlash dir
    → NoSlash file
    → split_slash (dir ++ (b'/' ∷ file)) ≡ dir ∷ file ∷ []
split_slash_two dir file h k =
    rw (split_slash-append dir file, split_slash_of_NoSlash dir h, split_slash_of_NoSlash file k)

-- A relative path of two elements is clean as it stands.
pub join_paths_file :
    (dir file : Text)
    → IsSafe dir
    → IsSafe file
    → join_paths (dir ∷ file ∷ []) ≡ dir ++ (b'/' ∷ file)
unfolding is_rooted render join
join_paths_file [] file h k = absurd (h.0 refl)
join_paths_file (c ∷ d) [] h k = absurd (k.0 refl)
join_paths_file (c ∷ d) (e ∷ t) h k =
    let relative : eqb c b'/' ≡ false = ground arith in
    rw (
      join_paths_two,
      clean_lem,
      relative,
      split_slash_two (c ∷ d) (e ∷ t) h.3 k.3,
      resolve_of_IsSafe false [] ((c ∷ d) ∷ (e ∷ t) ∷ []) (h, (k, tt)),
    )

-- The elements of a file in a directory of the root.
pub elements_two :
    (dir file : Text)
    → IsSafe dir
    → IsSafe file
    → elements (b'/' ∷ join_paths (dir ∷ file ∷ [])) ≡ dir ∷ file ∷ []
elements_two dir file h k = rw (
  join_paths_file dir file h k,
  rooted_slash,
  split_slash-slash,
  split_slash_two dir file h.3 k.3,
  resolve_empty,
  resolve_of_IsSafe true [] (dir ∷ file ∷ []) (h, (k, tt)),
)
