-- ===== src/Golang/FilePath/Below.antt =====
-- A rooted path joined to a directory.
use mathlib.Core.List.{reverse, reverse_aux, reverse_aux-eq}
use coreos_baremetal.Prelude.{ℕ, ◌≡◌, ◌≢◌, refl, ◌∙◌, Bool, true, List, [], ◌∷◌, ◌++◌, All}
use coreos_baremetal.Prelude.Text.{Text, join, ◌==◌}
use coreos_baremetal.Golang.FilePath.{
  split_slash, is_rooted, resolve, render, elements, clean, join_paths,
}
use coreos_baremetal.Golang.FilePath.Split.{
  NoSlash, slash, split_slash-append, split_slash-join, split_slash-slash,
}
use coreos_baremetal.Golang.FilePath.Resolve.{
  IsSafe, elements-IsSafe, resolve_of_IsSafe, resolve-append, push-nil,
}
use mathlib.Core.List.{reverse_aux-reverse_aux-nil}

NoSlash-of_IsSafe : (es : List Text) → All IsSafe es → All NoSlash es
NoSlash-of_IsSafe [] h = tt
NoSlash-of_IsSafe (e ∷ es) (p, h) = (p.3, NoSlash-of_IsSafe es h)

-- The text of safe elements, resolved on top of a stack.
resolve-join :
    (rooted : Bool) (stack es : List Text)
    → All IsSafe es
    → resolve rooted stack (split_slash (join es slash)) ≡ reverse_aux es stack
resolve-join rooted stack [] h = unfold resolve split_slash join in push-nil rooted stack
resolve-join rooted stack (e ∷ es) h =
    rw (split_slash-join e es (NoSlash-of_IsSafe (e ∷ es) h))
      (resolve_of_IsSafe rooted stack (e ∷ es) h)

reverse-reverse_aux : (es stack : List Text) → reverse (reverse_aux es stack) ≡ reverse stack ++ es
reverse-reverse_aux es stack = reverse_aux-reverse_aux-nil es stack ∙ reverse_aux-eq stack es

pub resolve_empty :
    (rooted : Bool) (stack es : List Text)
    → resolve rooted stack ([] ∷ es) ≡ resolve rooted stack es
unfolding resolve
resolve_empty rooted stack es = rw (push-nil rooted stack)

is_rooted-append : (c : ℕ) (d t : Text) → is_rooted ((c ∷ d) ++ t) ≡ is_rooted (c ∷ d)
unfolding is_rooted
is_rooted-append c d t = refl

elements-append :
    (c : ℕ) (d : Text) (es : List Text)
    → All IsSafe es
    → elements ((c ∷ d) ++ (b'/' ∷ (b'/' ∷ join es slash))) ≡ elements (c ∷ d) ++ es
elements-append c d es h =
    rw
      (
        is_rooted-append c d _,
        split_slash-append (c ∷ d) (b'/' ∷ join es slash),
        split_slash-slash,
        resolve-append,
        resolve_empty,
        resolve-join _ _ es h,
      )
      (reverse-reverse_aux es _)

pub clean_lem : (p : Text) → clean p ≡ render (is_rooted p) (elements p)
unfolding clean
clean_lem p = refl

pub rooted_slash : (s : Text) → is_rooted (b'/' ∷ s) ≡ true
unfolding is_rooted
rooted_slash s = refl

clean_rooted : (s : Text) → clean (b'/' ∷ s) ≡ b'/' ∷ join (elements (b'/' ∷ s)) slash
unfolding clean render is_rooted
clean_rooted s = refl

pub join_paths_two :
    (c e : ℕ) (d t : Text)
    → join_paths ((c ∷ d) ∷ (e ∷ t) ∷ []) ≡ clean ((c ∷ d) ++ (b'/' ∷ (e ∷ t)))
unfolding join_paths join ◌==◌
join_paths_two c e d t = refl

-- `filepath.Join(dir, path.Clean("/" + name))`
pub join_paths-clean :
    (dir name : Text)
    → dir ≢ []
    → join_paths (dir ∷ clean (b'/' ∷ name) ∷ [])
      ≡ render (is_rooted dir) (elements dir ++ elements (b'/' ∷ name))
unfolding render is_rooted
join_paths-clean [] name h = absurd (h refl)
join_paths-clean (c ∷ d) name h =
    rw (clean_rooted name, join_paths_two, clean_lem)
      (rw (
        is_rooted-append c d _,
        elements-append c d _ (elements-IsSafe (b'/' ∷ name) (rooted_slash name)),
      ))
