-- ===== src/Golang/FilePath/Resolve.antt =====
-- Resolving `.` and `..` in a rooted path, and the elements that are safe.
use mathlib.Core.List.{reverse_aux}
use coreos_baremetal.Prelude.{
  ◌≡◌, ◌≢◌, refl, Bool, true, List, [], ◌∷◌, ◌++◌, arith, All, All-reverse_aux,
}
use coreos_baremetal.Prelude.Text.{Text, ==_iff}
use coreos_baremetal.Golang.FilePath.{
  split_slash, is_rooted, dot, dot_dot, pop, push, resolve, elements,
}
use coreos_baremetal.Golang.FilePath.Split.{NoSlash, split_slash-NoSlash}

-- An element that names an entry of the directory it is looked up in.
abbrev pub IsSafe : Text → Type 0
IsSafe e = (e ≢ []) × (e ≢ dot) × (e ≢ dot_dot) × NoSlash e

pop-IsSafe : (stack : List Text) → All IsSafe stack → All IsSafe (pop true stack)
unfolding pop
pop-IsSafe [] h = tt
pop-IsSafe (top ∷ stack) (p, h) = ground (arith, ==_iff top dot_dot)

push-IsSafe :
    (stack : List Text) (e : Text) → All IsSafe stack → NoSlash e → All IsSafe (push true stack e)
unfolding push
push-IsSafe stack e h k =
    ground (arith, ==_iff e [], ==_iff e dot, ==_iff e dot_dot, pop-IsSafe stack h)

resolve-IsSafe :
    (stack es : List Text) → All IsSafe stack → All NoSlash es → All IsSafe (resolve true stack es)
unfolding resolve
resolve-IsSafe stack [] h k = h
resolve-IsSafe stack (e ∷ es) h (p, k) =
    resolve-IsSafe (push true stack e) es (push-IsSafe stack e h p) k

-- The elements of a rooted path are safe: no `..` is left, wherever it stood.
pub elements-IsSafe : (p : Text) → is_rooted p ≡ true → All IsSafe (elements p)
elements-IsSafe p h = rw h (
    All-reverse_aux IsSafe (resolve true [] (split_slash p)) []
      (resolve-IsSafe [] (split_slash p) tt (split_slash-NoSlash p)) tt)

push_of_IsSafe :
    (rooted : Bool) (stack : List Text) (e : Text) → IsSafe e → push rooted stack e ≡ e ∷ stack
unfolding push
push_of_IsSafe rooted stack e h = ground (arith, ==_iff e [], ==_iff e dot, ==_iff e dot_dot)

pub resolve_of_IsSafe :
    (rooted : Bool) (stack es : List Text)
    → All IsSafe es
    → resolve rooted stack es ≡ reverse_aux es stack
unfolding resolve
resolve_of_IsSafe rooted stack [] h = refl
resolve_of_IsSafe rooted stack (e ∷ es) (p, h) =
    rw (push_of_IsSafe rooted stack e p) (resolve_of_IsSafe rooted (e ∷ stack) es h)

pub resolve-append :
    (rooted : Bool) (stack xs ys : List Text)
    → resolve rooted stack (xs ++ ys) ≡ resolve rooted (resolve rooted stack xs) ys
unfolding resolve
resolve-append rooted stack [] ys = refl
resolve-append rooted stack (x ∷ xs) ys = resolve-append rooted (push rooted stack x) xs ys

pub push-nil : (rooted : Bool) (stack : List Text) → push rooted stack [] ≡ stack
unfolding push
push-nil rooted stack = ground (arith, ==_iff [] [])
