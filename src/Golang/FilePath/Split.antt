-- ===== src/Golang/FilePath/Split.antt =====
-- Splitting a path at its slashes, and joining elements back.
use coreos_baremetal.Prelude.{
  ℕ, ◌≡◌, ◌≢◌, refl, ◌∙◌, List, [], ◌∷◌, ◌++◌, eqb, arith, All, inl, inr, Bool-cases,
}
use coreos_baremetal.Prelude.Text.{Text, join}
use coreos_baremetal.Golang.FilePath.{split_slash, put_byte}

abbrev pub NoSlash : Text → Type 0
NoSlash [] = Unit
NoSlash (c ∷ s) = (c ≢ b'/') × NoSlash s

abbrev pub slash : Text
slash = b'/' ∷ []

put_byte_cons :
    (c : ℕ) (parts : List Text) → (t : Text) × (rest : List Text) × (put_byte c parts ≡ t ∷ rest)
put_byte_cons c [] = ([], [], refl)
put_byte_cons c (t ∷ rest) = elim (Bool-cases (eqb c b'/')) [
  | inl e ↦ ([], t ∷ rest, rw e)
  | inr e ↦ (c ∷ t, rest, rw e)
]

pub split_slash_cons : (s : Text) → (t : Text) × (rest : List Text) × (split_slash s ≡ t ∷ rest)
unfolding split_slash
split_slash_cons [] = ([], [], refl)
split_slash_cons (c ∷ s) = put_byte_cons c (split_slash s)

pub split_slash-slash : (s : Text) → split_slash (b'/' ∷ s) ≡ [] ∷ split_slash s
unfolding split_slash
split_slash-slash s = let (t, rest, e) = split_slash_cons s in ground arith

-- A slash between two texts separates their elements.
pub split_slash-append :
    (s t : Text) → split_slash (s ++ (b'/' ∷ t)) ≡ split_slash s ++ split_slash t
unfolding split_slash
split_slash-append [] t = split_slash-slash t
split_slash-append (c ∷ s) t =
    let (u, rest, e) = split_slash_cons s in ground (arith, split_slash-append s t)

pub split_slash_of_NoSlash : (s : Text) → NoSlash s → split_slash s ≡ s ∷ []
unfolding split_slash
split_slash_of_NoSlash [] h = refl
split_slash_of_NoSlash (c ∷ s) (p, h) = ground (arith, split_slash_of_NoSlash s h)

pub split_slash-join :
    (e : Text) (es : List Text) → All NoSlash (e ∷ es) → split_slash (join (e ∷ es) slash) ≡ e ∷ es
unfolding join
split_slash-join e [] (p, _) = split_slash_of_NoSlash e p
split_slash-join e (f ∷ es) (p, h) =
    split_slash-append e (join (f ∷ es) slash)
    ∙ rw (split_slash_of_NoSlash e p, split_slash-join f es h)

pub split_slash-NoSlash : (s : Text) → All NoSlash (split_slash s)
unfolding split_slash
split_slash-NoSlash [] = (tt, tt)
split_slash-NoSlash (c ∷ s) =
    let (u, rest, e) = split_slash_cons s in ground (arith, split_slash-NoSlash s)
