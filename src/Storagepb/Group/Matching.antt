-- ===== src/Storagepb/Group/Matching.antt =====
-- `(*Group).Matches` of bootcfg/storage/storagepb/group.go.
use mathlib.Core.List.Perm
use mathlib.Core.List.{Perm}
use coreos_baremetal.Prelude.{
  ◌≡◌, ◌↔◌, refl, inl, inr, Bool, true, false, Option, none, some, [], ◌∷◌, All, All-mem,
  All-of_mem, arith, Bool-cases,
}
use coreos_baremetal.Prelude.Text.{Text, ==_iff}
use coreos_baremetal.Golang.Dict.{Dict, index}
use coreos_baremetal.Storagepb.Json.{Group}
use coreos_baremetal.Storagepb.Group.{is_unmet, matches_all, matches}

-- The labels give the required value; an absent label reads as the empty text.
abbrev pub IsMet : Option (Dict Text) → Text × Text → Type 0
IsMet none e = ⊥
IsMet (some labels) (key, val) = index labels key ≡ val

is_unmet_iff :
    (labels : Option (Dict Text)) (key val : Text)
    → (is_unmet labels key val ≡ false) ↔ IsMet labels (key, val)
is_unmet_iff none key val = ground arith
is_unmet_iff (some labels) key val = ground (arith, ==_iff (index labels key) val)

matches_all_iff :
    (labels : Option (Dict Text)) (sel : Dict Text)
    → (matches_all labels sel ≡ true) ↔ All (IsMet labels) sel
unfolding matches_all
matches_all_iff labels [] = ground arith
matches_all_iff labels ((key, val) ∷ sel) =
    let (to, from) = matches_all_iff labels sel in
    let (met, unmet) = is_unmet_iff labels key val in
    (
      λ h. elim (Bool-cases (is_unmet labels key val)) [
        | inl e ↦ cc (rw e at h)
        | inr e ↦ (met e, to (rw e at h))
      ],
      λ (p, q). rw (unmet p) (from q),
    )

-- A group matches exactly when the labels meet every requirement of its selector.
pub matches_iff :
    (g : Group) (labels : Option (Dict Text))
    → (matches g labels ≡ true) ↔ All (IsMet labels) g.selector
unfolding matches
matches_iff g labels = matches_all_iff labels g.selector

IsMet-prop : (labels : Option (Dict Text)) (e : Text × Text) → IsProp (IsMet labels e)
IsMet-prop none e = hlevel
IsMet-prop (some labels) (key, val) = hlevel

All-of_perm :
    (labels : Option (Dict Text)) (xs ys : Dict Text)
    → Perm xs ys
    → All (IsMet labels) xs
    → All (IsMet labels) ys
All-of_perm labels xs ys p h =
    All-of_mem (IsMet labels) ys
      (λ e m. All-mem (IsMet labels) (IsMet-prop labels) xs e h ((Perm.mem_iff p).1 m))

eq_of_iff : (a b : Bool) → (a ≡ true → b ≡ true) → (b ≡ true → a ≡ true) → a ≡ b
eq_of_iff true b to from = cc (to refl)
eq_of_iff false true to from = from refl
eq_of_iff false false to from = refl

-- The order in which Go ranges over the selector does not matter.
pub matches-perm :
    (g h : Group) (labels : Option (Dict Text))
    → Perm g.selector h.selector
    → matches g labels ≡ matches h labels
matches-perm g h labels p =
    let forth = All-of_perm labels g.selector h.selector p in
    let back = All-of_perm labels h.selector g.selector (Perm.symm p) in
    eq_of_iff (matches g labels) (matches h labels)
      (λ e. (matches_iff h labels).1 (forth ((matches_iff g labels).0 e)))
      (λ e. (matches_iff g labels).1 (back ((matches_iff h labels).0 e)))
