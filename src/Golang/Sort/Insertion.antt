-- ===== src/Golang/Sort/Insertion.antt =====
-- Insertion sort, as an instance of `sort.Sort`.
use mathlib.Core.List.Perm
use mathlib.Core.List.{Perm, Pairwise, mem-cons, not-mem-nil}
use mathlib.Core.Logic.Or
use coreos_baremetal.Golang.Sort.{IsLess, IsSorted, Sorter, Bool-set}
use mathlib.Core.List.{Pairwise, mem-cons, not-mem-nil}
use mathlib.Core.Logic.Or
use coreos_baremetal.Prelude.{inl, inr, Bool, List, [], ◌∷◌, if◌then◌else◌, Bool-cases}

module _ {A : Type 0} (less : A → A → Bool) where
  unfoldable pub place : A → List A → List A
  place a [] = a ∷ []
  place a (b ∷ xs) = if less b a then b ∷ place a xs else a ∷ b ∷ xs

  unfoldable pub insertion_sort : List A → List A
  unfolding place
  insertion_sort [] = []
  insertion_sort (a ∷ xs) = place a (insertion_sort xs)

  place-perm : (a : A) (xs : List A) → Perm (place a xs) (a ∷ xs)
  unfolding place
  place-perm a [] = Perm.refl _
  place-perm a (b ∷ xs) = elim (Bool-cases (less b a)) [
    | inl e ↦ rw e (Perm.trans (Perm.cons b (place-perm a xs)) (Perm.swap a b xs))
    | inr e ↦ rw e (Perm.refl _)
  ]

  pub insertion_sort-perm : (xs : List A) → Perm (insertion_sort xs) xs
  unfolding insertion_sort
  insertion_sort-perm [] = Perm.refl []
  insertion_sort-perm (a ∷ xs) =
      Perm.trans (place-perm a (insertion_sort xs)) (Perm.cons a (insertion_sort-perm xs))

module _ {A : Type 0} (less : A → A → Bool) (l : IsLess less) where
  place-IsSorted : (a : A) (xs : List A) → IsSorted less xs → IsSorted less (place less a xs)
  unfolding place
  place-IsSorted a [] s = Pairwise.cons (λ b m. absurd (not-mem-nil m)) Pairwise.nil
  place-IsSorted a (b ∷ xs) (Pairwise.cons below s) = elim (Bool-cases (less b a)) [
    | inl e ↦ rw e (
        Pairwise.cons
          (λ c m.
            Or.elim (Bool-set _ _) (mem-cons.0 ((Perm.mem_iff (place-perm less a xs)).0 m))
              (λ same. rw same (l.asymm b a e)) (below c))
          (place-IsSorted a xs s))
    | inr e ↦ rw e (
        Pairwise.cons
          (λ c m.
            Or.elim (Bool-set _ _) (mem-cons.0 m) (λ same. rw same e)
              (λ later. l.trans a b c e (below c later)))
          (Pairwise.cons below s))
  ]

  pub insertion_sort-IsSorted : (xs : List A) → IsSorted less (insertion_sort less xs)
  unfolding insertion_sort
  insertion_sort-IsSorted [] = Pairwise.nil
  insertion_sort-IsSorted (a ∷ xs) =
      place-IsSorted a (insertion_sort less xs) (insertion_sort-IsSorted xs)

abbrev pub insertion_sorter : {A : Type 0} → Sorter A
insertion_sorter = record {
  sort = insertion_sort;
  sort-perm = insertion_sort-perm;
  sort-IsSorted = insertion_sort-IsSorted;
}
