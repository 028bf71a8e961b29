-- ===== src/Golang/Sort.antt =====
-- `sort.Sort`. The package promises a sorted permutation and no order among ties, so the sort is a
-- parameter with these two laws.
pub mod Insertion
use mathlib.Core.List.Perm
use mathlib.Core.List.Pairwise
use mathlib.Core.List.{Perm, Pairwise, Mem, mem-cons, mem-cons_self, mem-cons_of_mem}
use mathlib.Core.Logic.Or
use mathlib.Core.Path.{ap₂}
use coreos_baremetal.Prelude.{◌≡◌, refl, Bool, true, false, List, [], ◌∷◌}

-- A strict weak order, which `sort.Interface` asks of `Less`.
pub record IsLess {A : Type 0} (less : A → A → Bool) : Type 0 where
  pub irrefl : (a : A) → less a a ≡ false
  pub asymm : (a b : A) → less a b ≡ true → less b a ≡ false
  pub trans : (a b c : A) → less b a ≡ false → less c b ≡ false → less c a ≡ false

abbrev pub IsSorted : {A : Type 0} (less : A → A → Bool) → List A → Type 0
IsSorted less = Pairwise (λ a b. less b a ≡ false)

pub record Sorter (A : Type 0) : Type 0 where
  pub sort : (A → A → Bool) → List A → List A
  pub sort-perm : (less : A → A → Bool) (xs : List A) → Perm (sort less xs) xs
  pub sort-IsSorted :
      (less : A → A → Bool) → IsLess less → (xs : List A) → IsSorted less (sort less xs)

-- `sort.Reverse`
abbrev pub reverse_less : {A : Type 0} → (A → A → Bool) → A → A → Bool
reverse_less less a b = less b a

pub reverse_less-IsLess :
    {A : Type 0} (less : A → A → Bool) → IsLess less → IsLess (reverse_less less)
reverse_less-IsLess less l = record {
  irrefl = l.irrefl;
  asymm = λ a b. l.asymm b a;
  trans = λ a b c p q. l.trans c b a q p;
}

pub Bool-set : IsSet Bool
Bool-set = hlevel

module _ {A : Type 0} (less : A → A → Bool) (l : IsLess less) where
  head-le :
      (a b : A) (xs ys : List A)
      → IsSorted less (a ∷ xs)
      → Perm (b ∷ ys) (a ∷ xs)
      → less b a ≡ false
  head-le a b xs ys (Pairwise.cons h _) p =
      Or.elim (Bool-set _ _) (mem-cons.0 ((Perm.mem_iff p).0 mem-cons_self))
        (λ e. rw e (l.irrefl a)) (h b)

  -- Where no two distinct values tie, a list has one sorted permutation.
  pub IsSorted-eq_of_perm :
      ((a b : A) → less a b ≡ false → less b a ≡ false → a ≡ b)
      → (xs ys : List A) → IsSorted less xs
      → IsSorted less ys
      → Perm xs ys
      → xs ≡ ys
  IsSorted-eq_of_perm anti [] ys s t p = Perm.nil-eq p
  IsSorted-eq_of_perm anti (a ∷ xs) [] s t p = Perm.eq-nil p
  IsSorted-eq_of_perm anti (a ∷ xs) (b ∷ ys) s t p =
      let heads : a ≡ b = anti a b (head-le b a ys xs t p) (head-le a b xs ys s (Perm.symm p)) in
      let tails = Perm.cons_inv (Perm.trans p (Perm.symm (Perm.cons' heads Perm.rfl))) in
      ap₂ ◌∷◌ heads (IsSorted-eq_of_perm anti xs ys (Pairwise.of_cons s) (Pairwise.of_cons t) tails)
