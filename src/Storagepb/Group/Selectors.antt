-- ===== src/Storagepb/Group/Selectors.antt =====
-- `selectorString` and `ByReqs` of bootcfg/storage/storagepb/group.go as an order of groups.
use mathlib.Core.List.Perm
use mathlib.Core.List.{Perm}
use coreos_baremetal.Prelude.{◌≡◌, ◌↔◌, false, List, arith, length, ap}
use coreos_baremetal.Prelude.Text.{Text, join}
use coreos_baremetal.Prelude.Text.Order.{
  text_lt, text_lt_irrefl, text_lt_asymm, text_lt_antisymm, text_le_trans,
}
use coreos_baremetal.Golang.Sort.{Sorter, IsLess, IsSorted-eq_of_perm}
use coreos_baremetal.Storagepb.Json.{Group}
use coreos_baremetal.Storagepb.Group.{requirement, selector_string, by_reqs_less, comma}

pub text_lt-IsLess : IsLess text_lt
text_lt-IsLess = record { irrefl = text_lt_irrefl; asymm = text_lt_asymm; trans = text_le_trans }

-- Any two sorts give the same list of texts.
pub sort-eq :
    (s t : Sorter Text) (xs ys : List Text) → Perm xs ys → s.sort text_lt xs ≡ t.sort text_lt ys
sort-eq s t xs ys p =
    IsSorted-eq_of_perm text_lt text_lt-IsLess text_lt_antisymm _ _
      (s.sort-IsSorted text_lt text_lt-IsLess xs) (t.sort-IsSorted text_lt text_lt-IsLess ys)
      (Perm.trans (s.sort-perm text_lt xs) (Perm.trans p (Perm.symm (t.sort-perm text_lt ys))))

-- Two groups whose selectors have the same entries, in any order, have the same selector text,
-- whatever the sorts.
pub selector_string-perm :
    (s t : Sorter Text) (g h : Group)
    → Perm g.selector h.selector
    → selector_string s g ≡ selector_string t h
unfolding selector_string
selector_string-perm s t g h p = ap (λ l. join l comma) (sort-eq s t _ _ (Perm.map requirement p))

module _ (s : Sorter Text) where
  -- `Less` is a strict weak order, as `sort.Sort` requires.
  pub by_reqs_less-IsLess : IsLess (by_reqs_less s)
  unfolding by_reqs_less
  by_reqs_less-IsLess = record {
    irrefl = λ g. ground (arith, text_lt_irrefl (selector_string s g));
    asymm = λ g h p. ground (arith, text_lt_asymm (selector_string s g) (selector_string s h));
    trans = λ g h k p q.
        ground
          (arith, text_le_trans (selector_string s g) (selector_string s h) (selector_string s k));
  }

  -- Groups tie exactly when they have as many requirements, and the same selector text.
  pub by_reqs_less_ties :
      (g h : Group)
      → ((by_reqs_less s g h ≡ false) × (by_reqs_less s h g ≡ false))
        ↔ ((length g.selector ≡ length h.selector) × (selector_string s g ≡ selector_string s h))
  unfolding by_reqs_less
  by_reqs_less_ties g h = ground (
    arith,
    text_lt_antisymm (selector_string s g) (selector_string s h),
    text_lt_irrefl (selector_string s g),
  )
