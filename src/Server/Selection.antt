-- ===== src/Server/Selection.antt =====
-- `SelectGroup` of bootcfg/server/server.go: the most specific matching group.
pub mod Winner
use mathlib.Core.List.{
  Mem, Perm, Pairwise, mem-cons_self, mem-cons_of_mem, not-mem-nil, mem-cons, Mem-prop,
}
use mathlib.Core.List.Perm
use mathlib.Core.Logic.Or
use coreos_baremetal.Prelude.{
  ◌≡◌, ◌↔◌, refl, sym, ap, ◌∙◌, true, false, List, [], ◌∷◌, inl, inr, Bool-cases,
}
use coreos_baremetal.Prelude.Text.{Text}
use coreos_baremetal.Golang.Errors.{no_matching_group, ok, err, Error}
use coreos_baremetal.Golang.Sort.{Sorter, IsSorted, reverse_less, reverse_less-IsLess, Bool-set}
use coreos_baremetal.Storagepb.Json.{Group}
use coreos_baremetal.Storagepb.Group.{matches, by_reqs_less}
use coreos_baremetal.Storagepb.Group.Selectors.{by_reqs_less-IsLess}
use coreos_baremetal.Storage.Store.{Store}
use coreos_baremetal.Server.{Labels, Sorts, first_match, select_group}

-- A group of the list that matches, and below no other group that does.
pub record IsBest (texts : Sorter Text) (groups : List Group) (labels : Labels) (g : Group)
    : Type 0 where
  pub listed : Mem g groups
  pub matched : matches g labels ≡ true
  pub highest :
      (h : Group) → Mem h groups → matches h labels ≡ true → by_reqs_less texts g h ≡ false

module _ (texts : Sorter Text) (labels : Labels) where
  first_match_hit :
      (g : Group) (groups : List Group)
      → matches g labels ≡ true
      → first_match labels (g ∷ groups) ≡ ok g
  unfolding first_match
  first_match_hit g groups e = rw e

  first_match_miss :
      (g : Group) (groups : List Group)
      → matches g labels ≡ false
      → first_match labels (g ∷ groups) ≡ first_match labels groups
  unfolding first_match
  first_match_miss g groups e = rw e

  first_match-nil : first_match labels [] ≡ err no_matching_group
  unfolding first_match
  first_match-nil = refl

  IsBest-head :
      (g : Group) (groups : List Group)
      → ((h : Group) → Mem h groups → by_reqs_less texts g h ≡ false)
      → matches g labels ≡ true
      → IsBest texts (g ∷ groups) labels g
  IsBest-head g groups below e = record {
    listed = mem-cons_self;
    matched = e;
    highest = λ h m _.
        Or.elim (Bool-set _ _) (mem-cons.0 m)
          (λ same. rw same ((by_reqs_less-IsLess texts).irrefl g)) (below h);
  }

  IsBest-cons :
      (x g : Group) (groups : List Group)
      → matches x labels ≡ false
      → IsBest texts groups labels g
      → IsBest texts (x ∷ groups) labels g
  IsBest-cons x g groups e b = record {
    listed = mem-cons_of_mem x b.listed;
    matched = b.matched;
    highest = λ h m hit.
        Or.elim (Bool-set _ _) (mem-cons.0 m) (λ same. cc (ap (λ k. matches k labels) same))
          (λ later. b.highest h later hit);
  }

  first_match-IsBest :
      (groups : List Group) (g : Group)
      → IsSorted (reverse_less (by_reqs_less texts)) groups
      → first_match labels groups ≡ ok g
      → IsBest texts groups labels g
  first_match-IsBest [] g sorted h = cc first_match-nil
  first_match-IsBest (x ∷ groups) g (Pairwise.cons below sorted) h =
      elim (Bool-cases (matches x labels)) [
        | inl e ↦
            let same : x ≡ g = cc (first_match_hit x groups e) in
            rw (← same) (IsBest-head x groups below e)
        | inr e ↦
            IsBest-cons x g groups e
              (first_match-IsBest groups g sorted (rw (first_match_miss x groups e) at h))
      ]

  first_match_found :
      (groups : List Group) (h : Group)
      → Mem h groups
      → matches h labels ≡ true
      → (g : Group) × (first_match labels groups ≡ ok g)
  first_match_found [] h m e = absurd (not-mem-nil m)
  first_match_found (x ∷ groups) h m e = elim (Bool-cases (matches x labels)) [
    | inl f ↦ (x, first_match_hit x groups f)
    | inr f ↦
        let later : Mem h groups =
          Or.elim Mem-prop (mem-cons.0 m) (λ same. cc (ap (λ k. matches k labels) same)) (λ l. l) in
        let (g, q) = first_match_found groups h later e in (g, first_match_miss x groups f ∙ q)
  ]

  first_match_none :
      (groups : List Group)
      → ((h : Group) → Mem h groups → matches h labels ≡ false)
      → first_match labels groups ≡ err no_matching_group
  first_match_none [] none' = first_match-nil
  first_match_none (x ∷ groups) none' =
      first_match_miss x groups (none' x mem-cons_self)
      ∙ first_match_none groups (λ h m. none' h (mem-cons_of_mem x m))

IsBest-perm :
    (texts : Sorter Text) (xs ys : List Group) (labels : Labels) (g : Group)
    → Perm xs ys
    → IsBest texts xs labels g
    → IsBest texts ys labels g
IsBest-perm texts xs ys labels g p b = record {
  listed = (Perm.mem_iff p).0 b.listed;
  matched = b.matched;
  highest = λ h m. b.highest h ((Perm.mem_iff p).1 m);
}

module _ (store : Store) (sorts : Sorts) (s : store.State) (labels : Labels) where
  sorted_groups : List Group → List Group
  sorted_groups groups = sorts.groups.sort (reverse_less (by_reqs_less sorts.texts)) groups

  select_group_of_list :
      (groups : List Group)
      → store.group_list s ≡ ok groups
      → select_group store sorts s labels ≡ first_match labels (sorted_groups groups)
  unfolding select_group sorted_groups
  select_group_of_list groups h = rw h

  -- The group that is selected is a listed one that matches, and no listed one that matches has
  -- more requirements, or as many and a later selector text.
  pub select_group-IsBest :
      (groups : List Group) (g : Group)
      → store.group_list s ≡ ok groups
      → select_group store sorts s labels ≡ ok g
      → IsBest sorts.texts groups labels g
  unfolding sorted_groups
  select_group-IsBest groups g h e =
      let less = reverse_less (by_reqs_less sorts.texts) in
      IsBest-perm sorts.texts (sorted_groups groups) groups labels g
        (sorts.groups.sort-perm less groups)
        (first_match-IsBest sorts.texts labels (sorted_groups groups) g
          (sorts.groups.sort-IsSorted less
            (reverse_less-IsLess (by_reqs_less sorts.texts) (by_reqs_less-IsLess sorts.texts))
            groups)
          (sym (select_group_of_list groups h) ∙ e))

  -- Where a listed group matches, some group is selected.
  pub select_group_found :
      (groups : List Group) (x : Group)
      → store.group_list s ≡ ok groups
      → Mem x groups
      → matches x labels ≡ true
      → (g : Group) × (select_group store sorts s labels ≡ ok g)
  unfolding sorted_groups
  select_group_found groups x h m f =
      let less = reverse_less (by_reqs_less sorts.texts) in
      let (g, q) =
        first_match_found sorts.texts labels (sorted_groups groups) x
          ((Perm.mem_iff (sorts.groups.sort-perm less groups)).1 m) f in
      (g, select_group_of_list groups h ∙ q)

  -- Where the store lists its groups, `SelectGroup` fails exactly when none matches, and its error
  -- is then `ErrNoMatchingGroup`.
  pub select_group_none :
      (groups : List Group)
      → store.group_list s ≡ ok groups
      → (((e : Error) × (select_group store sorts s labels ≡ err e))
          ↔ ((h : Group) → Mem h groups → matches h labels ≡ false))
        × ((e : Error) → select_group store sorts s labels ≡ err e → e ≡ no_matching_group)
  unfolding sorted_groups
  select_group_none groups h = ((to, λ none'. (no_matching_group, from none')), only)
    where
      perm : Perm (sorted_groups groups) groups
      perm = sorts.groups.sort-perm (reverse_less (by_reqs_less sorts.texts)) groups

      to :
          (e : Error) × (select_group store sorts s labels ≡ err e)
          → (x : Group) → Mem x groups
          → matches x labels ≡ false
      to (e, p) x m = elim (Bool-cases (matches x labels)) [
        | inr f ↦ f
        | inl f ↦ let (g, q) = select_group_found groups x h m f in cc
      ]

      from :
          ((x : Group) → Mem x groups → matches x labels ≡ false)
          → select_group store sorts s labels ≡ err no_matching_group
      from none' =
          select_group_of_list groups h
          ∙ first_match_none sorts.texts labels (sorted_groups groups)
              (λ x m. none' x ((Perm.mem_iff perm).0 m))

      only : (e : Error) → select_group store sorts s labels ≡ err e → e ≡ no_matching_group
      only e p = let both = sym p ∙ from (to (e, p)) in cc
