-- ===== src/Golang/Dict/Unordered.antt =====
-- Lookups in two lists of the same entries.
use mathlib.Core.List.Perm
use mathlib.Core.List.{Perm, Mem, mem-cons_self, mem-cons_of_mem}
use coreos_baremetal.Prelude.{
  ◌≡◌, inl, inr, Bool-cases, Option-cases, arith, some, none, [], ◌∷◌, All, All-mem,
}
use coreos_baremetal.Prelude.Text.{Text, ◌==◌, ==_iff}
use coreos_baremetal.Golang.Dict.{Dict, lookup, NodupKeys}

mem-lookup : (key value : Text) (m : Dict Text) → lookup key m ≡ some value → Mem (key, value) m
unfolding lookup
mem-lookup key value [] h = cc
mem-lookup key value ((k, v) ∷ m) h = elim (Bool-cases (k == key)) [
  | inl e ↦
      let same : ◌≡◌ {A = Text × Text} (k, v) (key, value) = ground (arith, ==_iff k key) in
      rw same mem-cons_self
  | inr e ↦ mem-cons_of_mem (k, v) (mem-lookup key value m (ground arith))
]

-- A list of entries that are found in `m` is found in `m` with a new key before it.
All-lookup_cons :
    (k v : Text) (m es : Dict Text)
    → lookup k m ≡ none
    → All (λ e. lookup e.0 m ≡ some e.1) es
    → All (λ e. lookup e.0 ((k, v) ∷ m) ≡ some e.1) es
unfolding lookup
All-lookup_cons k v m [] new all = tt
All-lookup_cons k v m ((j, w) ∷ es) new (h, all) =
    (ground (arith, ==_iff k j), All-lookup_cons k v m es new all)

All-lookup : (m : Dict Text) → NodupKeys m → All (λ e. lookup e.0 m ≡ some e.1) m
unfolding lookup
All-lookup [] _ = tt
All-lookup ((k, v) ∷ m) (new, h) =
    (ground (arith, ==_iff k k), All-lookup_cons k v m m new (All-lookup m h))

lookup-mem :
    (key value : Text) (m : Dict Text)
    → NodupKeys m
    → Mem (key, value) m
    → lookup key m ≡ some value
lookup-mem key value m h k =
    All-mem (λ e. lookup e.0 m ≡ some e.1) (λ e. hlevel) m (key, value) (All-lookup m h) k

pub lookup-perm :
    (key : Text) (m n : Dict Text)
    → NodupKeys m
    → NodupKeys n
    → Perm m n
    → lookup key m ≡ lookup key n
lookup-perm key m n h k p = elim (Option-cases (lookup key m)) [
  | inl e ↦ elim (Option-cases (lookup key n)) [
    | inl f ↦ cc
    | inr (v, f) ↦ let back = lookup-mem key v m h ((Perm.mem_iff p).1 (mem-lookup key v n f)) in cc
  ]
  | inr (v, e) ↦ let there = lookup-mem key v n k ((Perm.mem_iff p).0 (mem-lookup key v m e)) in cc
]
