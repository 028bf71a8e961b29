-- ===== src/Golang/Dict.antt =====
-- Go maps with string keys, as the list of their entries in the order of one iteration.
pub mod Unordered
use coreos_baremetal.Prelude.{
  ◌≡◌, refl, Option, none, some, List, [], ◌∷◌, map, arith, if◌then◌else◌, Bool, is_some, false,
  ◌||◌,
}
use coreos_baremetal.Prelude.Text.{Text, ◌==◌, ==_iff}

abbrev pub Dict {ℓ} : Type ℓ → Type ℓ
Dict V = List (Text × V)

module _ {ℓ} {V : Type ℓ} where
  unfoldable pub lookup : Text → Dict V → Option V
  lookup key [] = none
  lookup key ((k, value) ∷ entries) = if k == key then some value else lookup key entries

  -- `m[k] = v`
  unfoldable pub insert : Text → V → Dict V → Dict V
  insert key value [] = (key, value) ∷ []
  insert key value ((k, old) ∷ entries) =
      if k == key then (k, value) ∷ entries else (k, old) ∷ insert key value entries

  pub lookup-insert :
      (key other : Text) (value : V) (m : Dict V)
      → lookup other (insert key value m) ≡ (if key == other then some value else lookup other m)
  unfolding lookup insert
  lookup-insert key other value [] = refl
  lookup-insert key other value ((k, old) ∷ entries) =
      ground (
        arith,
        ==_iff k key,
        ==_iff key other,
        ==_iff k other,
        lookup-insert key other value entries,
      )

  abbrev pub keys : Dict V → List Text
  keys = map (λ e. e.0)

  -- The keys of a map differ from each other.
  abbrev pub NodupKeys : Dict V → Type ℓ
  NodupKeys [] = Unit
  NodupKeys ((k, v) ∷ m) = (lookup k m ≡ none) × NodupKeys m

-- `m[k]` on a map of strings: the empty string where the key is absent.
abbrev pub index : Dict Text → Text → Text
index m k = elim (lookup k m) [ none ↦ [] | some v ↦ v ]

-- Whether a list of keys has one.
unfoldable pub contains : Text → List Text → Bool
contains key [] = false
contains key (k ∷ rest) = k == key || contains key rest

pub contains-keys {ℓ} :
    {V : Type ℓ} (key : Text) (m : Dict V) → contains key (keys m) ≡ is_some (lookup key m)
unfolding contains lookup
contains-keys key [] = refl
contains-keys key ((k, value) ∷ entries) = ground (arith, contains-keys key entries)
