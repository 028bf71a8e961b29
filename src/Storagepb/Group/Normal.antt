-- ===== src/Storagepb/Group/Normal.antt =====
-- `(*Group).Normalize`
use coreos_baremetal.Prelude.{
  ℕ, ◌≡◌, ◌↔◌, refl, inl, inr, none, some, List, [], ◌∷◌, arith, All, Bool-cases, Option-cases, ◌≢◌,
}
use coreos_baremetal.Prelude.Text.{Text, ◌==◌, ==_iff, to_lower}
use coreos_baremetal.Golang.Dict.{Dict, keys}
use coreos_baremetal.Golang.Mac.{parse_mac, mac_string}
use coreos_baremetal.Golang.Mac.Parsed.{parse_mac-normal}
use coreos_baremetal.Storagepb.Json.{Group}
use coreos_baremetal.Storagepb.Group.{normalize_entries, normalize, mac_key}

-- An entry under a key `mac`, in any case, holds an address in the form in which Go prints it.
abbrev pub IsNormal : Text × Text → Type 0
IsNormal (key, val) =
    to_lower key ≡ mac_key → (hw : List ℕ) × (parse_mac val ≡ some hw) × (val ≡ mac_string hw)

-- An entry under a key `mac` holds an address.
abbrev pub IsReadable : Text × Text → Type 0
IsReadable (key, val) = to_lower key ≡ mac_key → parse_mac val ≢ none

normalize_entries-keys : (sel : Dict Text) → keys (normalize_entries sel).0 ≡ keys sel
unfolding normalize_entries
normalize_entries-keys [] = refl
normalize_entries-keys ((key, val) ∷ sel) = ground (arith, normalize_entries-keys sel)

normalize_entries-IsNormal :
    (sel : Dict Text) → (normalize_entries sel).1 ≡ none → All IsNormal (normalize_entries sel).0
unfolding normalize_entries
normalize_entries-IsNormal [] h = tt
normalize_entries-IsNormal ((key, val) ∷ sel) h = elim (Bool-cases (to_lower key == mac_key)) [
  | inr e ↦ rw e (
    λ k. cc (e, (==_iff (to_lower key) mac_key).1 k),
    normalize_entries-IsNormal sel (rw (e, normalize_entries) at h),
  )
  | inl e ↦ elim (Option-cases (parse_mac val)) [
    | inl q ↦ cc (rw (e, q, normalize_entries) at h)
    | inr (hw, q) ↦
        rw (e, q)
          (
            λ k. (hw, parse_mac-normal val hw q, refl),
            normalize_entries-IsNormal sel (rw (e, q, normalize_entries) at h),
          )
  ]
]

normalize_entries_of_IsNormal :
    (sel : Dict Text) → All IsNormal sel → normalize_entries sel ≡ (sel, none)
unfolding normalize_entries
normalize_entries_of_IsNormal [] h = refl
normalize_entries_of_IsNormal ((key, val) ∷ sel) (p, h) =
    elim (Bool-cases (to_lower key == mac_key)) [
      | inr e ↦ rw (e, normalize_entries_of_IsNormal sel h)
      | inl e ↦
          let (hw, q, same) = p ((==_iff (to_lower key) mac_key).0 e) in
          rw (e, q, ← same, normalize_entries_of_IsNormal sel h)
    ]

normalize_entries-IsReadable :
    (sel : Dict Text) → ((normalize_entries sel).1 ≡ none) ↔ All IsReadable sel
unfolding normalize_entries
normalize_entries-IsReadable [] = ground arith
normalize_entries-IsReadable ((key, val) ∷ sel) =
    ground (arith, ==_iff (to_lower key) mac_key, normalize_entries-IsReadable sel)

-- A successful `Normalize` keeps the keys and leaves every MAC address in printed form.
pub normalize-IsNormal :
    (g : Group)
    → (normalize g).1 ≡ none
    → (keys (normalize g).0.selector ≡ keys g.selector) × All IsNormal (normalize g).0.selector
unfolding normalize
normalize-IsNormal g h =
    (normalize_entries-keys g.selector, normalize_entries-IsNormal g.selector h)

-- After a `Normalize` that succeeded, normalizing a second time succeeds and changes nothing.
pub normalize_idempotent :
    (g : Group) → (normalize g).1 ≡ none → normalize (normalize g).0 ≡ ((normalize g).0, none)
unfolding normalize
normalize_idempotent g h =
    rw (normalize_entries_of_IsNormal _ (normalize_entries-IsNormal g.selector h))

-- `Normalize` succeeds exactly when every value under a key `mac` is a MAC address.
pub normalize-IsReadable : (g : Group) → ((normalize g).1 ≡ none) ↔ All IsReadable g.selector
unfolding normalize
normalize-IsReadable g = normalize_entries-IsReadable g.selector
