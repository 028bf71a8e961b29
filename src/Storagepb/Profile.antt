-- ===== src/Storagepb/Profile.antt =====
-- bootcfg/storage/storagepb/profile.go
use coreos_baremetal.Prelude.{
  ◌≡◌, refl, inl, inr, Option-cases, Option, none, some, List, [], ◌∷◌, if◌then◌else◌, arith, ◌↔◌,
  ◌≢◌,
}
use coreos_baremetal.Prelude.Text.{Text, ◌==◌}
use coreos_baremetal.Golang.Errors.{Error, id_required, Result}
use coreos_baremetal.Golang.Dict.{Dict}
use coreos_baremetal.Storagepb.Json.{NetBoot, Profile, Json}
use coreos_baremetal.Storagepb.Group.{copy_entries}

-- `(*Profile).AssertValid`
unfoldable pub assert_valid_profile : Profile → Option Error
assert_valid_profile p = if p.id == [] then some id_required else none

-- `copy(initrd, b.Initrd)` into a slice of the same length.
unfoldable pub copy_items : List Text → List Text
copy_items [] = []
copy_items (s ∷ rest) = s ∷ copy_items rest

-- `(*NetBoot).Copy`: `none` is the panic on a `nil` receiver, whose fields it reads.
unfoldable pub copy_boot : Option NetBoot → Option NetBoot
copy_boot none = none
copy_boot (some b) =
    some
      (record { kernel = b.kernel; initrd = copy_items b.initrd; cmdline = copy_entries b.cmdline })

-- `(*Profile).Copy`: `none` is a panic.
unfoldable pub copy_profile : Profile → Option Profile
copy_profile p = elim (copy_boot p.boot) [
  | none ↦ none
  | some boot ↦ some (record {
    id = p.id;
    name = p.name;
    ignition_id = p.ignition_id;
    cloud_id = p.cloud_id;
    boot = some boot;
    generic_id = p.generic_id;
  })
]

-- `ParseProfile`
unfoldable pub parse_profile : Json → Text → Result Profile
parse_profile json data' = json.unmarshal_profile data'

copy_items_lem : (l : List Text) → copy_items l ≡ l
unfolding copy_items
copy_items_lem [] = refl
copy_items_lem (s ∷ rest) = rw (copy_items_lem rest)

pub copy_entries_lem : (m : Dict Text) → copy_entries m ≡ m
unfolding copy_entries
copy_entries_lem [] = refl
copy_entries_lem (e ∷ m) = rw (copy_entries_lem m)

-- A copy equals its original, and copying panics exactly when the profile has no boot settings.
pub copy_profile_lem :
    (p : Profile)
    → ((copy_profile p ≡ none) ↔ (p.boot ≡ none)) × ((copy_profile p ≡ some p) ↔ (p.boot ≢ none))
unfolding copy_profile copy_boot
copy_profile_lem p = elim (Option-cases p.boot) [
  | inl e ↦ ground arith
  | inr (b, e) ↦ ground (arith, copy_items_lem b.initrd, copy_entries_lem b.cmdline)
]
