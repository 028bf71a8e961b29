-- ===== src/Server/Runs/Keys.antt =====
-- Where the file store of bootcfg/storage/filestore.go keeps the resource of a key.
use coreos_baremetal.Prelude.{◌≡◌, ◌≢◌, sym, refl, false, true, ◌++◌, ◌⊎◌, inl, inr, Bool-cases}
use coreos_baremetal.Prelude.Text.{Text, text, ◌==◌, ==_iff, ==_false}
use coreos_baremetal.Storage.FileStore.{
  groups_dir, profiles_dir, ignition_dir, cloud_dir, json_suffix,
}
use coreos_baremetal.Storage.FileStore.Paths.{
  IsId, IsFileName, id-IsFileName, groups_dir-IsFileName, profiles_dir-IsFileName,
}
use coreos_baremetal.Storage.FileStore.Groups.{suffix_injective}
use coreos_baremetal.Storage.FileStore.Profiles.{ignition_dir-IsFileName, cloud_dir-IsFileName}
use coreos_baremetal.Server.Runs.{Kind, groups, profiles, ignition, cloud, same_kind, same_key}

abbrev pub directory : Kind → Text
directory groups = groups_dir
directory profiles = profiles_dir
directory ignition = ignition_dir
directory cloud = cloud_dir

abbrev pub file : Kind → Text → Text
file groups id = id ++ json_suffix
file profiles id = id ++ json_suffix
file ignition name = name
file cloud name = name

-- A name that stays one file of its directory: for groups and profiles, whose file gets a suffix,
-- every text without slashes and NUL bytes.
abbrev pub IsNamed : Kind → Text → Type 0
IsNamed groups id = IsId id
IsNamed profiles id = IsId id
IsNamed ignition name = IsFileName name
IsNamed cloud name = IsFileName name

kind-cases :
    (k l : Kind)
    → ((same_kind k l ≡ true) × (k ≡ l)) ⊎ ((same_kind k l ≡ false) × (directory k ≢ directory l))
unfolding same_kind text ◌==◌
kind-cases groups groups = inl (refl, refl)
kind-cases groups profiles = inr (refl, ==_false (directory groups) (directory profiles) refl)
kind-cases groups ignition = inr (refl, ==_false (directory groups) (directory ignition) refl)
kind-cases groups cloud = inr (refl, ==_false (directory groups) (directory cloud) refl)
kind-cases profiles groups = inr (refl, ==_false (directory profiles) (directory groups) refl)
kind-cases profiles profiles = inl (refl, refl)
kind-cases profiles ignition = inr (refl, ==_false (directory profiles) (directory ignition) refl)
kind-cases profiles cloud = inr (refl, ==_false (directory profiles) (directory cloud) refl)
kind-cases ignition groups = inr (refl, ==_false (directory ignition) (directory groups) refl)
kind-cases ignition profiles = inr (refl, ==_false (directory ignition) (directory profiles) refl)
kind-cases ignition ignition = inl (refl, refl)
kind-cases ignition cloud = inr (refl, ==_false (directory ignition) (directory cloud) refl)
kind-cases cloud groups = inr (refl, ==_false (directory cloud) (directory groups) refl)
kind-cases cloud profiles = inr (refl, ==_false (directory cloud) (directory profiles) refl)
kind-cases cloud ignition = inr (refl, ==_false (directory cloud) (directory ignition) refl)
kind-cases cloud cloud = inl (refl, refl)

file_injective : (k : Kind) (m n : Text) → m ≢ n → file k m ≢ file k n
file_injective groups m n ne = suffix_injective m n ne
file_injective profiles m n ne = suffix_injective m n ne
file_injective ignition m n ne = ne
file_injective cloud m n ne = ne

text-cases : (m n : Text) → (((m == n) ≡ true) × (m ≡ n)) ⊎ (((m == n) ≡ false) × (m ≢ n))
text-cases m n = elim (Bool-cases (m == n)) [
  | inl p ↦ inl (p, (==_iff m n).0 p)
  | inr p ↦ inr (p, ==_false m n p)
]

-- Two kinds and names are the same if they are equal, and otherwise their files differ.
pub key-cases :
    (k l : Kind) (m n : Text)
    → ((same_key k m l n ≡ true) × (k ≡ l) × (m ≡ n))
      ⊎ ((same_key k m l n ≡ false) × ((directory k ≢ directory l) ⊎ (file k m ≢ file l n)))
key-cases k l m n = elim (kind-cases k l) [
  | inr (h, apart) ↦ inr (rw h refl, inl apart)
  | inl (h, p) ↦ elim (text-cases m n) [
    | inl (q, same) ↦ inl (rw (h, q) refl, p, same)
    | inr (q, ne) ↦ inr (rw (h, q) refl, inr (rw (sym p) (file_injective k m n ne)))
  ]
]

pub directory-IsFileName : (k : Kind) → IsFileName (directory k)
directory-IsFileName groups = groups_dir-IsFileName
directory-IsFileName profiles = profiles_dir-IsFileName
directory-IsFileName ignition = ignition_dir-IsFileName
directory-IsFileName cloud = cloud_dir-IsFileName

pub file-IsFileName : (k : Kind) (name : Text) → IsNamed k name → IsFileName (file k name)
file-IsFileName groups id h = id-IsFileName id h
file-IsFileName profiles id h = id-IsFileName id h
file-IsFileName ignition name h = h
file-IsFileName cloud name h = h
