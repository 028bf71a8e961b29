-- ===== src/Storage/FileStore/Listing.antt =====
-- `GroupList` and `ProfileList`: what the loop over the directory keeps.
use mathlib.Core.List.{Mem, mem-cons_self, mem-cons_of_mem, not-mem-nil, mem-cons, Mem-prop}
use mathlib.Core.Logic.Or
use mathlib.Core.Logic.{∥∥₁_map}
use coreos_baremetal.Prelude.{◌≡◌, refl, ap, List, [], ◌∷◌, inl, inr}
use coreos_baremetal.Prelude.Text.{Text}
use coreos_baremetal.Golang.Errors.{Error, Result, Result-cases, ok, err}
use coreos_baremetal.Golang.FileSystem.{FileSystem}
use coreos_baremetal.Storagepb.Json.{Group, Json}
use coreos_baremetal.Storage.Dir.{read_dir}
use coreos_baremetal.Storage.FileStore.{groups_dir, stem, collect, group_get, group_list}

-- The items of a list are those that a get gives for the listed files: each item comes from a
-- file, and each file that can be read gives an item.
pub record Lists {A : Type 0} (get : Text → Result A) (files : List Text) (items : List A)
    : Type 0 where
  pub sound :
      (a : A) → Mem a items → ∥ ((name : Text) × Mem name files × (get (stem name) ≡ ok a)) ∥₁
  pub complete : (a : A) (name : Text) → Mem name files → get (stem name) ≡ ok a → Mem a items

module _ {A : Type 0} (get : Text → Result A) where
  collect_of_ok :
      (name : Text) (names : List Text) (a : A)
      → get (stem name) ≡ ok a
      → collect get (name ∷ names) ≡ a ∷ collect get names
  unfolding collect
  collect_of_ok name names a e = rw (e, collect)

  collect_of_err :
      (name : Text) (names : List Text) (x : Error)
      → get (stem name) ≡ err x
      → collect get (name ∷ names) ≡ collect get names
  unfolding collect
  collect_of_err name names x e = rw (e, collect)

  collect-nil : collect get [] ≡ []
  unfolding collect
  collect-nil = refl

  widen :
      (n : Text) (names : List Text) (a : A)
      → ∥ ((name : Text) × Mem name names × (get (stem name) ≡ ok a)) ∥₁
      → ∥ ((name : Text) × Mem name (n ∷ names) × (get (stem name) ≡ ok a)) ∥₁
  widen n names a t = ∥∥₁_map t (λ (name, m, e). (name, mem-cons_of_mem n m, e))

  collect_sound :
      (names : List Text) (a : A)
      → Mem a (collect get names)
      → ∥ ((name : Text) × Mem name names × (get (stem name) ≡ ok a)) ∥₁
  collect_sound [] a m = absurd (not-mem-nil (rw collect-nil at m))
  collect_sound (name ∷ names) a m = elim (Result-cases (get (stem name))) [
    | inr (x, e) ↦
        widen name names a (collect_sound names a (rw (collect_of_err name names x e) at m))
    | inl (b, e) ↦
        Or.elim squash₁ (mem-cons.0 (rw (collect_of_ok name names b e) at m))
          (λ same. ∣ (name, mem-cons_self, rw same e) ∣₁)
          (λ later. widen name names a (collect_sound names a later))
  ]

  collect-complete :
      (names : List Text) (a : A) (name : Text)
      → Mem name names
      → get (stem name) ≡ ok a
      → Mem a (collect get names)
  collect-complete [] a name m e = absurd (not-mem-nil m)
  collect-complete (n ∷ names) a name m e = elim (Result-cases (get (stem n))) [
    | inr (x, f) ↦ rw (collect_of_err n names x f) (
        Or.elim (Mem-prop) (mem-cons.0 m) (λ same. cc (ap (λ k. get (stem k)) same))
          (λ later. collect-complete names a name later e))
    | inl (b, f) ↦ rw (collect_of_ok n names b f) (
        Or.elim (Mem-prop) (mem-cons.0 m)
          (λ same. let head : b ≡ a = cc (ap (λ k. get (stem k)) same) in rw head mem-cons_self)
          (λ later. mem-cons_of_mem b (collect-complete names a name later e)))
  ]

module _ (F : FileSystem) (json : Json) (root : Text) where
  -- Where the groups directory can be read, the list of groups holds exactly the groups that
  -- `GroupGet` gives for the stems of its files; files that cannot be read are left out, and do
  -- not fail the list.
  pub group_list-Lists :
      (s : F.State) (files : List Text)
      → read_dir F root s groups_dir ≡ ok files
      → (groups : List Group) × (group_list F json root s ≡ ok groups)
        × Lists (group_get F json root s) files groups
  unfolding group_list
  group_list-Lists s files h =
      let get = group_get F json root s in
      (
        collect get files,
        rw h,
        record { sound = collect_sound get files; complete = collect-complete get files },
      )
