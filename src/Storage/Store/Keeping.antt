-- ===== src/Storage/Store/Keeping.antt =====
-- What a client of bootcfg/storage/storage.go relies on: a store keeps what was put, if it fits the
-- store.
use mathlib.Core.List.{Mem}
use coreos_baremetal.Prelude.{◌≡◌, none, List}
use coreos_baremetal.Prelude.Text.{Text}
use coreos_baremetal.Golang.Errors.{ok}
use coreos_baremetal.Storagepb.Json.{Group, Profile}
use coreos_baremetal.Storagepb.Profile.{assert_valid_profile}
use coreos_baremetal.Storage.Store.{Store}

-- `FitsGroup` and `FitsProfile` are the groups and profiles that the store gives back as they were.
pub record IsKeeping (store : Store) (FitsGroup : Group → Type 0) (FitsProfile : Profile → Type 0)
    : Type 0 where
  pub profile_get-put :
      (s : store.State) (p : Profile)
      → FitsProfile p
      → assert_valid_profile p ≡ none
      → (store.profile_put s p).1 ≡ none
      → store.profile_get (store.profile_put s p).0 p.id ≡ ok p
  pub profile_get-group_put :
      (s : store.State) (g : Group) (p : Profile)
      → FitsGroup g
      → FitsProfile p
      → store.profile_get s p.id ≡ ok p
      → store.profile_get (store.group_put s g).0 p.id ≡ ok p
  pub group_list-put :
      (s : store.State) (g : Group)
      → FitsGroup g
      → (store.group_put s g).1 ≡ none
      → (groups : List Group) × (store.group_list (store.group_put s g).0 ≡ ok groups)
        × Mem g groups

-- The same for the Ignition templates whose names are `IsName`.
pub record KeepsIgnition (store : Store) (FitsGroup : Group → Type 0)
    (FitsProfile : Profile → Type 0) (IsName : Text → Type 0) : Type 0 where
  pub ignition_get-put :
      (s : store.State) (name config : Text)
      → (store.ignition_put s name config).1 ≡ none
      → store.ignition_get (store.ignition_put s name config).0 name ≡ ok config
  pub ignition_get-profile_put :
      (s : store.State) (p : Profile) (name found : Text)
      → FitsProfile p
      → IsName name
      → store.ignition_get s name ≡ ok found
      → store.ignition_get (store.profile_put s p).0 name ≡ ok found
  pub ignition_get-group_put :
      (s : store.State) (g : Group) (name found : Text)
      → FitsGroup g
      → IsName name
      → store.ignition_get s name ≡ ok found
      → store.ignition_get (store.group_put s g).0 name ≡ ok found
