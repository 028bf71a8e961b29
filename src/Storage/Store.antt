-- ===== src/Storage/Store.antt =====
-- bootcfg/storage/storage.go: the interface of a store. An operation that changes the store
-- returns its new state and an error or none.
pub mod Keeping
use coreos_baremetal.Prelude.{Option, List}
use coreos_baremetal.Prelude.Text.{Text}
use coreos_baremetal.Golang.Errors.{Error, Result}
use coreos_baremetal.Storagepb.Json.{Group, Profile}

pub record Store : Type 1 where
  pub State : Type 0
  pub group_put : State → Group → State × Option Error
  pub group_get : State → Text → Result Group
  pub group_list : State → Result (List Group)
  pub profile_put : State → Profile → State × Option Error
  pub profile_get : State → Text → Result Profile
  pub profile_list : State → Result (List Profile)
  pub ignition_put : State → Text → Text → State × Option Error
  pub ignition_get : State → Text → Result Text
  pub cloud_put : State → Text → Text → State × Option Error
  pub cloud_get : State → Text → Result Text
  pub generic_get : State → Text → Result Text
