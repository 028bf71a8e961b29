-- ===== src/Rpc.antt =====
-- bootcfg/rpc: the gRPC services over the server, one handler per method. A handler returns its
-- response even with an error; gRPC then sends the error alone.
pub mod Codes
pub mod Services
use coreos_baremetal.Prelude.{Option, none, some, List, []}
use coreos_baremetal.Prelude.Text.{Text, text}
use coreos_baremetal.Golang.Errors.{
  Error, error_text, no_matching_group, no_matching_profile, Result, ok, err,
}
use coreos_baremetal.Storagepb.Json.{Group, Profile}
use coreos_baremetal.Server.{Core, Labels}

-- The codes of `google.golang.org/grpc/codes` that the program uses.
pub data Code : Type 0 where
  not_found unknown : Code

pub record Status : Type 0 where
  pub code : Code
  pub message : Text

-- `errNoMatchingGroup` and `errNoMatchingProfile`
abbrev pub status_no_group : Status
status_no_group = record { code = not_found; message = text "bootcfg: No matching Group" }

abbrev pub status_no_profile : Status
status_no_profile = record { code = not_found; message = text "bootcfg: No matching Profile" }

-- The switch of `grpcError`.
unfoldable pub status_of : Error → Status
status_of no_matching_group = status_no_group
status_of no_matching_profile = status_no_profile
status_of e = record { code = unknown; message = error_text e }

-- `grpcError`
unfoldable pub grpc_error : Option Error → Option Status
grpc_error none = none
grpc_error (some e) = some (status_of e)

-- The value and the error of a Go result; the value of a failed call is `nil`.
abbrev pub value_of : {A : Type 0} → Result A → Option A
value_of (ok a) = some a
value_of (err e) = none

abbrev pub error_of : {A : Type 0} → Result A → Option Error
error_of (ok a) = none
error_of (err e) = some e

module _ (core : Core) where
  open core use {State}

  -- `(*groupServer).GroupPut`: its response has no fields.
  unfoldable pub group_put : State → Group → State × Option Status
  group_put s g = let (t, r) = core.group_put s g in (t, grpc_error (error_of r))

  -- `(*groupServer).GroupGet`
  unfoldable pub group_get : State → Text → Option Group × Option Status
  group_get s id = let r = core.group_get s id in (value_of r, grpc_error (error_of r))

  -- `(*groupServer).GroupList`
  unfoldable pub group_list : State → Option (List Group) × Option Status
  group_list s = let r = core.group_list s in (value_of r, grpc_error (error_of r))

  -- `(*profileServer).ProfilePut`
  unfoldable pub profile_put : State → Profile → State × Option Status
  profile_put s p = let (t, r) = core.profile_put s p in (t, grpc_error (error_of r))

  -- `(*profileServer).ProfileGet`
  unfoldable pub profile_get : State → Text → Option Profile × Option Status
  profile_get s id = let r = core.profile_get s id in (value_of r, grpc_error (error_of r))

  -- `(*profileServer).ProfileList`
  unfoldable pub profile_list : State → Option (List Profile) × Option Status
  profile_list s = let r = core.profile_list s in (value_of r, grpc_error (error_of r))

  -- `(*selectServer).SelectGroup`
  unfoldable pub select_group : State → Labels → Option Group × Option Status
  select_group s labels =
      let r = core.select_group s labels in (value_of r, grpc_error (error_of r))

  -- `(*selectServer).SelectProfile`
  unfoldable pub select_profile : State → Labels → Option Profile × Option Status
  select_profile s labels =
      let r = core.select_profile s labels in (value_of r, grpc_error (error_of r))

  -- `(*ignitionServer).IgnitionPut`
  unfoldable pub ignition_put : State → Text → Text → State × Option Status
  ignition_put s name config =
      let (t, r) = core.ignition_put s name config in (t, grpc_error (error_of r))

  -- `(*cloudServer).CloudPut`
  unfoldable pub cloud_put : State → Text → Text → State × Option Status
  cloud_put s name config =
      let (t, r) = core.cloud_put s name config in (t, grpc_error (error_of r))
