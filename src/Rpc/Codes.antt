-- ===== src/Rpc/Codes.antt =====
-- The status codes that clients of bootcfg/rpc see.
use coreos_baremetal.Golang.Errors.{
  profile_required, id_required, invalid_file_path_character, no_profile_from_context,
  no_group_from_context, empty_keyring, missing_passphrase, no_endpoints, no_tls_config,
  group_not_found, profile_not_found, intentional, failure, Error, no_matching_group,
  no_matching_profile, Result-cases,
}
use coreos_baremetal.Prelude.{◌≡◌, refl, ◌↔◌, ◌⊎◌, inl, inr, none, some, arith}
use coreos_baremetal.Storagepb.Json.{Profile}
use coreos_baremetal.Storage.Store.{Store}
use coreos_baremetal.Server.{Labels, Sorts, new_server}
use coreos_baremetal.Server
use coreos_baremetal.Server.Profiles.{select_profile_errors}
use coreos_baremetal.Rpc.{
  not_found, status_of, grpc_error, select_profile, status_no_group, status_no_profile,
}

-- The code is NotFound for the two errors of a selection, and for no other.
pub status_of-not_found :
    (e : Error)
    → ((status_of e).code ≡ not_found) ↔ ((e ≡ no_matching_group) ⊎ (e ≡ no_matching_profile))
unfolding status_of
status_of-not_found profile_required = ground arith
status_of-not_found id_required = ground arith
status_of-not_found invalid_file_path_character = ground arith
status_of-not_found no_matching_group = ground arith
status_of-not_found no_matching_profile = ground arith
status_of-not_found no_profile_from_context = ground arith
status_of-not_found no_group_from_context = ground arith
status_of-not_found empty_keyring = ground arith
status_of-not_found missing_passphrase = ground arith
status_of-not_found no_endpoints = ground arith
status_of-not_found no_tls_config = ground arith
status_of-not_found group_not_found = ground arith
status_of-not_found profile_not_found = ground arith
status_of-not_found intentional = ground arith
status_of-not_found (failure message) = ground arith

module _ (store : Store) (sorts : Sorts) (s : store.State) (labels : Labels) where
  -- A selection of a profile either answers with the profile and no error, or with no profile
  -- and the code NotFound: whatever the store's error was, no other code is sent.
  pub select_profile_codes :
      ((profile : Profile) × (select_profile (new_server store sorts) s labels
          ≡ (some profile, none)))
      ⊎ ((select_profile (new_server store sorts) s labels ≡ (none, some status_no_group))
          ⊎ (select_profile (new_server store sorts) s labels ≡ (none, some status_no_profile)))
  unfolding select_profile status_of grpc_error
  select_profile_codes = elim (Result-cases (Server.select_profile store sorts s labels)) [
    | inl (profile, p) ↦ inl (profile, rw p refl)
    | inr (e, p) ↦ elim (select_profile_errors store sorts s labels e p) [
      | inl (same, _) ↦ inr (inl (rw (p, same) refl))
      | inr (same, _) ↦ inr (inr (rw (p, same) refl))
    ]
  ]
