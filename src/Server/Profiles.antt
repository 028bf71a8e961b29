-- ===== src/Server/Profiles.antt =====
-- `SelectProfile` of bootcfg/server/server.go.
use coreos_baremetal.Prelude.{◌⊎◌, ◌≡◌, ◌↔◌, inl, inr, arith}
use coreos_baremetal.Golang.Errors.{
  Error, no_matching_group, no_matching_profile, Result-cases, ok, err,
}
use coreos_baremetal.Storagepb.Json.{Group, Profile}
use coreos_baremetal.Storage.Store.{Store}
use coreos_baremetal.Server.{Labels, Sorts, select_group, select_profile, profile_get}

module _ (store : Store) (sorts : Sorts) (s : store.State) (labels : Labels) where
  -- A profile is selected exactly when a group is and that group's profile can be got.
  pub select_profile_iff :
      (p : Profile)
      → (select_profile store sorts s labels ≡ ok p) ↔ (
          (g : Group) × (select_group store sorts s labels ≡ ok g)
          × (profile_get store sorts s g.profile ≡ ok p))
  unfolding select_profile
  select_profile_iff p = elim (Result-cases (select_group store sorts s labels)) [
    | inr (e, q) ↦ ((λ h. absurd (ground arith)), (λ (g, r, t). absurd (ground arith)))
    | inl (g, q) ↦
        ((λ h. (g, q, ground arith)), (λ (g', r, t). let same : g ≡ g' = cc in ground arith))
  ]

  -- A `SelectProfile` that fails does so with `ErrNoMatchingProfile` where a group is selected
  -- whose profile cannot be got, and with `ErrNoMatchingGroup` where no group is selected,
  -- whatever the store's error was.
  pub select_profile_errors :
      (e : Error)
      → select_profile store sorts s labels ≡ err e
      → ((e ≡ no_matching_group) × ((x : Error) × (select_group store sorts s labels ≡ err x)))
        ⊎ ((e ≡ no_matching_profile)
            × ((g : Group) × (x : Error) × (select_group store sorts s labels ≡ ok g)
                × (profile_get store sorts s g.profile ≡ err x)))
  unfolding select_profile
  select_profile_errors e h = elim (Result-cases (select_group store sorts s labels)) [
    | inr (x, q) ↦ inl (ground arith, (x, q))
    | inl (g, q) ↦ elim (Result-cases (profile_get store sorts s g.profile)) [
      | inr (x, r) ↦ inr (ground arith, (g, x, q, r))
      | inl (p, r) ↦ absurd (ground arith)
    ]
  ]
