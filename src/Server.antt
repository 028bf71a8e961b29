-- ===== src/Server.antt =====
-- bootcfg/server/server.go, over any store and any sort. The `context.Context` arguments, which
-- the server only passes on, are left out.
pub mod Selection
pub mod Agreement
pub mod Profiles
pub mod Puts
pub mod Runs
use coreos_baremetal.Prelude.{ℕ, Bool, Option, none, some, List, [], ◌∷◌, if◌then◌else◌}
use coreos_baremetal.Prelude.Text.{Text}
use coreos_baremetal.Golang.Dict.{Dict}
use coreos_baremetal.Golang.Errors.{
  Error, no_matching_group, no_matching_profile, Result, ok, err, ◌>>=◌, ◌>>◌,
}
use coreos_baremetal.Golang.Sort.{Sorter, reverse_less}
use coreos_baremetal.Storagepb.Json.{Group, Profile}
use coreos_baremetal.Storagepb.Group.{matches, assert_valid, by_reqs_less}
use coreos_baremetal.Storagepb.Profile.{assert_valid_profile}
use coreos_baremetal.Storage.Store.{Store}

-- The request labels: a map, or `nil`.
abbrev pub Labels : Type 0
Labels = Option (Dict Text)

-- The interface `Server` that the HTTP and gRPC services take, with the state that its operations
-- change passed along.
pub record Core : Type 1 where
  pub State : Type 0
  pub select_group : State → Labels → Result Group
  pub select_profile : State → Labels → Result Profile
  pub group_put : State → Group → State × Result Group
  pub group_get : State → Text → Result Group
  pub group_list : State → Result (List Group)
  pub profile_put : State → Profile → State × Result Profile
  pub profile_get : State → Text → Result Profile
  pub profile_list : State → Result (List Profile)
  pub ignition_put : State → Text → Text → State × Result Text
  pub ignition_get : State → Text → Result Text
  pub cloud_put : State → Text → Text → State × Result Text
  pub cloud_get : State → Text → Result Text
  pub generic_get : State → Text → Result Text

-- The loop of `SelectGroup`.
unfoldable pub first_match : Labels → List Group → Result Group
first_match labels [] = err no_matching_group
first_match labels (g ∷ groups) =
    let rest = first_match labels groups in if matches g labels then ok g else rest

-- What a put answers: the value, or the store's error.
abbrev pub answer : {S A : Type 0} → A → S × Option Error → S × Result A
answer a (s, none) = (s, ok a)
answer a (s, some e) = (s, err e)

-- The sorts that the server uses: of texts, and of groups.
pub record Sorts : Type 0 where
  pub texts : Sorter Text
  pub groups : Sorter Group

module _ (store : Store) (sorts : Sorts) where
  open store use {State}

  -- `(*server).GroupPut`
  unfoldable pub group_put : State → Group → State × Result Group
  group_put s g = elim (assert_valid g) [
    | some e ↦ (s, err e)
    | none ↦ answer g (store.group_put s g)
  ]

  -- `(*server).GroupGet`
  unfoldable pub group_get : State → Text → Result Group
  group_get s id = do group ← store.group_get s id; ok group

  -- `(*server).GroupList`
  unfoldable pub group_list : State → Result (List Group)
  group_list s = do groups ← store.group_list s; ok groups

  -- `(*server).ProfilePut`
  unfoldable pub profile_put : State → Profile → State × Result Profile
  profile_put s p = elim (assert_valid_profile p) [
    | some e ↦ (s, err e)
    | none ↦ answer p (store.profile_put s p)
  ]

  -- `(*server).ProfileGet`
  unfoldable pub profile_get : State → Text → Result Profile
  profile_get s id = do profile ← store.profile_get s id; assert_valid_profile profile >> ok profile

  -- `(*server).ProfileList`
  unfoldable pub profile_list : State → Result (List Profile)
  profile_list s = do profiles ← store.profile_list s; ok profiles

  -- `(*server).SelectGroup`: `sort.Sort(sort.Reverse(ByReqs(groups)))`, then the first match.
  unfoldable pub select_group : State → Labels → Result Group
  select_group s labels = do
    groups ← store.group_list s
    first_match labels (sorts.groups.sort (reverse_less (by_reqs_less sorts.texts)) groups)

  -- `(*server).SelectProfile`: the error is replaced on both ways out.
  unfoldable pub select_profile : State → Labels → Result Profile
  select_profile s labels = elim (select_group s labels) [
    | err e ↦ err no_matching_group
    | ok group ↦ elim (profile_get s group.profile) [
      | err e ↦ err no_matching_profile
      | ok profile ↦ ok profile
    ]
  ]

  -- `(*server).IgnitionPut` and the four like it.
  unfoldable pub ignition_put : State → Text → Text → State × Result Text
  ignition_put s name config = answer config (store.ignition_put s name config)

  unfoldable pub ignition_get : State → Text → Result Text
  ignition_get s name = store.ignition_get s name

  unfoldable pub cloud_put : State → Text → Text → State × Result Text
  cloud_put s name config = answer config (store.cloud_put s name config)

  unfoldable pub cloud_get : State → Text → Result Text
  cloud_get s name = store.cloud_get s name

  unfoldable pub generic_get : State → Text → Result Text
  generic_get s name = store.generic_get s name

  -- `NewServer`: the server as an implementation of the interface.
  abbrev pub new_server : Core
  new_server = record {
    State = State;
    select_group = select_group;
    select_profile = select_profile;
    group_put = group_put;
    group_get = group_get;
    group_list = group_list;
    profile_put = profile_put;
    profile_get = profile_get;
    profile_list = profile_list;
    ignition_put = ignition_put;
    ignition_get = ignition_get;
    cloud_put = cloud_put;
    cloud_get = cloud_get;
    generic_get = generic_get;
  }
