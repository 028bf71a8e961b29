-- ===== src/Testfakes/Fixed.antt =====
-- bootcfg/storage/testfakes/fixed_store.go: a store in maps
pub mod Kept
use coreos_baremetal.Prelude.{
  ◌≡◌, refl, arith, Option, none, some, List, [], ◌++◌, map, if◌then◌else◌,
}
use coreos_baremetal.Prelude.Text.{Text, text, ◌==◌}
use coreos_baremetal.Golang.Errors.{Error, failure, Result, ok, err}
use coreos_baremetal.Golang.Dict.{Dict, lookup, insert, lookup-insert}
use coreos_baremetal.Storagepb.Json.{Group, Profile}
use coreos_baremetal.Storage.Store.{Store}

pub record FixedStore : Type 0 where
  pub groups : Dict Group
  pub profiles : Dict Profile
  pub ignition_configs : Dict Text
  pub cloud_configs : Dict Text
  pub generic_configs : Dict Text

-- `NewFixedStore`
abbrev pub new_fixed_store : FixedStore
new_fixed_store = record {
  groups = [];
  profiles = [];
  ignition_configs = [];
  cloud_configs = [];
  generic_configs = [];
}

-- The value under a key, or an error with a message.
unfoldable pub find {ℓ} : {A : Type ℓ} → Dict A → Text → Text → Result A
find m key message = elim (lookup key m) [ none ↦ err (failure message) | some a ↦ ok a ]

unfoldable pub group_put : FixedStore → Group → FixedStore × Option Error
group_put s g = (record s { groups = insert g.id g s.groups }, none)

unfoldable pub group_get : FixedStore → Text → Result Group
group_get s id = find s.groups id (text "Group not found")

unfoldable pub group_list : FixedStore → Result (List Group)
group_list s = ok (map (λ e. e.1) s.groups)

unfoldable pub profile_put : FixedStore → Profile → FixedStore × Option Error
profile_put s p = (record s { profiles = insert p.id p s.profiles }, none)

unfoldable pub profile_get : FixedStore → Text → Result Profile
profile_get s id = find s.profiles id (text "Profile not found")

unfoldable pub profile_list : FixedStore → Result (List Profile)
profile_list s = ok (map (λ e. e.1) s.profiles)

unfoldable pub ignition_put : FixedStore → Text → Text → FixedStore × Option Error
ignition_put s name config =
    (record s { ignition_configs = insert name config s.ignition_configs }, none)

unfoldable pub ignition_get : FixedStore → Text → Result Text
ignition_get s name = find s.ignition_configs name (text "no Ignition template " ++ name)

unfoldable pub cloud_put : FixedStore → Text → Text → FixedStore × Option Error
cloud_put s name config = (record s { cloud_configs = insert name config s.cloud_configs }, none)

unfoldable pub cloud_get : FixedStore → Text → Result Text
cloud_get s name = find s.cloud_configs name (text "no Cloud-Config template " ++ name)

unfoldable pub generic_get : FixedStore → Text → Result Text
generic_get s name = find s.generic_configs name (text "no generic template " ++ name)

abbrev pub fixed_store : Store
fixed_store = record {
  State = FixedStore;
  group_put = group_put;
  group_get = group_get;
  group_list = group_list;
  profile_put = profile_put;
  profile_get = profile_get;
  profile_list = profile_list;
  ignition_put = ignition_put;
  ignition_get = ignition_get;
  cloud_put = cloud_put;
  cloud_get = cloud_get;
  generic_get = generic_get;
}

pub find-insert {ℓ} :
    {A : Type ℓ} (m : Dict A) (key other message : Text) (a : A)
    → find (insert key a m) other message ≡ (if key == other then ok a else find m other message)
unfolding find
find-insert m key other message a = ground (arith, lookup-insert key other a m)

-- The fixed store reads back what was put last under an id, and every other group and profile as
-- it was; a put of a group leaves the profiles alone, and the other way round.
pub fixed_store_lem :
    (s : FixedStore) (g : Group) (p : Profile) (id : Text)
    → (group_get (group_put s g).0 id ≡ (if g.id == id then ok g else group_get s id))
      × (profile_get (profile_put s p).0 id ≡ (if p.id == id then ok p else profile_get s id))
      × (profile_get (group_put s g).0 id ≡ profile_get s id)
      × (group_get (profile_put s p).0 id ≡ group_get s id)
unfolding group_get group_put profile_get profile_put
fixed_store_lem s g p id =
    (find-insert s.groups g.id id _ g, find-insert s.profiles p.id id _ p, refl, refl)
