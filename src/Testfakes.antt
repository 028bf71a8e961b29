-- ===== src/Testfakes.antt =====
-- bootcfg/storage/testfakes: the stores that the program's own tests run on
pub mod Fixed
pub mod Fixtures
use coreos_baremetal.Prelude.{Option, none, some, List, [], ◌++◌}
use coreos_baremetal.Prelude.Text.{Text, text}
use coreos_baremetal.Golang.Errors.{Error, failure, intentional, Result, ok, err}
use coreos_baremetal.Storage.Store.{Store}

-- `BrokenStore` has no state; every operation fails with `errIntentional`.
abbrev pub broken_store : Store
broken_store = record {
  State = Unit;
  group_put = λ s g. (s, some intentional);
  group_get = λ s id. err intentional;
  group_list = λ s. err intentional;
  profile_put = λ s p. (s, some intentional);
  profile_get = λ s id. err intentional;
  profile_list = λ s. err intentional;
  ignition_put = λ s name config. (s, some intentional);
  ignition_get = λ s name. err intentional;
  cloud_put = λ s name config. (s, some intentional);
  cloud_get = λ s name. err intentional;
  generic_get = λ s name. err intentional;
}

-- `EmptyStore` has no state: nothing is found in it, and nothing can be put.
abbrev pub empty_store : Store
empty_store = record {
  State = Unit;
  group_put = λ s g. (s, some (failure (text "emptyStore does not accept Groups")));
  group_get = λ s id. err (failure (text "Group not found"));
  group_list = λ s. ok [];
  profile_put = λ s p. (s, some (failure (text "emptyStore does not accept Profiles")));
  profile_get = λ s id. err (failure (text "Profile not found"));
  profile_list = λ s. ok [];
  ignition_put =
      λ s name config. (s, some (failure (text "emptyStore does not accept Ignition templates")));
  ignition_get = λ s name. err (failure (text "no Ignition template " ++ name));
  cloud_put = λ s name config.
      (s, some (failure (text "emptyStore does not accept CloudConfig templates")));
  cloud_get = λ s name. err (failure (text "no Cloud-Config template " ++ name));
  generic_get = λ s name. err (failure (text "no generic template " ++ name));
}
