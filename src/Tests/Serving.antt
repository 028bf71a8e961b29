-- ===== src/Tests/Serving.antt =====
-- The server over the file store in memory.
use mathlib.Core.List.{Mem}
use mathlib.Core.List.Perm
use coreos_baremetal.Prelude.{
  ◌≡◌, ◌↔◌, ◌⊎◌, refl, false, none, some, List, [], ◌∷◌, length, if◌then◌else◌,
}
use coreos_baremetal.Prelude.Text.{text, ◌==◌, join, contains_byte}
use coreos_baremetal.Prelude.Text.Order.{text_lt}
use coreos_baremetal.Golang.Errors.{
  Error, ok, err, id_required, no_matching_group, no_matching_profile,
}
use coreos_baremetal.Golang.Dict.{lookup}
use coreos_baremetal.Golang.Sort.Insertion.{insertion_sort, insertion_sorter}
use coreos_baremetal.Golang.FileSystem.Memory.{memory}
use coreos_baremetal.Storagepb.Json.{Group, Profile, Json}
use coreos_baremetal.Storagepb.Group.{
  to_rich_group, matches, matches_all, selector_string, by_reqs_less, assert_valid,
}
use coreos_baremetal.Storagepb.Profile.{assert_valid_profile}
use coreos_baremetal.Storage.Store.{Store}
use coreos_baremetal.Storage.FileStore.{file_store}
use coreos_baremetal.Server.{
  Labels, first_match, select_group, select_profile, profile_get, group_put,
}
use coreos_baremetal.Server.Selection.{IsBest, select_group-IsBest, select_group_none}
use coreos_baremetal.Server.Agreement.{select_group_agree}
use coreos_baremetal.Server.Profiles.{select_profile_iff, select_profile_errors}
use coreos_baremetal.Storage.FileStore
use coreos_baremetal.Storage.Dir.{write_file, sanitize}
use coreos_baremetal.Golang.FilePath.{
  join_paths, clean, render, is_rooted, resolve, split_slash, push,
}
use coreos_baremetal.Tests.Samples.{sorts, region, node, worker, one_value}

-- A store that lists the given groups, and finds one profile.
abbrev fixed : List Group → Profile → Store
fixed groups p = record {
  State = Unit;
  group_put = λ s g. (s, none);
  group_get = λ s id. ok region;
  group_list = λ s. ok groups;
  profile_put = λ s q. (s, none);
  profile_get = λ s id. if id == p.id then ok p else err id_required;
  profile_list = λ s. ok (p ∷ []);
  ignition_put = λ s name config. (s, none);
  ignition_get = λ s name. ok [];
  cloud_put = λ s name config. (s, none);
  cloud_get = λ s name. ok [];
  generic_get = λ s name. ok [];
}

abbrev both : Store
both = fixed (region ∷ node ∷ []) worker

abbrev turned : Store
turned = fixed (node ∷ region ∷ []) worker

abbrev labels : Labels
labels = some ((text "MAC", text "52-DA-00-89-D8-10") ∷ (text "region", text "a") ∷ [])

abbrev other : Labels
other = some ((text "region", text "a") ∷ [])

-- The group with more requirements wins; a group that is not met is passed over.
select_tests :
    (select_group both sorts tt labels ≡ ok node)
    × (select_group both sorts tt other ≡ ok region)
    × (select_group both sorts tt none ≡ err no_matching_group)
    × (select_profile both sorts tt other ≡ ok worker)
    × (select_profile both sorts tt labels ≡ err no_matching_profile)
unfolding text select_group select_profile profile_get first_match matches matches_all lookup ◌==◌
    by_reqs_less selector_string insertion_sort text_lt join assert_valid_profile
select_tests = (refl, refl, refl, refl, refl)

node_selected : select_group both sorts tt labels ≡ ok node
node_selected = select_tests.0

select_group-IsBest_example : IsBest insertion_sorter (region ∷ node ∷ []) labels node
select_group-IsBest_example =
    select_group-IsBest both sorts tt labels (region ∷ node ∷ []) node refl node_selected

select_group_none_example :
    (((e : Error) × (select_group both sorts tt labels ≡ err e))
      ↔ ((h : Group) → Mem h (region ∷ node ∷ []) → matches h labels ≡ false))
    × ((e : Error) → select_group both sorts tt labels ≡ err e → e ≡ no_matching_group)
select_group_none_example = select_group_none both sorts tt labels (region ∷ node ∷ []) refl

node_selected_turned : select_group turned sorts tt labels ≡ ok node
unfolding text select_group select_profile profile_get first_match matches matches_all lookup ◌==◌
    by_reqs_less selector_string insertion_sort text_lt join assert_valid_profile
node_selected_turned = refl

select_group_agree_example :
    (length node.selector ≡ length node.selector)
    × (selector_string insertion_sorter node ≡ selector_string insertion_sorter node)
select_group_agree_example =
    select_group_agree both turned sorts sorts tt tt labels (region ∷ node ∷ [])
      (node ∷ region ∷ []) node node refl refl (Perm.swap _ _ []) node_selected node_selected_turned

select_profile_iff_example : (select_profile both sorts tt other ≡ ok worker) ↔ (
    (g : Group) × (select_group both sorts tt other ≡ ok g)
    × (profile_get both sorts tt g.profile ≡ ok worker))
select_profile_iff_example = select_profile_iff both sorts tt other worker

select_profile_errors_example :
    ((no_matching_profile ≡ no_matching_group)
      × ((x : Error) × (select_group both sorts tt labels ≡ err x)))
    ⊎ ((no_matching_profile ≡ no_matching_profile)
        × ((g : Group) × (x : Error) × (select_group both sorts tt labels ≡ ok g)
            × (profile_get both sorts tt g.profile ≡ err x)))
select_profile_errors_example =
    select_profile_errors both sorts tt labels no_matching_profile select_tests.4

region_put : (group_put both sorts tt region).1 ≡ ok region
unfolding text group_put assert_valid ◌==◌
region_put = refl

abbrev nameless : Profile
nameless = record worker { id = [] }

abbrev aimless : Group
aimless = record region { profile = [] }

abbrev json : Json
json = one_value region worker

abbrev files : Store
files = file_store memory json (text "/data")

region_put_in_files : (group_put files sorts [] region).1 ≡ ok region
unfolding text group_put assert_valid ◌==◌ FileStore.group_put to_rich_group write_file sanitize
    contains_byte join_paths clean render is_rooted join resolve split_slash push
region_put_in_files = refl
