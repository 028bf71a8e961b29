-- ===== src/Storagepb/Group.antt =====
-- bootcfg/storage/storagepb/group.go
pub mod Matching
pub mod Selectors
pub mod Normal
pub mod Rich
use coreos_baremetal.Prelude.{
  ℕ, Bool, true, false, not, ◌||◌, Option, none, some, List, [], ◌∷◌, ◌++◌, map, eqb, ltb,
  if◌then◌else◌, length,
}
use coreos_baremetal.Prelude.Text.{Text, text, ◌==◌, to_lower, join}
use coreos_baremetal.Prelude.Text.Order.{text_lt}
use coreos_baremetal.Golang.Errors.{
  Error, id_required, profile_required, failure, Result, ok, err, ◌>>=◌, ◌>>◌,
}
use coreos_baremetal.Golang.Dict.{Dict, index}
use coreos_baremetal.Golang.Sort.{Sorter}
use coreos_baremetal.Golang.Mac.{parse_mac, mac_string, invalid_address}
use coreos_baremetal.Storagepb.Json.{Group, RichGroup, Json, Fields, end}

-- The loop that copies a map entry by entry.
unfoldable pub copy_entries : Dict Text → Dict Text
copy_entries [] = []
copy_entries ((k, v) ∷ m) = (k, v) ∷ copy_entries m

-- `(*Group).Copy`
unfoldable pub copy_group : Group → Group
copy_group g = record {
  id = g.id;
  name = g.name;
  profile = g.profile;
  selector = copy_entries g.selector;
  metadata = g.metadata;
}

-- `labels == nil || labels[key] != val`
abbrev pub is_unmet : Option (Dict Text) → Text → Text → Bool
is_unmet none key val = true
is_unmet (some labels) key val = not (index labels key == val)

-- The loop of `(*Group).Matches` over the selector.
unfoldable pub matches_all : Option (Dict Text) → Dict Text → Bool
matches_all labels [] = true
matches_all labels ((key, val) ∷ sel) =
    if is_unmet labels key val then false else matches_all labels sel

-- `(*Group).Matches`
unfoldable pub matches : Group → Option (Dict Text) → Bool
matches g labels = matches_all labels g.selector

abbrev pub mac_key : Text
mac_key = text "mac"

-- The loop of `(*Group).Normalize`: on an error the entries already written stay written.
unfoldable pub normalize_entries : Dict Text → Dict Text × Option Error
normalize_entries [] = ([], none)
normalize_entries ((key, val) ∷ sel) =
    let (rest, e) = normalize_entries sel in
    if to_lower key == mac_key
    then (elim (parse_mac val) [
      | none ↦ ((key, val) ∷ sel, some (failure (invalid_address val)))
      | some hw ↦ ((key, mac_string hw) ∷ rest, e)
    ])
    else ((key, val) ∷ rest, e)

-- `(*Group).Normalize`: the group as it is left, and the error.
unfoldable pub normalize : Group → Group × Option Error
normalize g =
    (record g { selector = (normalize_entries g.selector).0 }, (normalize_entries g.selector).1)

-- `(*Group).AssertValid`
unfoldable pub assert_valid : Group → Option Error
assert_valid g =
    if g.id == [] then some id_required else if g.profile == [] then some profile_required else none

abbrev pub requirement : Text × Text → Text
requirement (key, value) = key ++ (b'=' ∷ value)

abbrev pub comma : Text
comma = b',' ∷ []

-- `(*Group).selectorString`
unfoldable pub selector_string : Sorter Text → Group → Text
selector_string sorter g = join (sorter.sort text_lt (map requirement g.selector)) comma

-- `ByReqs.Less`
unfoldable pub by_reqs_less : Sorter Text → Group → Group → Bool
by_reqs_less sorter g h =
    if eqb (length g.selector) (length h.selector)
    then text_lt (selector_string sorter g) (selector_string sorter h)
    else ltb (length g.selector) (length h.selector)

module _ (json : Json) where
  -- `(*Group).ToRichGroup`. The map is made empty, and filled from the metadata if there is any.
  unfoldable pub to_rich_group : Group → Result RichGroup
  to_rich_group g = do
    metadata ← elim g.metadata [
      | none ↦ ok (some end)
      | some data' ↦ json.unmarshal_object end data'
    ]
    ok (record {
      id = g.id;
      name = g.name;
      profile = g.profile;
      selector = g.selector;
      metadata = metadata;
    })

  -- `(*RichGroup).ToGroup`
  unfoldable pub to_group : RichGroup → Result Group
  to_group r = do
    metadata ← elim r.metadata [
      | none ↦ ok none
      | some fields ↦ json.marshal_object fields >>= λ data'. ok (some data')
    ]
    ok (record {
      id = r.id;
      name = r.name;
      profile = r.profile;
      selector = r.selector;
      metadata = metadata;
    })

  -- `ParseGroup`
  unfoldable pub parse_group : Text → Result Group
  parse_group data' = do
    rich ← json.unmarshal_group data'
    group ← to_group rich
    (normalize group).1 >> ok (normalize group).0
