-- ===== src/Tests/Groups.antt =====
-- Groups: matching, ordering, normalizing and selecting.
use coreos_baremetal.Golang.Sort.{IsLess}
use mathlib.Core.List.Perm
use coreos_baremetal.Prelude.{
  ℕ, ◌≡◌, ◌↔◌, refl, true, false, Option, none, some, List, [], ◌∷◌, All,
}
use coreos_baremetal.Prelude.Text.{Text, text, ◌==◌, to_lower, join}
use coreos_baremetal.Prelude.Text.Order.{text_lt}
use coreos_baremetal.Golang.Dict.{Dict, lookup, keys}
use coreos_baremetal.Golang.Mac.{
  hex_value, hex_pair, read_pairs, read_quads, parse_by_separator, parse_mac, hex_digit, mac_string,
}
use coreos_baremetal.Golang.Sort.Insertion.{insertion_sort, insertion_sorter}
use coreos_baremetal.Storagepb.Json.{Group}
use coreos_baremetal.Storagepb.Group.{
  matches_all, matches, normalize_entries, normalize, selector_string, by_reqs_less,
}
use coreos_baremetal.Golang.Http.{Request}
use coreos_baremetal.Http.Parse.{labels_from_request}
use coreos_baremetal.Http.Parse.Spelling.{mac_matches}
use coreos_baremetal.Storagepb.Group.Matching.{IsMet, matches_iff}
use coreos_baremetal.Storagepb.Group.Selectors.{selector_string-perm, by_reqs_less-IsLess}
use coreos_baremetal.Storagepb.Group.Normal.{
  IsReadable, normalize-IsReadable, IsNormal, normalize-IsNormal,
}
use coreos_baremetal.Tests.Samples.{region, node}

abbrev labels : Option (Dict Text)
labels = some ((text "mac", text "x") ∷ (text "region", text "a") ∷ [])

mac_forms :
    (parse_mac (text "52-DA-00-89-D8-10") ≡ parse_mac (text "52:da:00:89:d8:10"))
    × (parse_mac (text "52da.0089.d810") ≡ parse_mac (text "52:da:00:89:d8:10"))
    × (parse_mac (text "not-a-mac") ≡ none)
    × (parse_mac (text "52:da:00:89:d8") ≡ none)
unfolding text hex_value hex_pair read_pairs read_quads parse_by_separator parse_mac
mac_forms = (refl, refl, refl, refl)

abbrev address : List ℕ
address = 82 ∷ 218 ∷ 0 ∷ 137 ∷ 216 ∷ 16 ∷ []

mac_printed : mac_string address ≡ text "52:da:00:89:d8:10"
unfolding text mac_string hex_digit
mac_printed = refl

matches_tests :
    (matches region labels ≡ true) × (matches node labels ≡ false) × (matches region none ≡ false)
unfolding text matches matches_all lookup ◌==◌
matches_tests = (refl, refl, refl)

matches_iff_example : (matches region labels ≡ true) ↔ All (IsMet labels) region.selector
matches_iff_example = matches_iff region labels

abbrev swapped : Group
swapped = record node {
  selector = (text "MAC", text "52-DA-00-89-D8-10") ∷ (text "region", text "a") ∷ [];
}

selector_string_test :
    selector_string insertion_sorter swapped ≡ text "MAC=52-DA-00-89-D8-10,region=a"
unfolding text selector_string insertion_sort text_lt join
selector_string_test = refl

selector_string-perm_example :
    selector_string insertion_sorter node ≡ selector_string insertion_sorter swapped
selector_string-perm_example =
    selector_string-perm insertion_sorter insertion_sorter node swapped (Perm.swap _ _ [])

normalized : Group
unfolding normalize
normalized = (normalize node).0

normalize_test :
    (normalize node).0.selector
    ≡ (text "region", text "a") ∷ (text "MAC", text "52:da:00:89:d8:10") ∷ []
unfolding text normalize normalize_entries to_lower ◌==◌ parse_mac parse_by_separator read_pairs
    hex_pair hex_value mac_string hex_digit
normalize_test = refl

normalize-IsNormal_example :
    (keys (normalize node).0.selector ≡ keys node.selector)
    × All IsNormal (normalize node).0.selector
unfolding text normalize normalize_entries to_lower ◌==◌ parse_mac parse_by_separator read_pairs
    hex_pair hex_value mac_string hex_digit
normalize-IsNormal_example = normalize-IsNormal node refl

normalize-IsReadable_example : ((normalize node).1 ≡ none) ↔ All IsReadable node.selector
normalize-IsReadable_example = normalize-IsReadable node

by_reqs_less-IsLess_example : IsLess (by_reqs_less insertion_sorter)
by_reqs_less-IsLess_example = by_reqs_less-IsLess insertion_sorter

abbrev by_mac : Group
by_mac = record region { selector = (text "mac", text "52-DA-00-89-D8-10") ∷ [] }

-- The request spells the address of the selector in another way.
abbrev spelled : Request
spelled = record {
  method = text "GET";
  path = text "/ipxe";
  query = (text "mac", text "52da.0089.d810" ∷ []) ∷ [];
  raw_query = text "mac=52da.0089.d810";
  header = [];
}

mac_matches_example :
    (matches (normalize by_mac).0 (some (labels_from_request spelled)) ≡ true)
    ↔ (parse_mac (text "52da.0089.d810") ≡ some address)
unfolding text to_lower ◌==◌ lookup parse_mac parse_by_separator read_pairs hex_pair hex_value
mac_matches_example =
    mac_matches by_mac (text "mac") (text "52-DA-00-89-D8-10") (text "52da.0089.d810") [] address
      spelled refl refl refl refl
