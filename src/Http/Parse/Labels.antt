-- ===== src/Http/Parse/Labels.antt =====
-- The labels of a request, by key (bootcfg/http/parse.go).
use coreos_baremetal.Prelude.{
  ◌≡◌, refl, arith, inl, inr, Bool-cases, Option-cases, Option, none, some, List, [], ◌∷◌,
  if◌then◌else◌, is_some,
}
use coreos_baremetal.Prelude.Text.{Text, ◌==◌, ==_iff, to_lower}
use coreos_baremetal.Golang.Dict.{
  Dict, lookup, insert, lookup-insert, keys, contains, contains-keys,
}
use coreos_baremetal.Golang.Mac.{parse_mac, mac_string}
use coreos_baremetal.Golang.Http.{Request}
use coreos_baremetal.Storagepb.Group.{mac_key}
use coreos_baremetal.Http.Parse.{get, collect_labels, labels_from_request}

-- The label that a key of the query gives: its first value, which for a MAC address is rewritten
-- in its printed form, and dropped if it does not parse.
unfoldable pub label_of : Dict (List Text) → Text → Option Text
label_of values key =
    if to_lower key == mac_key
    then (elim (parse_mac (get values key)) [ none ↦ none | some hw ↦ some (mac_string hw) ])
    else some (get values key)

abbrev pub or_else : Option Text → Option Text → Option Text
or_else none b = b
or_else (some a) b = some a

pub lookup-collect_labels :
    (values : Dict (List Text)) (ks : List Text) (labels : Dict Text) (key : Text)
    → lookup key (collect_labels values ks labels) ≡ (
        if contains key ks
        then or_else (label_of values key) (lookup key labels)
        else lookup key labels)
unfolding collect_labels contains label_of
lookup-collect_labels values [] labels key = refl
lookup-collect_labels values (k ∷ ks) labels key = elim (Bool-cases (to_lower k == mac_key)) [
  | inl p ↦ elim (Option-cases (parse_mac (get values k))) [
    | inl e ↦ ground (
      arith,
      ==_iff k key,
      lookup-collect_labels values ks labels key,
      lookup-insert k key (get values k) labels,
    )
    | inr (hw, e) ↦ ground (
      arith,
      ==_iff k key,
      lookup-collect_labels values ks (insert k (mac_string hw) labels) key,
      lookup-insert k key (mac_string hw) labels,
    )
  ]
  | inr p ↦ ground (
    arith,
    ==_iff k key,
    lookup-collect_labels values ks (insert k (get values k) labels) key,
    lookup-insert k key (get values k) labels,
  )
]

module _ (req : Request) (key : Text) where
  -- A key has a label exactly when the query has the key, and the label is the key's first value;
  -- under `mac`, in upper or lower case, it is the address in printed form, and there is none if
  -- it does not parse.
  pub lookup-labels_from_request :
      lookup key (labels_from_request req)
      ≡ (if is_some (lookup key req.query) then label_of req.query key else none)
  unfolding labels_from_request lookup
  lookup-labels_from_request =
      ground (
        arith,
        lookup-collect_labels req.query (keys req.query) [] key,
        contains-keys key req.query,
      )
