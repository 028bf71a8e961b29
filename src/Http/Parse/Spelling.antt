-- ===== src/Http/Parse/Spelling.antt =====
-- MAC addresses in the query of bootcfg/http/parse.go and in the selector of
-- bootcfg/storage/storagepb/group.go, however either is spelled.
use mathlib.Core.Path.{subst}
use coreos_baremetal.Prelude.{
  ℕ, ◌≡◌, ◌≢◌, ◌↔◌, sym, ap, ◌∙◌, refl, true, Option, none, some, List, [], ◌∷◌, inl, inr,
  Option-cases, All,
}
use coreos_baremetal.Prelude.Text.{Text, ==_iff, to_lower}
use coreos_baremetal.Golang.Dict.{Dict, lookup}
use coreos_baremetal.Golang.Mac.{parse_mac, mac_string}
use coreos_baremetal.Golang.Mac.Parsed.{parse_mac-normal}
use coreos_baremetal.Golang.Http.{Request}
use coreos_baremetal.Storagepb.Json.{Group}
use coreos_baremetal.Storagepb.Group.{mac_key, normalize, normalize_entries, matches}
use coreos_baremetal.Storagepb.Group.Matching.{matches_iff, IsMet}
use coreos_baremetal.Http.Parse.{labels_from_request, get}
use coreos_baremetal.Http.Parse.Labels.{label_of, lookup-labels_from_request}

-- An address has one printed form, and no other address has it.
mac_string_injective :
    (v u : Text) (m n : List ℕ)
    → parse_mac v ≡ some m
    → parse_mac u ≡ some n
    → mac_string m ≡ mac_string n
    → m ≡ n
mac_string_injective v u m n p q e =
    let both : some m ≡ some n =
      sym (parse_mac-normal v m p) ∙ ap parse_mac e ∙ parse_mac-normal u n q in
    cc

parse_mac-nil : parse_mac [] ≡ none
unfolding parse_mac
parse_mac-nil = refl

mac_string_ne_nil : (v : Text) (m : List ℕ) → parse_mac v ≡ some m → [] ≢ mac_string m
mac_string_ne_nil v m p e =
    absurd
      (let both : none ≡ some m = sym parse_mac-nil ∙ ap parse_mac e ∙ parse_mac-normal v m p in cc)

normalized :
    (g : Group) (key v : Text) (m : List ℕ)
    → g.selector ≡ (key, v) ∷ []
    → to_lower key ≡ mac_key
    → parse_mac v ≡ some m
    → (normalize g).0.selector ≡ (key, mac_string m) ∷ []
unfolding normalize normalize_entries
normalized g key v m e k p = rw (e, normalize_entries, (==_iff (to_lower key) mac_key).1 k, p) refl

get-first :
    (values : Dict (List Text)) (key u : Text) (rest : List Text)
    → lookup key values ≡ some (u ∷ rest)
    → get values key ≡ u
unfolding get
get-first values key u rest q = rw (q, get) refl

-- The label of a key `mac` is the printed form of the address, if there is one.
lookup-mac :
    (req : Request) (key u : Text) (rest : List Text)
    → to_lower key ≡ mac_key
    → lookup key req.query ≡ some (u ∷ rest)
    → lookup key (labels_from_request req)
      ≡ (elim (parse_mac u) [ none ↦ none | some hw ↦ some (mac_string hw) ])
unfolding label_of
lookup-mac req key u rest k q =
    lookup-labels_from_request req key
    ∙ rw (q, (==_iff (to_lower key) mac_key).1 k, get-first req.query key u rest q) refl

-- An address that is printed as `m` is, is `m`.
met_iff :
    (u v : Text) (m : List ℕ) (label : Option Text)
    → parse_mac v ≡ some m
    → label ≡ (elim (parse_mac u) [ none ↦ none | some hw ↦ some (mac_string hw) ])
    → ((elim label [ none ↦ [] | some x ↦ x ]) ≡ mac_string m) ↔ (parse_mac u ≡ some m)
met_iff u v m label p l = elim (Option-cases (parse_mac u)) [
  | inl n ↦
      let gone : label ≡ none = l ∙ rw (n) refl in
      (λ h. absurd (mac_string_ne_nil v m p (rw (gone) at h)), λ h. cc)
  | inr (hw, n) ↦
      let found : label ≡ some (mac_string hw) = l ∙ rw (n) refl in
      (
        λ h. n ∙ ap some (mac_string_injective u v hw m n p (rw (found) at h)),
        λ h.
            let both : some hw ≡ some m = sym n ∙ h in
            let same : hw ≡ m = cc in rw (found) (ap mac_string same),
      )
]

-- The normalized form of a group whose only requirement is a MAC address is matched by exactly the
-- requests that give the same address under the same key, however either is spelled; text that is
-- no address matches nothing.
pub mac_matches :
    (g : Group) (key v u : Text) (rest : List Text) (m : List ℕ) (req : Request)
    → g.selector ≡ (key, v) ∷ []
    → to_lower key ≡ mac_key
    → parse_mac v ≡ some m
    → lookup key req.query ≡ some (u ∷ rest)
    → (matches (normalize g).0 (some (labels_from_request req)) ≡ true) ↔ (parse_mac u ≡ some m)
mac_matches g key v u rest m req e k p q =
    let labels = some (labels_from_request req) in
    let (to, from) = matches_iff (normalize g).0 labels in
    let (met, unmet) =
      met_iff u v m (lookup key (labels_from_request req)) p (lookup-mac req key u rest k q) in
    let sel = normalized g key v m e k p in
    (
      λ h. met (subst (All (IsMet labels)) sel (to h)).0,
      λ h. from (subst (All (IsMet labels)) (sym sel) (unmet h, tt)),
    )
