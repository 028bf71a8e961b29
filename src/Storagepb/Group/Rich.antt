-- ===== src/Storagepb/Group/Rich.antt =====
-- `ToRichGroup`, `ToGroup` and `ParseGroup`
use coreos_baremetal.Prelude.{◌≡◌, Option-cases, inl, inr, Option, none, some, arith, All}
use coreos_baremetal.Prelude.Text.{Text}
use coreos_baremetal.Golang.Errors.{ok, >>=-eq-ok, >>-eq-ok, Result-cases}
use coreos_baremetal.Storagepb.Json.{Group, RichGroup, Json, Fields, end}
use coreos_baremetal.Storagepb.Group.{to_group, to_rich_group, parse_group, normalize}
use coreos_baremetal.Storagepb.Group.Normal.{IsNormal, normalize-IsNormal}

-- The fields that a `RichGroup` with no metadata map stands for.
abbrev pub fields_of : Option Fields → Fields
fields_of none = end
fields_of (some fields) = fields

-- What `encoding/json` promises of objects: what it wrote, it reads back into an empty map.
abbrev pub ReadsBack : Json → Type 0
ReadsBack json =
    (fields : Fields) (data' : Text)
    → json.marshal_object fields ≡ ok data'
    → json.unmarshal_object end data' ≡ ok (some fields)

module _ (json : Json) where
  -- Where the codec reads back the objects that it wrote, a rich group that is converted without
  -- an error and converted back keeps every field; absent metadata comes back as an empty map.
  pub to_rich_group-to_group :
      ReadsBack json
      → (r : RichGroup) (g : Group) → to_group json r ≡ ok g
      → to_rich_group json g ≡ ok (record r { metadata = some (fields_of r.metadata) })
  unfolding to_group to_rich_group
  to_rich_group-to_group law r g h = elim (Option-cases r.metadata) [
    | inl e ↦ ground arith
    | inr (fields, e) ↦ elim (Result-cases (json.marshal_object fields)) [
      | inl (data', p) ↦ ground (arith, law fields data' p)
      | inr (x, p) ↦ ground arith
    ]
  ]

  -- A parsed group is normalized: every MAC address of its selector is in printed form.
  pub parse_group-IsNormal :
      (data' : Text) (g : Group) → parse_group json data' ≡ ok g → All IsNormal g.selector
  unfolding parse_group
  parse_group-IsNormal data' g h =
      let (rich, p, e) = >>=-eq-ok (json.unmarshal_group data') _ h in
      let (raw, q, t) = >>=-eq-ok (to_group json rich) _ e in
      let (ok', u) = >>-eq-ok (normalize raw).1 _ t in
      ground (arith, (normalize-IsNormal raw ok').1)
