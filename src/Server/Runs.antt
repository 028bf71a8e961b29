-- ===== src/Server/Runs.antt =====
-- Runs of bootcfg/server/server.go: a client puts resources one after the other, and gets them.
-- `View` is the abstract store that such a run fills: what each kind and name reads as, where that
-- is known.
pub mod Keys
pub mod Written
pub mod Refined
use coreos_baremetal.Prelude.{
  Bool, true, false, Option, none, some, List, [], ◌∷◌, ◌&&◌, if◌then◌else◌,
}
use coreos_baremetal.Prelude.Text.{Text, ◌==◌}
use coreos_baremetal.Golang.Errors.{Result, ok, err, ◌>>=◌, ◌>>◌}
use coreos_baremetal.Storagepb.Json.{Group, Profile, Json}
use coreos_baremetal.Storagepb.Group.{assert_valid, to_rich_group, parse_group}
use coreos_baremetal.Storagepb.Profile.{assert_valid_profile}
use coreos_baremetal.Server.{Core}

-- The four kinds of resources that can be put.
pub data Kind : Type 0 where
  groups profiles ignition cloud : Kind

pub data Resource : Type 0 where
  group : Group → Resource
  profile : Profile → Resource
  ignition_template cloud_template : (name config : Text) → Resource

abbrev pub kind_of : Resource → Kind
kind_of (group g) = groups
kind_of (profile p) = profiles
kind_of (ignition_template name config) = ignition
kind_of (cloud_template name config) = cloud

abbrev pub name_of : Resource → Text
name_of (group g) = g.id
name_of (profile p) = p.id
name_of (ignition_template name config) = name
name_of (cloud_template name config) = name

abbrev pub succeeded : {A : Type 0} → Result A → Bool
succeeded (ok a) = true
succeeded (err e) = false

module _ (core : Core) where
  open core use {State}

  abbrev accepted : {A : Type 0} → State × Result A → State × Bool
  accepted (s, r) = (s, succeeded r)

  -- One put, with whether it succeeded.
  unfoldable pub put : State → Resource → State × Bool
  put s (group g) = accepted (core.group_put s g)
  put s (profile p) = accepted (core.profile_put s p)
  put s (ignition_template name config) = accepted (core.ignition_put s name config)
  put s (cloud_template name config) = accepted (core.cloud_put s name config)

  -- The state after puts, of which any may fail.
  unfoldable pub run : State → List Resource → State
  run s [] = s
  run s (r ∷ rest) = run (put s r).0 rest

  -- One get.
  unfoldable pub get : State → Kind → Text → Result Resource
  get s groups id = do g ← core.group_get s id; ok (group g)
  get s profiles id = do p ← core.profile_get s id; ok (profile p)
  get s ignition name = do config ← core.ignition_get s name; ok (ignition_template name config)
  get s cloud name = do config ← core.cloud_get s name; ok (cloud_template name config)

unfoldable pub same_kind : Kind → Kind → Bool
same_kind groups groups = true
same_kind profiles profiles = true
same_kind ignition ignition = true
same_kind cloud cloud = true
same_kind _ _ = false

abbrev pub same_key : Kind → Text → Kind → Text → Bool
same_key k name l other = same_kind k l && name == other

module _ (json : Json) where
  -- The text that a valid resource is stored as.
  unfoldable pub encode : Resource → Result Text
  encode (group g) = assert_valid g >> (to_rich_group json g >>= json.marshal_group)
  encode (profile p) = assert_valid_profile p >> json.marshal_profile p
  encode (ignition_template name config) = ok config
  encode (cloud_template name config) = ok config

  -- The resource that a text under a kind and name stands for.
  unfoldable pub decode : Kind → Text → Text → Result Resource
  decode groups id data' = do g ← parse_group json data'; ok (group g)
  decode profiles id data' = do
    p ← json.unmarshal_profile data'
    assert_valid_profile p >> ok (profile p)
  decode ignition name data' = ok (ignition_template name data')
  decode cloud name data' = ok (cloud_template name data')

  -- The text under each kind and name, where it is known.
  abbrev pub View : Type 0
  View = Kind → Text → Option Text

  -- A put that was refused changes nothing; one that was written, or whose write failed, concerns
  -- its own kind and name only.
  abbrev pub written : View → Kind → Text → Result Text → Bool → View
  written view k name (err e) success l other = view l other
  written view k name (ok data') success l other =
      if same_key k name l other then (if success then some data' else none) else view l other

  -- What a run makes of a view.
  unfoldable pub replay : (core : Core) → core.State → List Resource → View → View
  replay core s [] view = view
  replay core s (r ∷ rest) view =
      replay core (put core s r).0 rest
        (written view (kind_of r) (name_of r) (encode r) (put core s r).1)
