-- ===== src/Storagepb/Json.antt =====
-- The data of bootcfg/storage/storagepb/storage.pb.go and the user's `RichGroup`, with the part of
-- `encoding/json` that the program calls. A `nil` byte slice or map that the code tests is `none`;
-- elsewhere a `nil` map is read like an empty one.
use coreos_baremetal.Prelude.{Bool, Option, List}
use coreos_baremetal.Prelude.Text.{Text}
use coreos_baremetal.Golang.Errors.{Result}
use coreos_baremetal.Golang.Dict.{Dict}

-- What `json.Unmarshal` stores in an `interface{}`. A `float64` is the text that `%v` prints of it.
mutual
  pub data Value : Type 0 where
    null : Value
    boolean : Bool → Value
    number : Text → Value
    string : Text → Value
    array : Values → Value
    object : Fields → Value
    -- a Go map of strings, which no decoder makes
    string_map : Dict Text → Value

  pub data Values : Type 0 where
    nil : Values
    cons : Value → Values → Values

  pub data Fields : Type 0 where
    end : Fields
    field : Text → Value → Fields → Fields

pub record Group : Type 0 where
  pub id : Text
  pub name : Text
  pub profile : Text
  pub selector : Dict Text
  pub metadata : Option Text

pub record NetBoot : Type 0 where
  pub kernel : Text
  pub initrd : List Text
  pub cmdline : Dict Text

pub record Profile : Type 0 where
  pub id : Text
  pub name : Text
  pub ignition_id : Text
  pub cloud_id : Text
  pub boot : Option NetBoot
  pub generic_id : Text

pub record RichGroup : Type 0 where
  pub id : Text
  pub name : Text
  pub profile : Text
  pub selector : Dict Text
  pub metadata : Option Fields

-- `encoding/json` at the types at which the program calls it.
pub record Json : Type 0 where
  pub unmarshal_group : Text → Result RichGroup
  pub marshal_group : RichGroup → Result Text
  pub unmarshal_profile : Text → Result Profile
  pub marshal_profile : Profile → Result Text
  pub unmarshal_object : Fields → Text → Result (Option Fields)
  pub marshal_object : Fields → Result Text
  pub marshal_boot : Option NetBoot → Result Text
