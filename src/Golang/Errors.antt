-- ===== src/Golang/Errors.antt =====
-- Go's `(value, error)` results. The constructors of `Error` are the error variables of the
-- program; `failure` is an error that a library made, with its message.
use mathlib.Core.Path.{◌≡◌, refl}
use coreos_baremetal.Prelude.{◌⊎◌, inl, inr, Option, none, some}
use coreos_baremetal.Prelude.Text.{Text, text}

pub data Error : Type 0 where
  -- storagepb/group.go, storagepb/profile.go
  profile_required id_required : Error
  -- storage/fs.go
  invalid_file_path_character : Error
  -- server/server.go
  no_matching_group no_matching_profile : Error
  -- http/context.go
  no_profile_from_context no_group_from_context : Error
  -- sign/signer.go
  empty_keyring missing_passphrase : Error
  -- client/client.go
  no_endpoints no_tls_config : Error
  -- storage/storage.go, storage/testfakes/broken_store.go
  group_not_found profile_not_found intentional : Error
  failure : Text → Error

pub data Result {ℓ} (A : Type ℓ) : Type ℓ where
  ok : A → Result A
  err : Error → Result A

infixl 5 ◌>>=◌ ◌>>◌
abbrev pub ◌>>=◌ {ℓ κ} : {A : Type ℓ} {B : Type κ} → Result A → (A → Result B) → Result B
ok x >>= next = next x
err x >>= next = err x

-- A step that gives only an error value, `nil` or not.
abbrev pub ◌>>◌ {ℓ} : {B : Type ℓ} → Option Error → Result B → Result B
none >> k = k
some e >> k = err e

pub Result-cases {ℓ} :
    {A : Type ℓ} (r : Result A) → ((a : A) × (r ≡ ok a)) ⊎ ((e : Error) × (r ≡ err e))
Result-cases (ok a) = inl (a, refl)
Result-cases (err e) = inr (e, refl)

pub >>=-eq-ok {ℓ κ} :
    {A : Type ℓ} {B : Type κ} {b : B} (r : Result A) (next : A → Result B)
    → (r >>= next) ≡ ok b
    → (a : A) × (r ≡ ok a) × (next a ≡ ok b)
>>=-eq-ok (ok a) next e = (a, refl, e)
>>=-eq-ok (err x) next e = cc

pub >>-eq-ok {ℓ} :
    {B : Type ℓ} (m : Option Error) (k : Result B) {b : B}
    → (m >> k) ≡ ok b
    → (m ≡ none) × (k ≡ ok b)
>>-eq-ok none k h = (refl, h)
>>-eq-ok (some e) k h = cc

pub >>=-ok {ℓ} : {A : Type ℓ} (m : Result A) → (m >>= λ a. ok a) ≡ m
>>=-ok (ok a) = refl
>>=-ok (err e) = refl

-- `err.Error()`
unfoldable pub error_text : Error → Text
error_text profile_required = text "Group requires a Profile"
error_text id_required = text "Id is required"
error_text invalid_file_path_character = text "invalid character in file path"
error_text no_matching_group = text "bootcfg: No matching Group"
error_text no_matching_profile = text "bootcfg: No matching Profile"
error_text no_profile_from_context = text "api: Context missing a Profile"
error_text no_group_from_context = text "api: Context missing a Group"
error_text empty_keyring = text "sign: provided key ring file contained no keys"
error_text missing_passphrase = text "sign: missing passphrase for encrypted private key"
error_text no_endpoints = text "client: No endpoints provided"
error_text no_tls_config = text "client: No TLS Config provided"
error_text group_not_found = text "storage: No Group found"
error_text profile_not_found = text "storage: No Profile found"
error_text intentional = text "store: error for testing purposes"
error_text (failure message) = message
