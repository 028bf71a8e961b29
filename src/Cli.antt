-- ===== src/Cli.antt =====
-- bootcfg/cli: the commands of `bootcmd`, once cobra has parsed the command line. A command talks to
-- the gRPC services of `Rpc`; what it prints is the groups or profiles that it shows, without the
-- layout of the table. What cobra, the file system and the client library answer is a record.
pub mod Sent
pub mod Created
pub mod Root
pub mod Commands
pub mod Changes
use coreos_baremetal.Prelude.{
  ℕ, Bool, true, false, ◌||◌, not, eqb, Option, none, some, List, [], ◌∷◌, length, if◌then◌else◌,
}
use coreos_baremetal.Prelude.Text.{Text, text, ◌==◌}
use coreos_baremetal.Golang.Errors.{Result, ok, err, ◌>>=◌, Error}
use coreos_baremetal.Golang.FilePath.{base}
use coreos_baremetal.Storagepb.Json.{Group, Profile, Json}
use coreos_baremetal.Storagepb.Group.{parse_group}
use coreos_baremetal.Storagepb.Profile.{parse_profile}
use coreos_baremetal.Server.{Core}
use coreos_baremetal.Rpc.{Status}
use coreos_baremetal.Rpc
use coreos_baremetal.Tlsutil.{TlsInfo}

-- The exit codes.
abbrev pub exit_error : ℕ
exit_error = 1

abbrev pub exit_bad_connection : ℕ
exit_bad_connection = 2

abbrev pub exit_bad_args : ℕ
exit_bad_args = 128

-- How a command ends: with its help, silently, with an exit code, with a panic, or with what it
-- shows.
pub data Outcome : Type 0 where
  helped returned panicked : Outcome
  exited : ℕ → Outcome
  showed_group : Group → Outcome
  showed_groups : List Group → Outcome
  showed_profile : Profile → Outcome
  showed_profiles : List Profile → Outcome

pub record Command : Type 1 where
  -- `cmd.Flags().GetStringSlice` and `cmd.Flags().GetString`
  pub get_string_slice : Text → Result (List Text)
  pub get_string : Text → Result Text
  pub read_file : Text → Result Text
  -- `(*TLSInfo).ClientConfig` and `client.New`
  pub Tls : Type 0
  pub client_config : TlsInfo → Result Tls
  pub new_client : List Text → Tls → Option Error

-- `if err != nil { exitWithError(code, err) }`
abbrev pub or_exit {ℓ κ} :
    {A : Type ℓ} {S : Type κ} → ℕ → S → Result A → (A → S × Outcome) → S × Outcome
or_exit code s (ok a) next = next a
or_exit code s (err e) next = (s, exited code)

abbrev pub status_outcome : Option Status → Outcome
status_outcome none = returned
status_outcome (some status) = exited exit_error

module _ (cmd : Command) (json : Json) (core : Core) where
  open core use {State}

  -- `endpointsFromCmd`
  unfoldable pub endpoints_from_cmd : State → (List Text → State × Outcome) → State × Outcome
  endpoints_from_cmd s next = or_exit exit_bad_args s (cmd.get_string_slice (text "endpoints")) next

  -- `tlsInfoFromCmd`
  unfoldable pub tls_info_from_cmd : State → (TlsInfo → State × Outcome) → State × Outcome
  tls_info_from_cmd s next = or_exit exit_bad_args s (cmd.get_string (text "ca-file")) λ ca_file.
      or_exit exit_bad_args s (cmd.get_string (text "cert-file")) λ cert_file.
        or_exit exit_bad_args s (cmd.get_string (text "key-file")) λ key_file.
          next (record { ca_file = ca_file; cert_file = cert_file; key_file = key_file })

  -- `mustClientFromCmd`
  unfoldable pub must_client_from_cmd : State → State × Outcome → State × Outcome
  must_client_from_cmd s next = endpoints_from_cmd s λ endpoints. tls_info_from_cmd s λ info.
      or_exit exit_bad_args s (cmd.client_config info) λ tls. elim (cmd.new_client endpoints tls) [
        | none ↦ next
        | some e ↦ (s, exited exit_bad_connection)
      ]

  -- `loadGroup`
  unfoldable pub load_group : Text → Result Group
  load_group filename = do data' ← cmd.read_file filename; parse_group json data'

  -- `loadProfile`
  unfoldable pub load_profile : Text → Result Profile
  load_profile filename = do data' ← cmd.read_file filename; parse_profile json data'

  -- The three `create` commands share their first tests: `validateArgs` refuses any argument, and
  -- its error is not shown.
  unfoldable pub create_command : State → Text → List Text → State × Outcome → State × Outcome
  create_command s filename args next =
      if eqb (length filename) 0
      then (s, helped)
      else if not (eqb (length args) 0)
      then (s, returned)
      else must_client_from_cmd s next

  -- `runGroupPutCmd`
  unfoldable pub run_group_put : State → Text → List Text → State × Outcome
  run_group_put s filename args = create_command s filename args (
      or_exit exit_error s (load_group filename)
        λ group. (let (t, status) = Rpc.group_put core s group in (t, status_outcome status)))

  -- `runProfilePutCmd`
  unfoldable pub run_profile_put : State → Text → List Text → State × Outcome
  run_profile_put s filename args = create_command s filename args (
      or_exit exit_error s (load_profile filename)
        λ profile. (let (t, status) = Rpc.profile_put core s profile in (t, status_outcome status)))

  -- `runIgnitionPutCmd`
  unfoldable pub run_ignition_put : State → Text → List Text → State × Outcome
  run_ignition_put s filename args = create_command s filename args (
      or_exit exit_error s (cmd.read_file filename) λ config.
        (let (t, status) = Rpc.ignition_put core s (base filename) config in
          (t, status_outcome status)))

  -- What a describe or list command shows of a response: nothing if there is an error.
  abbrev pub shown : {A : Type 0} → Option A × Option Status → (A → Outcome) → Outcome
  shown (some a, none) show = show a
  shown (none, none) show = panicked
  shown (a, some status) show = returned

  -- `runGroupDescribeCmd`
  unfoldable pub run_group_describe : State → List Text → State × Outcome
  run_group_describe s (id ∷ []) =
      must_client_from_cmd s (s, shown (Rpc.group_get core s id) showed_group)
  run_group_describe s _ = (s, helped)

  -- `runGroupListCmd`
  unfoldable pub run_group_list : State → State × Outcome
  run_group_list s = must_client_from_cmd s (s, shown (Rpc.group_list core s) showed_groups)

  -- A profile is shown with its boot settings, whose fields are read through a pointer.
  abbrev pub show_profile : Profile → Outcome
  show_profile p = elim p.boot [ none ↦ panicked | some boot ↦ showed_profile p ]

  -- `runProfileDescribeCmd`
  unfoldable pub run_profile_describe : State → List Text → State × Outcome
  run_profile_describe s (id ∷ []) =
      must_client_from_cmd s (s, shown (Rpc.profile_get core s id) show_profile)
  run_profile_describe s _ = (s, helped)

  -- `runProfileListCmd`
  unfoldable pub run_profile_list : State → State × Outcome
  run_profile_list s = must_client_from_cmd s (s, shown (Rpc.profile_list core s) showed_profiles)
