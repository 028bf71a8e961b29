-- ===== src/Main.antt =====
-- cmd/bootcfg/main.go: the flags and their defaults, the checks of `main` in their order, and what
-- it starts. The file system, the network and the libraries that it calls are a record; `log.Fatal`
-- ends the run.
pub mod Serving
pub mod Defaults
use coreos_baremetal.Prelude.{Bool, true, false, not, ◌||◌, Option, none, some, [], if◌then◌else◌}
use coreos_baremetal.Prelude.Text.{Text, text, ◌==◌}
use coreos_baremetal.Golang.Errors.{Error, error_text, Result, ok, err}
use coreos_baremetal.Sign.Writer.{Signer}
use coreos_baremetal.Sign.Keys.{Openpgp, load_gpg_entity, gpg_signer, armored_gpg_signer}
use coreos_baremetal.Http.Routes.{Config}

pub record Flags : Type 0 where
  pub address : Text
  pub rpc_address : Text
  pub data_path : Text
  pub assets_path : Text
  pub log_level : Text
  pub cert_file : Text
  pub key_file : Text
  pub ca_file : Text
  pub key_ring_path : Text
  pub version : Bool
  pub help : Bool

-- The defaults of the flags.
abbrev pub default_flags : Flags
default_flags = record {
  address = text "127.0.0.1:8080";
  rpc_address = [];
  data_path = text "/var/lib/bootcfg";
  assets_path = text "/var/lib/bootcfg/assets";
  log_level = text "info";
  cert_file = text "/etc/bootcfg/server.crt";
  key_file = text "/etc/bootcfg/server.key";
  ca_file = text "/etc/bootcfg/ca.crt";
  key_ring_path = [];
  version = false;
  help = false;
}

-- What `main` asks of its surroundings.
pub record Environment : Type 1 where
  -- `flag.Parse`, from the defaults to what the command line says; `none` is its exit
  pub parse_flags : Flags → Option Flags
  -- `flagutil.SetFlagsFromEnv` for a prefix
  pub set_flags_from_env : Flags → Text → Result Flags
  -- `os.Getenv`
  pub getenv : Text → Text
  -- `url.Parse`, with the text that the URL prints as
  pub parse_url : Text → Result Text
  -- `os.Stat`: whether the file is a directory
  pub stat : Text → Result Bool
  pub parse_level : Text → Option Error
  pub open_file : Text → Result Text
  pub pgp : Openpgp
  pub listen : Text → Option Error
  -- `(*TLSInfo).ServerConfig` for the CA, certificate and key files
  pub server_config : Text → Text → Text → Option Error

-- How a run ends or goes on: `refused_flags` is the exit of the package flag, `fatal` is an exit
-- with a message, without the error that `%v` appends to it, `serving` the endpoints started.
pub data Run : Type 0 where
  printed_version printed_usage refused_flags : Run
  fatal : Text → Run
  serving : (http : Config) (data_path : Text) (rpc : Bool) → Run

-- `if err != nil { log.Fatal(...) }`
abbrev pub unless_error : Option Error → Text → Run → Run
unless_error none message run = run
unless_error (some e) message run = fatal message

abbrev pub stat_error : Result Bool → Option Error
stat_error (ok b) = none
stat_error (err e) = some e

-- `err == nil && finfo.IsDir()`
abbrev pub is_directory : Result Bool → Bool
is_directory (ok b) = b
is_directory (err e) = false

-- `err == nil && url.String() != ""`
abbrev pub is_address : Result Text → Bool
is_address (ok url) = not (url == [])
is_address (err e) = false

module _ (env : Environment) where
  -- The checks of the TLS files, made if there is an RPC address.
  unfoldable pub check_tls_files : Flags → Run → Run
  check_tls_files flags run =
      if flags.rpc_address == []
      then run
      else (unless_error (stat_error (env.stat flags.cert_file))
          (text "Provide a valid TLS server certificate with -cert-file")
          (unless_error (stat_error (env.stat flags.key_file))
            (text "Provide a valid TLS server key with -key-file")
            (unless_error (stat_error (env.stat flags.ca_file))
              (text "Provide a valid TLS certificate authority") run)))

  -- The gRPC server, if there is an RPC address.
  unfoldable pub start_rpc : Flags → (Bool → Run) → Run
  start_rpc flags next =
      if flags.rpc_address == []
      then next false
      else (unless_error (env.listen flags.rpc_address) (text "failed to start listening") (
          unless_error (env.server_config flags.ca_file flags.cert_file flags.key_file)
            (text "Invalid TLS credentials") (next true)))

  -- The two signers of the first key of the key ring, if a key ring is given.
  unfoldable pub load_signers : Flags → Text → (Option Signer → Option Signer → Run) → Run
  load_signers flags passphrase next =
      if flags.key_ring_path == []
      then next none none
      else (elim (load_gpg_entity env.pgp env.open_file flags.key_ring_path passphrase) [
        | err e ↦ fatal (error_text e)
        | ok entity ↦
            next (some (gpg_signer env.pgp entity)) (some (armored_gpg_signer env.pgp entity))
      ])

  -- `main` after the flags are parsed, up to the HTTP server, given the passphrase.
  unfoldable pub main : Flags → Text → Run
  main flags passphrase =
      if flags.version
      then printed_version
      else if flags.help
      then printed_usage
      else if not (is_address (env.parse_url flags.address))
      then fatal (text "A valid HTTP listen address is required")
      else if not (is_directory (env.stat flags.data_path))
      then fatal (text "A valid -data-path is required")
      else if not (flags.assets_path == [] || is_directory (env.stat flags.assets_path))
      then fatal (text "Provide a valid -assets-path or '' to disable asset serving")
      else check_tls_files flags (
          unless_error (env.parse_level flags.log_level) (text "invalid log-level") (
            load_signers flags passphrase λ signer armored. start_rpc flags λ rpc.
              serving
                (record {
                  assets_path = flags.assets_path;
                  signer = signer;
                  armored_signer = armored;
                })
                flags.data_path rpc))

  -- `main` with its flags
  unfoldable pub program : Run
  program = elim (env.parse_flags default_flags) [
    | none ↦ refused_flags
    | some parsed ↦ elim (env.set_flags_from_env parsed (text "BOOTCFG")) [
      | err e ↦ fatal (error_text e)
      | ok flags ↦ main flags (env.getenv (text "BOOTCFG_PASSPHRASE"))
    ]
  ]
