-- ===== src/Tests/Running.antt =====
-- Keys, RPC, the client, TLS and the start of the program, at concrete inputs.
use coreos_baremetal.Cli.{Command}
use coreos_baremetal.Prelude.{
  ◌≡◌, ◌⊎◌, refl, sym, true, false, none, some, Bool, Option, List, [], ◌∷◌, ◌&&◌, ◌<◌, length,
  if◌then◌else◌, arith,
}
use coreos_baremetal.Prelude.Text.{Text, text, ◌==◌}
use coreos_baremetal.Rpc.{select_profile, status_no_group, status_no_profile}
use coreos_baremetal.Server.{new_server}
use coreos_baremetal.Storagepb.Json.{Profile}
use coreos_baremetal.Tests.Samples.{sorts}
use coreos_baremetal.Golang.Errors.{ok, err, Result, failure}
use coreos_baremetal.Testfakes.{empty_store}
use coreos_baremetal.Sign.Keys.{
  Openpgp, load_gpg_entity, load_gpg_entity_lem, unlock_first, unlock_key_ring_entity, gpg_signer,
  armored_gpg_signer,
}
use coreos_baremetal.Rpc.Codes.{select_profile_codes}
use coreos_baremetal.Client.{Grpc, Config, client_of, new}
use coreos_baremetal.Client.Dialing.{new-answered}
use coreos_baremetal.Tlsutil.{
  X509, TlsInfo, TlsConfig, server_config, new_cert_pool, new_cert_pool-total, add_files, add_certs,
  require_and_verify_client_cert, version_tls12,
}
use coreos_baremetal.Http.Routes
use coreos_baremetal.Main.{
  Flags, Environment, main, serving, is_directory, check_tls_files, load_signers, start_rpc,
  program,
}
use coreos_baremetal.Main.Defaults.{default_serving}
use coreos_baremetal.Main.Serving.{Signers, TlsFiles, RpcStart, main_serving}

-- A key is whether it is encrypted; every passphrase opens it.
abbrev pgp : Openpgp
pgp = record {
  Entity = Bool;
  read_key_ring = λ ring. ok (true ∷ []);
  has_private_key = λ entity. true;
  is_encrypted = λ entity. entity;
  decrypt = λ entity passphrase. ok false;
  detach_sign_text = λ entity message. ok message;
  armored_detach_sign_text = λ entity message. ok message;
}

opens :
    (entity opened : Bool) (passphrase : Text)
    → pgp.decrypt entity passphrase ≡ ok opened
    → pgp.is_encrypted opened ≡ false
opens entity opened passphrase h = cc

load_gpg_entity_lem_example : (true && false) ≡ false
unfolding load_gpg_entity unlock_key_ring_entity unlock_first text ◌==◌
load_gpg_entity_lem_example =
    load_gpg_entity_lem pgp opens (λ path. ok path) (text "ring") (text "secret") false refl

select_profile_codes_example :
    ((profile : Profile) × (select_profile (new_server empty_store sorts) tt none
        ≡ (some profile, none)))
    ⊎ ((select_profile (new_server empty_store sorts) tt none ≡ (none, some status_no_group))
        ⊎ (select_profile (new_server empty_store sorts) tt none ≡ (none, some status_no_profile)))
select_profile_codes_example = select_profile_codes empty_store sorts tt none

-- A connection is the endpoint that it was dialed to.
abbrev grpc : Grpc
grpc = record {
  Tls = Bool;
  Conn = Text;
  GroupsClient = Option Text;
  ProfilesClient = Option Text;
  IgnitionClient = Option Text;
  CloudClient = Option Text;
  dial = λ timeout tls endpoint.
      if endpoint == text "up" then ok endpoint else err (failure (text "down"));
  close = λ conn. none;
  new_groups_client = λ conn. conn;
  new_profiles_client = λ conn. conn;
  new_ignition_client = λ conn. conn;
  new_cloud_client = λ conn. conn;
}

abbrev endpoints : Config grpc
endpoints = record { endpoints = text "down" ∷ text "up" ∷ []; dial_timeout = 10; tls = some true }

new-answered_example : new grpc endpoints ≡ (some (client_of grpc (some (text "up"))), none)
unfolding text ◌==◌
new-answered_example =
    new-answered grpc endpoints true (text "down" ∷ []) [] (text "up") (text "up") refl refl
      ((failure (text "down"), refl), tt) refl

-- A block is one byte, and every block is a certificate.
one_byte : Text → Option (Text × Text)
one_byte [] = none
one_byte (c ∷ pem) = some (c ∷ [], pem)

abbrev x509 : X509
x509 = record {
  Certificate = Text;
  KeyPair = Text;
  read_file = λ file. ok (text "ab");
  decode = one_byte;
  parse_certificate = λ bytes. ok bytes;
  load_key_pair = λ cert key. ok cert;
}

shortens :
    (pem : Text) (block : Text × Text) → x509.decode pem ≡ some block → length block.1 < length pem
unfolding one_byte
shortens [] block h = absurd (cc)
shortens (c ∷ pem) block h = let rest : pem ≡ block.1 = cc in rw (sym rest) (omega arith)

new_cert_pool-total_example :
    (r : Result (List Text)) × (new_cert_pool x509 (text "ca" ∷ []) ≡ some r)
new_cert_pool-total_example = new_cert_pool-total x509 shortens (text "ca" ∷ [])

abbrev info : TlsInfo
info = record { ca_file = text "ca"; cert_file = text "cert"; key_file = text "key" }

abbrev config : TlsConfig Text Text
config = record {
  min_version = version_tls12;
  insecure_skip_verify = false;
  root_cas = none;
  certificates = text "cert" ∷ [];
  client_auth = require_and_verify_client_cert;
  client_cas = some ((b'a' ∷ []) ∷ (b'b' ∷ []) ∷ []);
  cipher_suites =
      text "TLS_ECDHE_ECDSA_WITH_AES_128_GCM_SHA256"
      ∷ text "TLS_ECDHE_RSA_WITH_AES_128_GCM_SHA256"
      ∷ text "TLS_ECDHE_ECDSA_WITH_AES_256_GCM_SHA384"
      ∷ text "TLS_ECDHE_RSA_WITH_AES_256_GCM_SHA384"
      ∷ [];
}

configured : server_config x509 info ≡ some (ok config)
unfolding server_config new_cert_pool add_files add_certs one_byte text
configured = refl

abbrev flags : Flags
flags = record {
  address = text "127.0.0.1:8080";
  rpc_address = text "127.0.0.1:8081";
  data_path = text "/var/lib/bootcfg";
  assets_path = [];
  log_level = text "info";
  cert_file = text "server.crt";
  key_file = text "server.key";
  ca_file = text "ca.crt";
  key_ring_path = text "ring";
  version = false;
  help = false;
}

abbrev environment : Environment
environment = record {
  parse_flags = λ defaults. some flags;
  set_flags_from_env = λ parsed prefix. ok parsed;
  getenv = λ name. text "secret";
  parse_url = λ url. ok url;
  stat = λ path. ok true;
  parse_level = λ level. none;
  open_file = λ path. ok path;
  pgp = pgp;
  listen = λ address. none;
  server_config = λ ca cert key. none;
}

abbrev web : Routes.Config
web = record {
  assets_path = [];
  signer = some (gpg_signer pgp false);
  armored_signer = some (armored_gpg_signer pgp false);
}

served : main environment flags (text "secret") ≡ serving web (text "/var/lib/bootcfg") true
unfolding main check_tls_files load_signers start_rpc load_gpg_entity unlock_key_ring_entity
    unlock_first text ◌==◌
served = refl

main_serving_example :
    (text "/var/lib/bootcfg" ≡ flags.data_path)
    × (is_directory (environment.stat flags.data_path) ≡ true)
    × (web.assets_path ≡ flags.assets_path)
    × Signers environment flags (text "secret") web.signer web.armored_signer
    × TlsFiles environment flags (text "secret")
    × RpcStart environment flags (text "secret") true
main_serving_example =
    main_serving environment flags (text "secret") web (text "/var/lib/bootcfg") true served

abbrev pub command : Command
command = record {
  get_string_slice = λ name. ok (text "127.0.0.1:8081" ∷ []);
  get_string = λ name. ok name;
  read_file = λ file. ok (text "{}");
  Tls = Text;
  client_config = λ info. ok info.ca_file;
  new_client = λ endpoints tls. none;
}

-- No flag is given, and the data directory and the assets are there.
abbrev bare : Environment
bare = record environment { parse_flags = λ defaults. some defaults }

abbrev bare_web : Routes.Config
bare_web = record {
  assets_path = text "/var/lib/bootcfg/assets";
  signer = none;
  armored_signer = none;
}

bare_served : program bare ≡ serving bare_web (text "/var/lib/bootcfg") false
unfolding program main check_tls_files load_signers start_rpc text ◌==◌
bare_served = refl

default_serving_example :
    (text "/var/lib/bootcfg" ≡ text "/var/lib/bootcfg")
    × (is_directory (bare.stat (text "/var/lib/bootcfg")) ≡ true)
    × (bare_web ≡ record {
      assets_path = text "/var/lib/bootcfg/assets";
      signer = none;
      armored_signer = none;
    })
    × (false ≡ false)
default_serving_example =
    default_serving bare bare_web (text "/var/lib/bootcfg") false refl refl bare_served
