-- ===== src/Client.antt =====
-- bootcfg/client/client.go. gRPC and the generated stubs are a record of functions.
pub mod Dialing
use coreos_baremetal.Prelude.{Option, none, some, List, [], ◌∷◌, eqb, length, if◌then◌else◌, ℕ}
use coreos_baremetal.Prelude.Text.{Text}
use coreos_baremetal.Golang.Errors.{Error, no_endpoints, no_tls_config, Result, ok, err}

-- What the client calls of gRPC and of the generated stubs, which take a connection or `nil`.
pub record Grpc : Type 1 where
  pub Tls : Type 0
  pub Conn : Type 0
  pub GroupsClient : Type 0
  pub ProfilesClient : Type 0
  pub IgnitionClient : Type 0
  pub CloudClient : Type 0
  -- `grpc.Dial` of an endpoint, blocking, with a timeout and the credentials of a TLS config
  pub dial : ℕ → Tls → Text → Result Conn
  pub close : Option Conn → Option Error
  pub new_groups_client : Option Conn → GroupsClient
  pub new_profiles_client : Option Conn → ProfilesClient
  pub new_ignition_client : Option Conn → IgnitionClient
  pub new_cloud_client : Option Conn → CloudClient

-- `Config`; `none` is a `nil` TLS config.
pub record Config (grpc : Grpc) : Type 0 where
  pub endpoints : List Text
  pub dial_timeout : ℕ
  pub tls : Option grpc.Tls

-- `Client`; `none` is a `nil` connection.
pub record Client (grpc : Grpc) : Type 0 where
  pub groups : grpc.GroupsClient
  pub profiles : grpc.ProfilesClient
  pub ignition : grpc.IgnitionClient
  pub cloud : grpc.CloudClient
  pub conn : Option grpc.Conn

module _ (grpc : Grpc) where
  open grpc use {Tls, Conn}

  -- The loop of `dialEndpoints`, with the error so far: the named results `conn` and `err`.
  unfoldable pub dial_in_order : ℕ → Tls → List Text → Option Error → Option Conn × Option Error
  dial_in_order timeout tls [] last = (none, last)
  dial_in_order timeout tls (endpoint ∷ rest) last = elim (grpc.dial timeout tls endpoint) [
    | ok conn ↦ (some conn, none)
    | err e ↦ dial_in_order timeout tls rest (some e)
  ]

  -- `dialEndpoints`
  unfoldable pub dial_endpoints : Config grpc → Option Conn × Option Error
  dial_endpoints config = elim config.tls [
    | none ↦ (none, some no_tls_config)
    | some tls ↦ dial_in_order config.dial_timeout tls config.endpoints none
  ]

  -- The client that `newClient` makes of a connection.
  abbrev pub client_of : Option Conn → Client grpc
  client_of conn = record {
    groups = grpc.new_groups_client conn;
    profiles = grpc.new_profiles_client conn;
    ignition = grpc.new_ignition_client conn;
    cloud = grpc.new_cloud_client conn;
    conn = conn;
  }

  abbrev pub client_or_error : Option Conn × Option Error → Option (Client grpc) × Option Error
  client_or_error (conn, some e) = (none, some e)
  client_or_error (conn, none) = (some (client_of conn), none)

  -- `newClient`
  unfoldable pub new_client : Config grpc → Option (Client grpc) × Option Error
  new_client config = client_or_error (dial_endpoints config)

  -- `New`
  unfoldable pub new : Config grpc → Option (Client grpc) × Option Error
  new config =
      if eqb (length config.endpoints) 0 then (none, some no_endpoints) else new_client config

  -- `(*Client).Close`
  unfoldable pub close : Client grpc → Option Error
  close client = grpc.close client.conn
