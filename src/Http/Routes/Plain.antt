-- ===== src/Http/Routes/Plain.antt =====
-- The plain endpoints of bootcfg/http/server.go.
use coreos_baremetal.Prelude.{◌≡◌, refl, Option, none, some, [], ◌∷◌}
use coreos_baremetal.Prelude.Text.{Text, text, has_suffix, ◌==◌}
use coreos_baremetal.Golang.Sort.{Sorter}
use coreos_baremetal.Storagepb.Json.{Json}
use coreos_baremetal.Server.{Core}
use coreos_baremetal.Sign.Writer.{Signer}
use coreos_baremetal.Http.Render.{Libraries}
use coreos_baremetal.Http.Handlers.{Handler, new_handler}
use coreos_baremetal.Http.Boot.{ipxe_inspect, ipxe_handler, grub_handler}
use coreos_baremetal.Http.Metadata.{metadata_handler}
use coreos_baremetal.Http.Configs.{generic_handler, cloud_handler, ignition_handler}
use coreos_baremetal.Http.Routes.{
  HttpServer, mux_handler, longest, pattern_matches, has_prefix, by_profile, by_group, redirects,
  has_pattern, without_last,
}
use coreos_baremetal.Http.Routes.Signatures.{handler_at}

module _ (lib : Libraries) (json : Json) (texts : Sorter Text) (core : Core) (s : core.State)
    (file_server : Text → Handler) where
  abbrev server_of : Text → Option Signer → Option Signer → HttpServer
  server_of assets plain armored = record {
    assets_path = assets;
    signer = plain;
    armored_signer = armored;
  }

  -- The handlers of the endpoints at fixed paths below `/`.
  abbrev pub PlainEndpoints : (Text → Handler) → Type 0
  PlainEndpoints at =
      (at (text "/grub")
        ≡ new_handler (by_profile lib json texts core s file_server (grub_handler texts)))
      × (at (text "/boot.ipxe") ≡ new_handler ipxe_inspect)
      × (at (text "/boot.ipxe.0") ≡ new_handler ipxe_inspect)
      × (at (text "/ipxe")
          ≡ new_handler (by_profile lib json texts core s file_server (ipxe_handler texts)))
      × (at (text "/ignition")
          ≡ new_handler
              (by_group lib json texts core s file_server (ignition_handler lib json core s)))
      × (at (text "/cloud")
          ≡ new_handler
              (by_group lib json texts core s file_server (cloud_handler lib json core s)))
      × (at (text "/generic")
          ≡ new_handler
              (by_group lib json texts core s file_server (generic_handler lib json core s)))
      × (at (text "/metadata")
          ≡ new_handler (by_group lib json texts core s file_server (metadata_handler json)))

  routes_of-PlainEndpoints :
      (assets : Text) (plain armored : Option Signer)
      → PlainEndpoints
          (handler_at lib json texts core s file_server (server_of assets plain armored))
  unfolding mux_handler redirects has_pattern without_last longest pattern_matches has_prefix
      has_suffix ◌==◌ text
  routes_of-PlainEndpoints [] none none = (refl, refl, refl, refl, refl, refl, refl, refl)
  routes_of-PlainEndpoints [] none (some b) = (refl, refl, refl, refl, refl, refl, refl, refl)
  routes_of-PlainEndpoints [] (some a) none = (refl, refl, refl, refl, refl, refl, refl, refl)
  routes_of-PlainEndpoints [] (some a) (some b) = (refl, refl, refl, refl, refl, refl, refl, refl)
  routes_of-PlainEndpoints (c ∷ assets) none none = (refl, refl, refl, refl, refl, refl, refl, refl)
  routes_of-PlainEndpoints (c ∷ assets) none (some b) =
      (refl, refl, refl, refl, refl, refl, refl, refl)
  routes_of-PlainEndpoints (c ∷ assets) (some a) none =
      (refl, refl, refl, refl, refl, refl, refl, refl)
  routes_of-PlainEndpoints (c ∷ assets) (some a) (some b) =
      (refl, refl, refl, refl, refl, refl, refl, refl)

  -- Whatever signers and assets the server has, the paths of the eight endpoints below `/`
  -- reach their handlers: the boot configs behind the selection of a profile, the machine configs
  -- and the metadata behind the selection of a group.
  pub routes-PlainEndpoints :
      (server : HttpServer) → PlainEndpoints (handler_at lib json texts core s file_server server)
  routes-PlainEndpoints server =
      routes_of-PlainEndpoints server.assets_path server.signer server.armored_signer
