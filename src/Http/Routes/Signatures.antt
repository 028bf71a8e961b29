-- ===== src/Http/Routes/Signatures.antt =====
-- The signed endpoints of bootcfg/http/server.go next to the plain ones.
use coreos_baremetal.Prelude.{◌≡◌, refl, Option, none, some, List, [], ◌∷◌, ◌++◌, All}
use coreos_baremetal.Prelude.Text.{Text, text, has_suffix, ◌==◌}
use coreos_baremetal.Golang.Sort.{Sorter}
use coreos_baremetal.Storagepb.Json.{Json}
use coreos_baremetal.Server.{Core}
use coreos_baremetal.Sign.Writer.{Signer, signature_handler}
use coreos_baremetal.Http.Render.{Libraries}
use coreos_baremetal.Http.Handlers.{Handler}
use coreos_baremetal.Http.Routes.{
  HttpServer, routes, redirects, has_pattern, without_last, mux_handler, longest, pattern_matches,
  has_prefix,
}

-- The endpoints at fixed paths below `/`.
abbrev pub endpoint_names : List Text
endpoint_names =
    text "/grub"
    ∷ text "/boot.ipxe"
    ∷ text "/boot.ipxe.0"
    ∷ text "/ipxe"
    ∷ text "/ignition"
    ∷ text "/cloud"
    ∷ text "/generic"
    ∷ text "/metadata"
    ∷ []

module _ (lib : Libraries) (json : Json) (texts : Sorter Text) (core : Core) (s : core.State)
    (file_server : Text → Handler) (server : HttpServer) where
  -- The handler that the server has for a path.
  abbrev pub handler_at : Text → Handler
  handler_at = mux_handler (routes lib json texts core s file_server server)

module _ (lib : Libraries) (json : Json) (texts : Sorter Text) (core : Core) (s : core.State)
    (file_server : Text → Handler) (signer : Signer) where
  -- With a signer, the name of each of the eight endpoints at fixed paths below `/`, with `.sig`
  -- appended, answers with the signature of what the endpoint answers, whatever the assets path
  -- and the armored signer are.
  pub signed_endpoints :
      (assets : Text) (armored : Option Signer)
      → All
          (λ name.
            handler_at lib json texts core s file_server
              (record { assets_path = assets; signer = some signer; armored_signer = armored })
              (name ++ text ".sig")
            ≡ signature_handler signer (
                handler_at lib json texts core s file_server
                  (record { assets_path = assets; signer = some signer; armored_signer = armored })
                  name))
          endpoint_names
  unfolding mux_handler redirects has_pattern without_last longest pattern_matches has_prefix
      has_suffix ◌==◌ text
  signed_endpoints [] none = (refl, (refl, (refl, (refl, (refl, (refl, (refl, (refl, tt))))))))
  signed_endpoints [] (some a) = (refl, (refl, (refl, (refl, (refl, (refl, (refl, (refl, tt))))))))
  signed_endpoints (c ∷ assets) none =
      (refl, (refl, (refl, (refl, (refl, (refl, (refl, (refl, tt))))))))
  signed_endpoints (c ∷ assets) (some a) =
      (refl, (refl, (refl, (refl, (refl, (refl, (refl, (refl, tt))))))))

  -- The same for the armored signatures, at the names with `.asc` appended.
  pub armored_endpoints :
      (assets : Text) (plain : Option Signer)
      → All
          (λ name.
            handler_at lib json texts core s file_server
              (record { assets_path = assets; signer = plain; armored_signer = some signer })
              (name ++ text ".asc")
            ≡ signature_handler signer (
                handler_at lib json texts core s file_server
                  (record { assets_path = assets; signer = plain; armored_signer = some signer })
                  name))
          endpoint_names
  unfolding mux_handler redirects has_pattern without_last longest pattern_matches has_prefix
      has_suffix ◌==◌ text
  armored_endpoints [] none = (refl, (refl, (refl, (refl, (refl, (refl, (refl, (refl, tt))))))))
  armored_endpoints [] (some a) = (refl, (refl, (refl, (refl, (refl, (refl, (refl, (refl, tt))))))))
  armored_endpoints (c ∷ assets) none =
      (refl, (refl, (refl, (refl, (refl, (refl, (refl, (refl, tt))))))))
  armored_endpoints (c ∷ assets) (some a) =
      (refl, (refl, (refl, (refl, (refl, (refl, (refl, (refl, tt))))))))
