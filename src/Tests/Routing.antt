-- ===== src/Tests/Routing.antt =====
-- The table of routes, the statuses and the Ignition endpoint at concrete requests.
use coreos_baremetal.Prelude.{◌≡◌, refl, none, some, [], ◌∷◌, ◌++◌}
use coreos_baremetal.Prelude.Text.{Text, text, ◌==◌, has_suffix}
use coreos_baremetal.Golang.Errors.{ok}
use coreos_baremetal.Golang.Http.{Request, redirect}
use coreos_baremetal.Golang.Http.Recorder.{respond}
use coreos_baremetal.Golang.Http.Statuses.{HasKnown, ServesContent, is_content_status}
use coreos_baremetal.Server.{Core, new_server}
use coreos_baremetal.Sign.Writer.{Signer, signature_handler}
use coreos_baremetal.Testfakes.{broken_store}
use coreos_baremetal.Testfakes.Fixed
use coreos_baremetal.Testfakes.Fixed.{FixedStore, new_fixed_store}
use coreos_baremetal.Server
use coreos_baremetal.Http.Handlers.{Handler, home_handler, new_handler, pixiecore_handler}
use coreos_baremetal.Http.Routes.{
  HttpServer, http_handler, serve_mux, mux_handler, redirects, has_pattern, without_last, longest,
  pattern_matches, has_prefix,
}
use coreos_baremetal.Http.Routes.Signatures.{handler_at}
use coreos_baremetal.Http.Routes.Prefixes.{pixiecore_routes}
use coreos_baremetal.Http.Routes.Statuses.Served.{http_handler-HasKnown}
use coreos_baremetal.Tests.Samples.{sorts, worker}
use coreos_baremetal.Tests.Web.{libraries, json, query}

abbrev server : HttpServer
server = record { assets_path = text "/assets"; signer = none; armored_signer = none }

abbrev broken : Core
broken = new_server broken_store sorts

abbrev files : Text → Handler
files path = home_handler

-- The root of a subtree without its slash.
abbrev boot_root : Request
boot_root = record query { path = text "/pixiecore/v1/boot" }

abbrev signer : Signer
signer message = ok message

-- What the test libraries answer to a request for a part is partial content.
serves_content : ServesContent libraries.serve_conditional
unfolding is_content_status
serves_content req content = (refl, (refl, tt))

boot_root_redirected :
    http_handler libraries json sorts.texts broken tt files server boot_root
    ≡ some (redirect (text "/pixiecore/v1/boot/") boot_root)
unfolding http_handler serve_mux mux_handler redirects has_pattern without_last longest
    pattern_matches has_prefix has_suffix ◌==◌ text
boot_root_redirected = refl

http_handler-HasKnown_example :
    HasKnown (respond (redirect (text "/pixiecore/v1/boot/") boot_root)).status
unfolding has_prefix text
http_handler-HasKnown_example =
    http_handler-HasKnown libraries json sorts.texts broken tt files boot_root serves_content server
      (redirect (text "/pixiecore/v1/boot/") boot_root) refl boot_root_redirected

abbrev pixiecore : Handler
pixiecore = new_handler (pixiecore_handler broken tt json)

pixiecore_routes_example :
    (handler_at libraries json sorts.texts broken tt files server
        (text "/pixiecore/v1/boot/" ++ text "52:da")
      ≡ pixiecore)
    × (handler_at libraries json sorts.texts broken tt files
          (record server { signer = some signer })
          (text "/pixiecore/v1/boot.sig/" ++ text "52:da")
        ≡ signature_handler signer pixiecore)
    × (handler_at libraries json sorts.texts broken tt files
          (record server { armored_signer = some signer })
          (text "/pixiecore/v1/boot.asc/" ++ text "52:da")
        ≡ signature_handler signer pixiecore)
pixiecore_routes_example =
    pixiecore_routes libraries json sorts.texts broken tt files (text "/assets") (text "52:da") none
      none signer signer

abbrev stored : FixedStore
stored = record new_fixed_store {
  profiles = (text "p1", worker) ∷ [];
  ignition_configs = (text "worker.yaml", text "systemd:") ∷ [];
}
