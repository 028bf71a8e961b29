-- ===== src/Http/Handlers.antt =====
-- bootcfg/http/handlers.go, bootcfg/http/ctxh.go and bootcfg/http/pixiecore.go
use coreos_baremetal.Prelude.{Option, none, some, List, [], ◌∷◌, ◌++◌, if◌then◌else◌}
use coreos_baremetal.Prelude.Text.{text, ◌==◌}
use coreos_baremetal.Golang.Errors.{ok, err}
use coreos_baremetal.Golang.FilePath.{base}
use coreos_baremetal.Golang.Mac.{parse_mac, mac_string, invalid_address}
use coreos_baremetal.Golang.Http.{Call, write, not_found, error_reply, bad_request, Request}
use coreos_baremetal.Storagepb.Json.{Json}
use coreos_baremetal.Storagepb.Group.{mac_key}
use coreos_baremetal.Server.{Core}
use coreos_baremetal.Http.Context.{Context, background, with_group, with_profile}
use coreos_baremetal.Http.Parse.{labels_from_request}
use coreos_baremetal.Http.Render.{render_json}

-- `http.Handler`: the calls that answer a request; `none` is a panic. Logging is left out.
abbrev pub Handler : Type 0
Handler = Request → Option (List Call)

-- `ContextHandler`
abbrev pub ContextHandler : Type 0
ContextHandler = Context → Request → Option (List Call)

-- `NewHandler`, and the `ServeHTTP` of the handler that it makes.
unfoldable pub new_handler : ContextHandler → Handler
new_handler h req = h background req

-- `homeHandler`
unfoldable pub home_handler : Handler
home_handler req =
    if req.path == text "/" then some (write (text "bootcfg" ++ (10 ∷ [])) ∷ []) else some not_found

module _ (core : Core) (s : core.State) where
  -- `(*Server).selectGroup`
  unfoldable pub select_group_handler : ContextHandler → ContextHandler
  select_group_handler next ctx req = elim (core.select_group s (some (labels_from_request req))) [
    | ok group ↦ next (with_group ctx group) req
    | err e ↦ next ctx req
  ]

  -- `(*Server).selectProfile`
  unfoldable pub select_profile_handler : ContextHandler → ContextHandler
  select_profile_handler next ctx req =
      elim (core.select_profile s (some (labels_from_request req))) [
        | ok profile ↦ next (with_profile ctx profile) req
        | err e ↦ next ctx req
      ]

  -- `(*Server).pixiecoreHandler`
  unfoldable pub pixiecore_handler : Json → ContextHandler
  pixiecore_handler json ctx req = elim (parse_mac (base req.path)) [
    | none ↦ some (error_reply (invalid_address (base req.path)) bad_request)
    | some mac ↦ elim (core.select_group s (some ((mac_key, mac_string mac) ∷ []))) [
      | err e ↦ some not_found
      | ok group ↦ elim (core.profile_get s group.profile) [
        | err e ↦ some not_found
        | ok profile ↦ some (render_json (json.marshal_boot profile.boot))
      ]
    ]
  ]
