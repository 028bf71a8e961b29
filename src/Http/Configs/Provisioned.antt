-- ===== src/Http/Configs/Provisioned.antt =====
-- From a stored Ignition config to the endpoint of bootcfg/http/ignition.go.
use coreos_baremetal.Prelude.{◌≡◌, refl, ap, ◌∙◌, true, some, [], ◌∷◌}
use coreos_baremetal.Prelude.Text.{Text, text}
use coreos_baremetal.Golang.Errors.{ok}
use coreos_baremetal.Golang.Dict.{insert}
use coreos_baremetal.Golang.Http.{Request, run, run_call, status_ok}
use coreos_baremetal.Golang.Http.Recorder.{respond}
use coreos_baremetal.Storagepb.Json.{Group, Profile, Json}
use coreos_baremetal.Server.{Core}
use coreos_baremetal.Http.Context.{group_from_context, with_group}
use coreos_baremetal.Http.Parse.{labels_from_request}
use coreos_baremetal.Http.Render.{Libraries, write_json}
use coreos_baremetal.Http.Configs.{is_ignition, ignition_handler}
use coreos_baremetal.Http.Handlers.{Handler, new_handler, select_group_handler}
use coreos_baremetal.Http.Routes.{HttpServer, http_handler, serve_mux}
use coreos_baremetal.Http.Routes.Signatures.{handler_at}
use coreos_baremetal.Http.Routes.Plain.{routes-PlainEndpoints}

module _ (lib : Libraries) (json : Json) (core : Core) (s : core.State) where
  -- The config that is stored raw for the selected group's profile is answered as it is.
  raw_answer :
      (req : Request) (g : Group) (p : Profile) (contents : Text)
      → core.select_group s (some (labels_from_request req)) ≡ ok g
      → core.profile_get s g.profile ≡ ok p
      → core.ignition_get s p.ignition_id ≡ ok contents
      → is_ignition p.ignition_id ≡ true
      → new_handler (select_group_handler core s (ignition_handler lib json core s)) req
        ≡ some (write_json contents)
  unfolding new_handler select_group_handler ignition_handler with_group group_from_context
  raw_answer req g p contents a b c d =
      rw
        (
          new_handler, select_group_handler, a, ignition_handler, group_from_context, with_group, b,
          c, d,
        )
        refl

  pub raw_served :
      (texts : _) (file_server : Text → Handler) (server : HttpServer) (req : Request) (g : Group)
      (p : Profile) (contents : Text)
      → core.select_group s (some (labels_from_request req)) ≡ ok g
      → core.profile_get s g.profile ≡ ok p
      → core.ignition_get s p.ignition_id ≡ ok contents
      → is_ignition p.ignition_id ≡ true
      → req.path ≡ text "/ignition"
      → http_handler lib json texts core s file_server server req ≡ some (write_json contents)
  unfolding http_handler serve_mux
  raw_served texts file_server server req g p contents a b c d path =
      let route = (routes-PlainEndpoints lib json texts core s file_server server).4 in
      ap (λ at. handler_at lib json texts core s file_server server at req) path
      ∙ ap (λ endpoint. endpoint req) route
      ∙ raw_answer req g p contents a b c d

-- What a client gets of it.
pub json_response :
    (contents : Text)
    → respond (write_json contents) ≡ record {
      status = some status_ok;
      header = (text "Content-Type", text "application/json") ∷ [];
      body = contents;
    }
unfolding respond run run_call write_json insert
json_response contents = refl
