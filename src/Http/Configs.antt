-- ===== src/Http/Configs.antt =====
-- bootcfg/http/generic.go, bootcfg/http/cloud.go and bootcfg/http/ignition.go
pub mod Served
pub mod Outcomes
pub mod Ignition
pub mod Provisioned
use coreos_baremetal.Prelude.{
  Bool, true, ◌||◌, ◌&&◌, not, Option, none, some, List, [], ◌∷◌, if◌then◌else◌, is_some, false,
}
use coreos_baremetal.Prelude.Text.{Text, text, has_suffix}
use coreos_baremetal.Golang.Errors.{Result, ok, err}
use coreos_baremetal.Golang.Http.{Call, not_found, serve_content, Request}
use coreos_baremetal.Storagepb.Json.{Json, Fields}
use coreos_baremetal.Server.{Core}
use coreos_baremetal.Http.Context.{group_from_context}
use coreos_baremetal.Http.Parse.{collect_variables}
use coreos_baremetal.Http.Render.{Libraries, render_template, render_json, write_json}
use coreos_baremetal.Http.Handlers.{ContextHandler}

-- `if err != nil { http.NotFound(w, req); return }`
abbrev pub or_not_found : {A : Type 0} → Result A → (A → Option (List Call)) → Option (List Call)
or_not_found (ok a) next = next a
or_not_found (err e) next = some not_found

-- Variables, unless collecting them panicked.
abbrev pub or_panic : Option Fields → (Fields → Option (List Call)) → Option (List Call)
or_panic none next = none
or_panic (some fields) next = next fields

-- `isIgnition`
unfoldable pub is_ignition : Text → Bool
is_ignition filename = has_suffix filename (text ".ign") || has_suffix filename (text ".ignition")

module _ (lib : Libraries) where
  -- The two tests of `cloudHandler` on the rendered user-data.
  unfoldable pub is_user_data : Text → Bool
  is_user_data config =
      if not (lib.is_cloud_config config) && not (lib.is_script config)
      then false
      else if lib.is_cloud_config config
      then not (is_some (lib.new_cloud_config config))
      else true

module _ (lib : Libraries) (json : Json) (core : Core) (s : core.State) where
  -- `(*Server).genericHandler`
  unfoldable pub generic_handler : ContextHandler
  generic_handler ctx req = or_not_found (group_from_context ctx) λ group.
      or_not_found (core.profile_get s group.profile) λ profile.
        or_not_found (core.generic_get s profile.generic_id) λ contents.
          or_not_found (collect_variables json req group) λ variables. or_panic variables λ data'.
            or_not_found (render_template lib data' (contents ∷ []))
              λ config. some (serve_content lib.describe lib.serve_conditional req config)

  -- `(*Server).cloudHandler`
  unfoldable pub cloud_handler : ContextHandler
  cloud_handler ctx req = or_not_found (group_from_context ctx) λ group.
      or_not_found (core.profile_get s group.profile) λ profile.
        or_not_found (core.cloud_get s profile.cloud_id) λ contents.
          or_not_found (collect_variables json req group) λ variables. or_panic variables λ data'.
            or_not_found (render_template lib data' (contents ∷ [])) λ config.
              if is_user_data lib config
              then some (serve_content lib.describe lib.serve_conditional req config)
              else some not_found

  -- `(*Server).ignitionHandler`. Raw Ignition is served even where it does not parse.
  unfoldable pub ignition_handler : ContextHandler
  ignition_handler ctx req = or_not_found (group_from_context ctx) λ group.
      or_not_found (core.profile_get s group.profile) λ profile.
        or_not_found (core.ignition_get s profile.ignition_id) λ contents.
          if is_ignition profile.ignition_id
          then some (write_json contents)
          else (or_not_found (collect_variables json req group) λ variables.
              or_panic variables λ data'.
                or_not_found (render_template lib data' (contents ∷ [])) λ rendered.
                  or_not_found (lib.parse_fuze rendered)
                    λ config. some (render_json (lib.marshal_ignition config)))
