-- ===== src/Http/Configs/Ignition.antt =====
-- The answers of bootcfg/http/ignition.go: raw Ignition, or a Fuze template that is rendered and
-- turned into Ignition.
use coreos_baremetal.Prelude.{◌≡◌, refl, true, false, Option, some, List, [], ◌∷◌}
use coreos_baremetal.Prelude.Text.{Text}
use coreos_baremetal.Golang.Errors.{ok}
use coreos_baremetal.Golang.Http.{Call, Request}
use coreos_baremetal.Storagepb.Json.{Json, Profile, Group}
use coreos_baremetal.Server.{Core}
use coreos_baremetal.Http.Context.{Context, group_from_context}
use coreos_baremetal.Http.Parse.{collect_variables}
use coreos_baremetal.Http.Render.{Libraries, render_json, render_template}
use coreos_baremetal.Http.Configs.{is_ignition, ignition_handler, or_not_found, or_panic}
use coreos_baremetal.Http.Configs.Served.{Rendered}

module _ (lib : Libraries) (json : Json) (core : Core) (s : core.State) (ctx : Context)
    (req : Request) where
  -- The text that is stored as raw Ignition for the context's group.
  pub record RawIgnition (contents : Text) : Type 0 where
    pub group : Group
    pub in_context : group_from_context ctx ≡ ok group
    pub profile : Profile
    pub named : core.profile_get s group.profile ≡ ok profile
    pub stored : core.ignition_get s profile.ignition_id ≡ ok contents
    pub raw : is_ignition profile.ignition_id ≡ true

  -- The Ignition config that the rendered Fuze template of the context's group means.
  pub record FuzeIgnition (config : lib.IgnitionConfig) : Type 0 where
    pub content : Text
    pub source : Rendered lib json core s (core.ignition_get s) (λ p. p.ignition_id) ctx req content
    pub not_raw : is_ignition source.profile.ignition_id ≡ false
    pub parsed : lib.parse_fuze content ≡ ok config

  abbrev fuze_answer : Group → Text → Option (List Call)
  fuze_answer group contents = or_not_found (collect_variables json req group) λ variables.
      or_panic variables λ data'.
        or_not_found (render_template lib data' (contents ∷ [])) λ rendered.
          or_not_found (lib.parse_fuze rendered)
            λ config. some (render_json (lib.marshal_ignition config))

  -- Where a Fuze template is rendered and parsed for the context's group, the Ignition endpoint
  -- answers with the JSON of the config it parses to.
  pub ignition_handler_serves :
      (config : lib.IgnitionConfig)
      → FuzeIgnition config
      → ignition_handler lib json core s ctx req ≡ some (render_json (lib.marshal_ignition config))
  unfolding ignition_handler
  ignition_handler_serves config f =
      let r = f.source in
      rw (r.in_context, r.named, r.stored, f.not_raw, r.collected, r.rendered, f.parsed) refl
