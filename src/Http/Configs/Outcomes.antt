-- ===== src/Http/Configs/Outcomes.antt =====
-- The answers of the endpoints of bootcfg/http/generic.go, cloud.go, ignition.go and metadata.go.
use coreos_baremetal.Prelude.{
  ◌≡◌, refl, ◌⊎◌, inl, inr, Bool-cases, true, some, List, [], ◌∷◌, if◌then◌else◌, arith, All,
}
use coreos_baremetal.Prelude.Text.{Text}
use coreos_baremetal.Golang.Errors.{Error, ok, err}
use coreos_baremetal.Golang.Http.{Call, not_found, serve_content, Request}
use coreos_baremetal.Storagepb.Json.{Json, Profile, Group}
use coreos_baremetal.Server.{Core}
use coreos_baremetal.Http.Context.{Context, background, group_from_context}
use coreos_baremetal.Http.Parse.{labels_from_request}
use coreos_baremetal.Http.Render.{Libraries, write_json}
use coreos_baremetal.Http.Handlers.{ContextHandler, select_group_handler, new_handler}
use coreos_baremetal.Http.Metadata.{metadata_handler}
use coreos_baremetal.Http.Configs.{
  is_user_data, is_ignition, generic_handler, cloud_handler, ignition_handler,
}
use coreos_baremetal.Http.Configs.Served.{Rendered, rendering-cases, rendering_of_Rendered}

module _ (lib : Libraries) (json : Json) (core : Core) (s : core.State) (req : Request) where
  -- The rendered generic template of the context's group.
  abbrev pub GenericConfig : Context → Text → Type 0
  GenericConfig ctx = Rendered lib json core s (core.generic_get s) (λ p. p.generic_id) ctx req

  -- The rendered cloud-config template of the context's group.
  abbrev pub CloudConfig : Context → Text → Type 0
  CloudConfig ctx = Rendered lib json core s (core.cloud_get s) (λ p. p.cloud_id) ctx req

  -- A generic answer is 404, or what `http.ServeContent` makes of the rendered template that the
  -- profile of the context's group names.
  pub generic_handler_served :
      (ctx : Context) (calls : List Call)
      → generic_handler lib json core s ctx req ≡ some calls
      → (calls ≡ not_found)
        ⊎ ((content : Text) × GenericConfig ctx content
            × (calls ≡ serve_content lib.describe lib.serve_conditional req content))
  unfolding generic_handler
  generic_handler_served ctx calls h =
      elim (rendering-cases lib json core s (core.generic_get s) (λ p. p.generic_id) ctx req
        (λ config. some (serve_content lib.describe lib.serve_conditional req config)) calls h) [
          | inl e ↦ inl e
          | inr (content, r, e) ↦ inr (content, r, ground arith)
        ]

  -- Where the context's group has a rendered generic template, that is what is served.
  pub generic_handler_serves :
      (ctx : Context) (content : Text)
      → GenericConfig ctx content
      → generic_handler lib json core s ctx req
        ≡ some (serve_content lib.describe lib.serve_conditional req content)
  unfolding generic_handler
  generic_handler_serves ctx content r =
      rendering_of_Rendered lib json core s (core.generic_get s) (λ p. p.generic_id) ctx req
        (λ config. some (serve_content lib.describe lib.serve_conditional req config)) content r

  -- An answer of the cloud-config endpoint is 404, or what `http.ServeContent` makes of the rendered
  -- template that the profile of the context's group names, and then that text is valid user-data.
  pub cloud_handler_served :
      (ctx : Context) (calls : List Call)
      → cloud_handler lib json core s ctx req ≡ some calls
      → (calls ≡ not_found)
        ⊎ ((content : Text) × CloudConfig ctx content
            × (is_user_data lib content ≡ true)
            × (calls ≡ serve_content lib.describe lib.serve_conditional req content))
  unfolding cloud_handler
  cloud_handler_served ctx calls h =
      elim (rendering-cases lib json core s (core.cloud_get s) (λ p. p.cloud_id) ctx req
        (λ config.
          if is_user_data lib config
          then some (serve_content lib.describe lib.serve_conditional req config)
          else some not_found)
        calls h) [
          | inl e ↦ inl e
          | inr (content, r, e) ↦ elim (Bool-cases (is_user_data lib content)) [
            | inl valid ↦ inr (content, r, valid, ground arith)
            | inr invalid ↦ inl (ground arith)
          ]
        ]

  -- Where the cloud-config template of the context's group is rendered, the text is served if it
  -- is valid user-data, and answered with 404 if it is not.
  pub cloud_handler_serves :
      (ctx : Context) (content : Text)
      → CloudConfig ctx content
      → cloud_handler lib json core s ctx req ≡ (
          if is_user_data lib content
          then some (serve_content lib.describe lib.serve_conditional req content)
          else some not_found)
  unfolding cloud_handler
  cloud_handler_serves ctx content r =
      rendering_of_Rendered lib json core s (core.cloud_get s) (λ p. p.cloud_id) ctx req
        (λ config.
          if is_user_data lib config
          then some (serve_content lib.describe lib.serve_conditional req config)
          else some not_found)
        content r

  -- With no group the next handler gets the context as it is.
  select_group_handler_err :
      (next : ContextHandler) (e : Error)
      → core.select_group s (some (labels_from_request req)) ≡ err e
      → new_handler (select_group_handler core s next) req ≡ next background req
  unfolding new_handler select_group_handler
  select_group_handler_err next e h = rw (select_group_handler, h) refl

  -- A request for whose labels the core selects no group is answered with 404 by the generic,
  -- cloud-config, Ignition and metadata endpoints.
  pub unmatched :
      (e : Error)
      → core.select_group s (some (labels_from_request req)) ≡ err e
      → All
          (λ endpoint. new_handler (select_group_handler core s endpoint) req ≡ some not_found)
          (generic_handler lib json core s
            ∷ cloud_handler lib json core s
            ∷ ignition_handler lib json core s
            ∷ metadata_handler json
            ∷ [])
  unfolding generic_handler cloud_handler ignition_handler metadata_handler group_from_context
  unmatched e h = (
    select_group_handler_err _ e h,
    (
      select_group_handler_err _ e h,
      (select_group_handler_err _ e h, (select_group_handler_err _ e h, tt)),
    ),
  )

  -- Raw Ignition, by the name of its template, is served as it is stored, without rendering.
  pub raw_ignition :
      (ctx : Context) (group : Group) (profile : Profile) (contents : Text)
      → group_from_context ctx ≡ ok group
      → core.profile_get s group.profile ≡ ok profile
      → core.ignition_get s profile.ignition_id ≡ ok contents
      → is_ignition profile.ignition_id ≡ true
      → ignition_handler lib json core s ctx req ≡ some (write_json contents)
  unfolding ignition_handler
  raw_ignition ctx group profile contents a b c d = rw (a, b, c, d) refl
