-- ===== src/Http/Configs/Served.antt =====
-- The parts that the handlers of bootcfg/http/generic.go and cloud.go share: a rendered template.
use coreos_baremetal.Prelude.{
  ◌≡◌, refl, ◌⊎◌, inl, inr, Option, none, some, List, [], ◌∷◌, ap, ◌∙◌, arith,
}
use coreos_baremetal.Prelude.Text.{Text}
use coreos_baremetal.Golang.Errors.{Result, ok, err}
use coreos_baremetal.Golang.Http.{Call, not_found, Request}
use coreos_baremetal.Storagepb.Json.{Json, Fields, Group, Profile}
use coreos_baremetal.Server.{Core}
use coreos_baremetal.Http.Context.{Context, group_from_context}
use coreos_baremetal.Http.Parse.{collect_variables}
use coreos_baremetal.Http.Render.{Libraries, render_template}
use coreos_baremetal.Http.Configs.{or_not_found, or_panic}

pub or_not_found-cases :
    {A : Type 0} (r : Result A) (next : A → Option (List Call)) (calls : List Call)
    → or_not_found r next ≡ some calls
    → (calls ≡ not_found) ⊎ ((a : A) × (r ≡ ok a) × (next a ≡ some calls))
or_not_found-cases (ok a) next calls h = inr (a, refl, h)
or_not_found-cases (err e) next calls h = inl (ground arith)

pub or_panic-cases :
    (o : Option Fields) (next : Fields → Option (List Call)) (calls : List Call)
    → or_panic o next ≡ some calls
    → (fields : Fields) × (o ≡ some fields) × (next fields ≡ some calls)
or_panic-cases none next calls h = cc
or_panic-cases (some fields) next calls h = (fields, refl, h)

module _ (lib : Libraries) (json : Json) (core : Core) (s : core.State) where
  -- The text `config` is rendered for a request: from the template that `get` has under the id
  -- that the profile of the context's group gives.
  pub record Rendered (get : Text → Result Text) (id_of : Profile → Text) (ctx : Context)
      (req : Request) (config : Text) : Type 0 where
    pub group : Group
    pub in_context : group_from_context ctx ≡ ok group
    pub profile : Profile
    pub named : core.profile_get s group.profile ≡ ok profile
    pub template : Text
    pub stored : get (id_of profile) ≡ ok template
    pub variables : Fields
    pub collected : collect_variables json req group ≡ ok (some variables)
    pub rendered : render_template lib variables (template ∷ []) ≡ ok config

  module _ (get : Text → Result Text) (id_of : Profile → Text) (ctx : Context) (req : Request)
      (next : Text → Option (List Call)) where
    abbrev pub rendering : Option (List Call)
    rendering = or_not_found (group_from_context ctx) λ group.
        or_not_found (core.profile_get s group.profile) λ profile.
          or_not_found (get (id_of profile)) λ contents.
            or_not_found (collect_variables json req group) λ variables.
              or_panic variables
                λ data'. or_not_found (render_template lib data' (contents ∷ [])) next

    pub rendering-cases :
        (calls : List Call)
        → rendering ≡ some calls
        → (calls ≡ not_found)
          ⊎ ((config : Text) × Rendered get id_of ctx req config × (next config ≡ some calls))
    rendering-cases calls h = elim (or_not_found-cases (group_from_context ctx) _ calls h) [
      | inl e ↦ inl e
      | inr (group, a, h1) ↦
          elim (or_not_found-cases (core.profile_get s group.profile) _ calls h1) [
            | inl e ↦ inl e
            | inr (profile, b, h2) ↦ elim (or_not_found-cases (get (id_of profile)) _ calls h2) [
              | inl e ↦ inl e
              | inr (template, c, h3) ↦
                  elim (or_not_found-cases (collect_variables json req group) _ calls h3) [
                    | inl e ↦ inl e
                    | inr (decoded, d, h4) ↦
                        let (variables, e, h5) = or_panic-cases decoded _ calls h4 in
                        elim (or_not_found-cases (render_template lib variables (template ∷ []))
                          next calls h5) [
                            | inl f ↦ inl f
                            | inr (config, f, h6) ↦ inr (
                              config,
                              record {
                                group = group;
                                in_context = a;
                                profile = profile;
                                named = b;
                                template = template;
                                stored = c;
                                variables = variables;
                                collected = d ∙ ap (λ o. ok o) e;
                                rendered = f;
                              },
                              h6,
                            )
                          ]
                  ]
            ]
          ]
    ]

    pub rendering_of_Rendered :
        (config : Text) → Rendered get id_of ctx req config → rendering ≡ next config
    rendering_of_Rendered config r =
        rw (r.in_context, r.named, r.stored, r.collected, r.rendered) refl
