-- ===== src/Http/Boot/Served.antt =====
-- The boot endpoints of bootcfg/http/ipxe.go, grub.go and pixiecore.go next to the core's selection
-- of a profile.
use coreos_baremetal.Prelude.{
  ◌≡◌, refl, ◌∙◌, ◌⊎◌, inl, inr, Option-cases, ℕ, Option, none, some, List, [], ◌∷◌,
}
use coreos_baremetal.Prelude.Text.{Text}
use coreos_baremetal.Golang.Errors.{Error, ok, err, Result-cases}
use coreos_baremetal.Golang.FilePath.{base}
use coreos_baremetal.Golang.Mac.{parse_mac, mac_string}
use coreos_baremetal.Golang.Http.{Call, write_or_fail, not_found, Request}
use coreos_baremetal.Storagepb.Json.{Json, Profile, NetBoot}
use coreos_baremetal.Storagepb.Group.{mac_key}
use coreos_baremetal.Golang.Sort.{Sorter}
use coreos_baremetal.Storage.Store.{Store}
use coreos_baremetal.Server.{Core, Sorts, new_server, select_group, select_profile, profile_get}
use coreos_baremetal.Http.Context.{background, with_profile, profile_from_context}
use coreos_baremetal.Http.Parse.{labels_from_request}
use coreos_baremetal.Http.Render.{render_json}
use coreos_baremetal.Http.Boot.{ipxe_script, grub_config, ipxe_handler, grub_handler}
use coreos_baremetal.Http.Handlers.{
  ContextHandler, new_handler, select_profile_handler, pixiecore_handler,
}

module _ (core : Core) (s : core.State) (req : Request) where
  -- An endpoint behind the selection of a profile.
  abbrev pub by_profile : ContextHandler → Option (List Call)
  by_profile next = new_handler (select_profile_handler core s next) req

  pub by_profile_ok :
      (next : ContextHandler) (p : Profile)
      → core.select_profile s (some (labels_from_request req)) ≡ ok p
      → by_profile next ≡ next (with_profile background p) req
  unfolding new_handler select_profile_handler
  by_profile_ok next p h = rw (select_profile_handler, h) refl

  by_profile_err :
      (next : ContextHandler) (e : Error)
      → core.select_profile s (some (labels_from_request req)) ≡ err e
      → by_profile next ≡ next background req
  unfolding new_handler select_profile_handler
  by_profile_err next e h = rw (select_profile_handler, h) refl

  module _ (texts : Sorter Text) where
    pub handlers_of_boot :
        (p : Profile) (b : NetBoot)
        → p.boot ≡ some b
        → (script : Text) × (config : Text) × (ipxe_script texts (some b) ≡ ok script)
          × (grub_config texts (some b) ≡ ok config)
          × (ipxe_handler texts (with_profile background p) req ≡ some (write_or_fail script ∷ []))
          × (grub_handler texts (with_profile background p) req ≡ some (write_or_fail config ∷ []))
    unfolding ipxe_handler grub_handler ipxe_script grub_config profile_from_context with_profile
    handlers_of_boot p b h = (_, _, refl, refl, rw h refl, rw h refl)

    -- The iPXE and GRUB endpoints serve the script and the config of the profile that the core
    -- selects for the request's labels; and they answer with 404 exactly if it selects none, or one
    -- without boot settings.
    pub boot_served :
        ((p : Profile) × (b : NetBoot) × (script : Text) × (config : Text) × (core.select_profile s
              (some (labels_from_request req))
            ≡ ok p)
          × (p.boot ≡ some b)
          × (ipxe_script texts (some b) ≡ ok script)
          × (grub_config texts (some b) ≡ ok config)
          × (by_profile (ipxe_handler texts) ≡ some (write_or_fail script ∷ []))
          × (by_profile (grub_handler texts) ≡ some (write_or_fail config ∷ [])))
        ⊎ ((((e : Error) × (core.select_profile s (some (labels_from_request req)) ≡ err e))
              ⊎ ((p : Profile) × (core.select_profile s (some (labels_from_request req)) ≡ ok p)
                  × (p.boot ≡ none)))
            × (by_profile (ipxe_handler texts) ≡ some not_found)
            × (by_profile (grub_handler texts) ≡ some not_found))
    unfolding ipxe_handler grub_handler ipxe_script grub_config profile_from_context with_profile
    boot_served = elim (Result-cases (core.select_profile s (some (labels_from_request req)))) [
      | inr (e, h) ↦ inr (inl (e, h), by_profile_err _ e h, by_profile_err _ e h)
      | inl (p, h) ↦ elim (Option-cases p.boot) [
        | inl n ↦
            inr (inr (p, h, n), by_profile_ok _ p h ∙ rw n refl, by_profile_ok _ p h ∙ rw n refl)
        | inr (b, n) ↦
            let (script, config, i, g, served, configured) = handlers_of_boot p b n in
            inl (
              p,
              b,
              script,
              config,
              h,
              n,
              i,
              g,
              by_profile_ok _ p h ∙ served,
              by_profile_ok _ p h ∙ configured,
            )
      ]
    ]

module _ (store : Store) (sorts : Sorts) (s : store.State) (req : Request) where
  -- For a path that ends in a MAC address, the Pixiecore endpoint answers with the boot settings
  -- of the profile that the core selects for the label `mac` in printed form, or with 404 if it
  -- selects none.
  pub pixiecore_selects :
      (json : Json) (mac : List ℕ)
      → parse_mac (base req.path) ≡ some mac
      → pixiecore_handler (new_server store sorts) s json background req
        ≡ (elim (select_profile store sorts s (some ((mac_key, mac_string mac) ∷ []))) [
          | ok p ↦ some (render_json (json.marshal_boot p.boot))
          | err e ↦ some not_found
        ])
  unfolding pixiecore_handler select_profile
  pixiecore_selects json mac h =
      elim (Result-cases (select_group store sorts s (some ((mac_key, mac_string mac) ∷ [])))) [
        | inr (e, p) ↦ rw (pixiecore_handler, select_profile, h, p) refl
        | inl (g, p) ↦ elim (Result-cases (profile_get store sorts s g.profile)) [
          | inr (e, q) ↦ rw (pixiecore_handler, select_profile, h, p, q) refl
          | inl (profile, q) ↦ rw (pixiecore_handler, select_profile, h, p, q) refl
        ]
      ]
