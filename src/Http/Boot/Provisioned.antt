-- ===== src/Http/Boot/Provisioned.antt =====
-- From a put to a boot: bootcfg/server/server.go, bootcfg/http/server.go and bootcfg/http/ipxe.go
-- over a store that keeps what was put.
use mathlib.Core.List.{Mem}
use coreos_baremetal.Prelude.{◌≡◌, refl, ap, ◌∙◌, true, some, List, [], ◌∷◌, false}
use coreos_baremetal.Prelude.Text.{Text, text}
use coreos_baremetal.Golang.Errors.{ok}
use coreos_baremetal.Golang.Http.{Request, write_or_fail, run, run_call, status_ok}
use coreos_baremetal.Golang.Http.Recorder.{respond}
use coreos_baremetal.Storagepb.Json.{Group, Profile, NetBoot, Json}
use coreos_baremetal.Storagepb.Group.{matches, by_reqs_less}
use coreos_baremetal.Storage.Store.{Store}
use coreos_baremetal.Storage.Store.Keeping.{IsKeeping}
use coreos_baremetal.Server.{
  Labels, Sorts, new_server, select_group, group_put, profile_put, profile_get, select_profile,
}
use coreos_baremetal.Server.Selection.Winner.{select_group_wins}
use coreos_baremetal.Server.Profiles.{select_profile_iff}
use coreos_baremetal.Server.Puts.{group_put-eq-ok, profile_put-eq-ok}
use coreos_baremetal.Http.Parse.{labels_from_request}
use coreos_baremetal.Http.Render.{Libraries}
use coreos_baremetal.Http.Boot.{ipxe_script, ipxe_handler}
use coreos_baremetal.Http.Boot.Served.{by_profile_ok, handlers_of_boot}
use coreos_baremetal.Http.Handlers.{Handler}
use coreos_baremetal.Http.Routes.{HttpServer, http_handler, serve_mux}
use coreos_baremetal.Http.Routes.Signatures.{handler_at}
use coreos_baremetal.Http.Routes.Plain.{routes-PlainEndpoints}

module _ (store : Store) {FitsGroup : Group → Type 0} {FitsProfile : Profile → Type 0}
    (K : IsKeeping store FitsGroup FitsProfile) (sorts : Sorts) (s : store.State) (p : Profile)
    (g : Group) where
  abbrev pub after_profile : store.State
  after_profile = (profile_put store sorts s p).0

  abbrev pub after_both : store.State
  after_both = (group_put store sorts after_profile g).0

  pub profile_kept :
      (q : Profile) (h : Group)
      → FitsProfile p
      → FitsGroup g
      → (profile_put store sorts s p).1 ≡ ok q
      → (group_put store sorts after_profile g).1 ≡ ok h
      → profile_get store sorts after_both p.id ≡ ok p
  unfolding profile_get
  profile_kept q h fp fg e e' =
      let (same, valid, stored, state) = profile_put-eq-ok store sorts s p q e in
      let (same', valid', stored', state') = group_put-eq-ok store sorts after_profile g h e' in
      let first : store.profile_get after_profile p.id ≡ ok p =
        ap (λ t. store.profile_get t p.id) state ∙ K.profile_get-put s p fp valid stored in
      let second : store.profile_get after_both p.id ≡ ok p =
        ap (λ t. store.profile_get t p.id) state'
        ∙ K.profile_get-group_put after_profile g p fg fp first in
      rw (profile_get, second, valid) refl

  -- No other group that matches ranks as high as the one that is put.
  module _ (q : Profile) (h : Group) (labels : Labels) (fp : FitsProfile p) (fg : FitsGroup g)
      (e : (profile_put store sorts s p).1 ≡ ok q)
      (e' : (group_put store sorts after_profile g).1 ≡ ok h) (m : matches g labels ≡ true)
      (above : (groups : List Group) (x : Group)
        → store.group_list after_both ≡ ok groups
        → Mem x groups
        → matches x labels ≡ true
        → by_reqs_less sorts.texts x g ≡ false
        → x ≡ g) where
    pub group_selected : select_group store sorts after_both labels ≡ ok g
    group_selected =
        let (same, valid, stored, state) = group_put-eq-ok store sorts after_profile g h e' in
        let (groups, listed, member) = K.group_list-put after_profile g fg stored in
        let list : store.group_list after_both ≡ ok groups = rw state listed in
        select_group_wins store sorts after_both labels groups g list member m
          (λ x. above groups x list)

    -- The profile that the group names is selected.
    selected : g.profile ≡ p.id → select_profile store sorts after_both labels ≡ ok p
    selected names = (select_profile_iff store sorts after_both labels p).1 (
      g,
      group_selected,
      ap (profile_get store sorts after_both) names ∙ profile_kept q h fp fg e e',
    )

module _ (lib : Libraries) (json : Json) (file_server : Text → Handler) (server : HttpServer)
    (store : Store) {FitsGroup : Group → Type 0} {FitsProfile : Profile → Type 0}
    (K : IsKeeping store FitsGroup FitsProfile) (sorts : Sorts) where
  -- Over a store that keeps what fits it: once a profile with boot settings and then a group that
  -- names it, both of which fit the store, have been put without an error, a request for `/ipxe`
  -- whose labels match the group and no other group that ranks as high is answered with status
  -- 200 and the iPXE script of the profile, whatever signers and assets the server has.
  pub provisioned :
      (s : store.State) (p q : Profile) (b : NetBoot) (g h : Group) (req : Request)
      → FitsProfile p
      → FitsGroup g
      → (profile_put store sorts s p).1 ≡ ok q
      → (group_put store sorts (after_profile store K sorts s p g) g).1 ≡ ok h
      → g.profile ≡ p.id
      → p.boot ≡ some b
      → req.path ≡ text "/ipxe"
      → matches g (some (labels_from_request req)) ≡ true
      → ((groups : List Group) (x : Group)
          → store.group_list (after_both store K sorts s p g) ≡ ok groups
          → Mem x groups
          → matches x (some (labels_from_request req)) ≡ true
          → by_reqs_less sorts.texts x g ≡ false
          → x ≡ g)
      → (script : Text) × (ipxe_script sorts.texts (some b) ≡ ok script)
        × (http_handler lib json sorts.texts
              (new_server store sorts)
              (after_both store K sorts s p g)
              file_server
              server
              req
            ≡ some (write_or_fail script ∷ []))
        × (respond (write_or_fail script ∷ [])
            ≡ record { status = some status_ok; header = []; body = script })
  unfolding http_handler serve_mux respond run run_call
  provisioned s p q b g h req fp fg e e' names boot path m above =
      let core = new_server store sorts in
      let t = after_both store K sorts s p g in
      let chosen =
        selected store K sorts s p g q h (some (labels_from_request req)) fp fg e e' m above
          names in
      let (script, config, i, c, served, configured) =
        handlers_of_boot core t req sorts.texts p b boot in
      let route = (routes-PlainEndpoints lib json sorts.texts core t file_server server).3 in
      (
        script,
        i,
        ap (λ at. handler_at lib json sorts.texts core t file_server server at req) path
            ∙ ap (λ endpoint. endpoint req) route
            ∙ by_profile_ok core t req (ipxe_handler sorts.texts) p chosen
            ∙ served,
        refl,
      )
