-- ===== src/System/Ignition.antt =====
-- The Ignition config that `bootcmd ignition create` (bootcfg/cli/ignition_create.go) puts is what
-- bootcfg/http/ignition.go serves.
use mathlib.Core.List.{Mem}
use coreos_baremetal.Prelude.{◌≡◌, ◌∙◌, sym, ap, ℕ, true, false, some, List, [], ◌∷◌}
use coreos_baremetal.Prelude.Text.{Text, text}
use coreos_baremetal.Golang.Errors.{ok}
use coreos_baremetal.Golang.FilePath.{base}
use coreos_baremetal.Golang.Http.{Request, status_ok}
use coreos_baremetal.Golang.Http.Recorder.{respond}
use coreos_baremetal.Storagepb.Json.{Group, Profile, Json}
use coreos_baremetal.Storagepb.Group.{matches, by_reqs_less}
use coreos_baremetal.Storage.Store.{Store}
use coreos_baremetal.Storage.Store.Keeping.{IsKeeping, KeepsIgnition}
use coreos_baremetal.Server.{Sorts, new_server, ignition_get, group_put, profile_put, profile_get}
use coreos_baremetal.Server.Puts.{ignition_put-eq-ok, profile_put-eq-ok, group_put-eq-ok}
use coreos_baremetal.Http.Parse.{labels_from_request}
use coreos_baremetal.Http.Render.{Libraries, write_json}
use coreos_baremetal.Http.Boot.Provisioned.{after_profile, after_both, profile_kept, group_selected}
use coreos_baremetal.Http.Configs.{is_ignition}
use coreos_baremetal.Http.Configs.Provisioned.{raw_served, json_response}
use coreos_baremetal.Http.Handlers.{Handler}
use coreos_baremetal.Http.Routes.{HttpServer, http_handler}
use coreos_baremetal.Cli.{
  Command, returned, run_group_put, run_profile_put, run_ignition_put, load_group, load_profile,
}
use coreos_baremetal.Cli.Created.{ignition_created}
use coreos_baremetal.System.{both_put}

module _ (store : Store) {FitsGroup : Group → Type 0} {FitsProfile : Profile → Type 0}
    {IsName : Text → Type 0} (K : IsKeeping store FitsGroup FitsProfile)
    (I : KeepsIgnition store FitsGroup FitsProfile IsName) (sorts : Sorts) where
  -- A template is still there after a profile and a group were put.
  template_kept :
      (s : store.State) (p q : Profile) (g h : Group) (name config : Text)
      → FitsProfile p
      → FitsGroup g
      → IsName name
      → (profile_put store sorts s p).1 ≡ ok q
      → (group_put store sorts (after_profile store K sorts s p g) g).1 ≡ ok h
      → store.ignition_get s name ≡ ok config
      → store.ignition_get (after_both store K sorts s p g) name ≡ ok config
  template_kept s p q g h name config fp fg n e e' get =
      let (same, valid, stored, state) = profile_put-eq-ok store sorts s p q e in
      let t = after_profile store K sorts s p g in
      let (same', valid', stored', state') = group_put-eq-ok store sorts t g h e' in
      ap (λ v. store.ignition_get v name) state'
      ∙ I.ignition_get-group_put t g name config fg n (
          ap (λ v. store.ignition_get v name) state
          ∙ I.ignition_get-profile_put s p name config fp n get)

  -- What `bootcmd ignition create` has put.
  template_created :
      (cmd : Command) (json : Json) (r s : store.State) (c : ℕ) (file config : Text)
      → run_ignition_put cmd json (new_server store sorts) r (c ∷ file) [] ≡ (s, returned)
      → cmd.read_file (c ∷ file) ≡ ok config
      → store.ignition_get s (base (c ∷ file)) ≡ ok config
  template_created cmd json r s c file config e l =
      let (config', stored, l', put, to_s) =
        ignition_created cmd json (new_server store sorts) r s c file e in
      let (kept, state) = ignition_put-eq-ok store sorts r (base (c ∷ file)) config' stored put in
      ap (λ v. store.ignition_get v (base (c ∷ file))) (to_s ∙ state)
      ∙ I.ignition_get-put r (base (c ∷ file)) config' kept
      ∙ (sym l' ∙ l)

module _ (lib : Libraries) (json : Json) (file_server : Text → Handler) (server : HttpServer)
    (store : Store) {FitsGroup : Group → Type 0} {FitsProfile : Profile → Type 0}
    {IsName : Text → Type 0} (K : IsKeeping store FitsGroup FitsProfile)
    (I : KeepsIgnition store FitsGroup FitsProfile IsName) (sorts : Sorts) (cmd : Command) where
  -- `bootcmd ignition create`, `bootcmd profile create` and then `bootcmd group create`, each given
  -- a file name and no other argument, have ended without an error, over a store that keeps what
  -- fits it. If the base name of the first file is a name of a template that ends in `.ign` or
  -- `.ignition`, the profile of the second file has it as its Ignition id, the group of the third
  -- names the profile, and both fit the store, a request for `/ignition` whose labels match the
  -- group, and no other group that ranks as high, is answered with status 200 and the first file as
  -- it is, as JSON, whatever signers and assets the server has.
  pub created_ignites :
      (r s t u : store.State) (a c d : ℕ) (ignition_file profile_file group_file config : Text)
      (p : Profile) (g : Group) (req : Request)
      → FitsProfile p
      → FitsGroup g
      → IsName (base (a ∷ ignition_file))
      → run_ignition_put cmd json (new_server store sorts) r (a ∷ ignition_file) [] ≡ (s, returned)
      → run_profile_put cmd json (new_server store sorts) s (c ∷ profile_file) [] ≡ (t, returned)
      → run_group_put cmd json (new_server store sorts) t (d ∷ group_file) [] ≡ (u, returned)
      → cmd.read_file (a ∷ ignition_file) ≡ ok config
      → load_profile cmd json (new_server store sorts) (c ∷ profile_file) ≡ ok p
      → load_group cmd json (new_server store sorts) (d ∷ group_file) ≡ ok g
      → p.ignition_id ≡ base (a ∷ ignition_file)
      → is_ignition p.ignition_id ≡ true
      → g.profile ≡ p.id
      → req.path ≡ text "/ignition"
      → matches g (some (labels_from_request req)) ≡ true
      → ((groups : List Group) (x : Group)
          → store.group_list u ≡ ok groups
          → Mem x groups
          → matches x (some (labels_from_request req)) ≡ true
          → by_reqs_less sorts.texts x g ≡ false
          → x ≡ g)
      → (http_handler lib json sorts.texts (new_server store sorts) u file_server server req
          ≡ some (write_json config))
        × (respond (write_json config) ≡ record {
          status = some status_ok;
          header = (text "Content-Type", text "application/json") ∷ [];
          body = config;
        })
  unfolding ignition_get
  created_ignites r s t u a c d ignition_file profile_file group_file config p g req fp fg n e e'
        e'' l l' l'' id raw names path m above =
      let core = new_server store sorts in
      let (q, h, stored, stored', both) =
        both_put store K sorts cmd json s t u c d profile_file group_file p g e' e'' l' l'' in
      let v = after_both store K sorts s p g in
      let chosen =
        group_selected store K sorts s p g q h (some (labels_from_request req)) fp fg stored stored'
          m (λ groups x list. above groups x (ap store.group_list both ∙ list)) in
      let profile =
        ap (profile_get store sorts v) names
        ∙ profile_kept store K sorts s p g q h fp fg stored stored' in
      let template =
        ap (store.ignition_get v) id
        ∙ template_kept store K I sorts s p q g h (base (a ∷ ignition_file)) config fp fg n stored
            stored' (template_created store K I sorts cmd json r s a ignition_file config e l) in
      (
        ap (λ w. http_handler lib json sorts.texts core w file_server server req) both
            ∙ raw_served lib json core v sorts.texts file_server server req g p config chosen
                profile template raw path,
        json_response config,
      )
