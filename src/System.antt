-- ===== src/System.antt =====
-- The programs together: what `bootcmd` of bootcfg/cli puts over the services of bootcfg/rpc is what
-- bootcfg/http serves.
pub mod Ignition
use mathlib.Core.List.{Mem}
use coreos_baremetal.Prelude.{◌≡◌, ◌∙◌, sym, ap, ℕ, true, false, some, List, [], ◌∷◌}
use coreos_baremetal.Prelude.Text.{Text, text}
use coreos_baremetal.Golang.Errors.{ok, Result}
use coreos_baremetal.Golang.Http.{Request, write_or_fail, status_ok}
use coreos_baremetal.Golang.Http.Recorder.{respond}
use coreos_baremetal.Storagepb.Json.{Group, Profile, NetBoot, Json}
use coreos_baremetal.Storagepb.Group.{matches, by_reqs_less}
use coreos_baremetal.Storage.Store.{Store}
use coreos_baremetal.Storage.Store.Keeping.{IsKeeping}
use coreos_baremetal.Server.{Core, Sorts, new_server, group_put, profile_put}
use coreos_baremetal.Http.Parse.{labels_from_request}
use coreos_baremetal.Http.Render.{Libraries}
use coreos_baremetal.Http.Boot.{ipxe_script}
use coreos_baremetal.Http.Boot.Provisioned.{after_profile, after_both, provisioned}
use coreos_baremetal.Http.Handlers.{Handler}
use coreos_baremetal.Http.Routes.{HttpServer, http_handler}
use coreos_baremetal.Cli.{
  Command, returned, run_group_put, run_profile_put, load_group, load_profile,
}
use coreos_baremetal.Cli.Created.{group_created, profile_created}

pub same_of_ok : {A : Type 0} {r : Result A} {a b : A} → r ≡ ok a → r ≡ ok b → a ≡ b
same_of_ok h k = let same = sym h ∙ k in cc

module _ (store : Store) {FitsGroup : Group → Type 0} {FitsProfile : Profile → Type 0}
    (K : IsKeeping store FitsGroup FitsProfile) (sorts : Sorts) (cmd : Command) (json : Json) where
  -- What the two `create` commands have put when they end without an error.
  pub both_put :
      (s t u : store.State) (c d : ℕ) (profile_file group_file : Text) (p : Profile) (g : Group)
      → run_profile_put cmd json (new_server store sorts) s (c ∷ profile_file) [] ≡ (t, returned)
      → run_group_put cmd json (new_server store sorts) t (d ∷ group_file) [] ≡ (u, returned)
      → load_profile cmd json (new_server store sorts) (c ∷ profile_file) ≡ ok p
      → load_group cmd json (new_server store sorts) (d ∷ group_file) ≡ ok g
      → (q : Profile) × (h : Group) × ((profile_put store sorts s p).1 ≡ ok q)
        × ((group_put store sorts (after_profile store K sorts s p g) g).1 ≡ ok h)
        × (u ≡ after_both store K sorts s p g)
  both_put s t u c d profile_file group_file p g e e' l l' =
      let core = new_server store sorts in
      let (p', q, lp, stored, to_t) = profile_created cmd json core s t c profile_file e in
      let (g', h, lg, stored', to_u) = group_created cmd json core t u d group_file e' in
      let same_p = same_of_ok lp l in
      let same_g = same_of_ok lg l' in
      let first : t ≡ (profile_put store sorts s p).0 =
        to_t ∙ ap (λ x. (profile_put store sorts s x).0) same_p in
      (
        q,
        h,
        ap (λ x. (profile_put store sorts s x).1) (sym same_p) ∙ stored,
        ap (λ v. (group_put store sorts v g).1) (sym first)
            ∙ ap (λ x. (group_put store sorts t x).1) (sym same_g)
            ∙ stored',
        to_u
            ∙ ap (λ x. (group_put store sorts t x).0) same_g
            ∙ ap (λ v. (group_put store sorts v g).0) first,
      )

module _ (lib : Libraries) (json : Json) (file_server : Text → Handler) (server : HttpServer)
    (store : Store) {FitsGroup : Group → Type 0} {FitsProfile : Profile → Type 0}
    (K : IsKeeping store FitsGroup FitsProfile) (sorts : Sorts) (cmd : Command) where
  abbrev core : Core
  core = new_server store sorts

  -- `bootcmd profile create` and then `bootcmd group create`, each given a file name and no other
  -- argument, have ended without an error, over a store that keeps what fits it. If the profile of
  -- the one file and the group of the other fit the store, the profile has boot settings and the
  -- group names it, a request for `/ipxe` whose labels match the group, and no other group that
  -- ranks as high, is answered with status 200 and the iPXE script of the profile, whatever signers
  -- and assets the server has.
  pub created_boots :
      (s t u : store.State) (c d : ℕ) (profile_file group_file : Text) (p : Profile) (b : NetBoot)
      (g : Group) (req : Request)
      → FitsProfile p
      → FitsGroup g
      → run_profile_put cmd json core s (c ∷ profile_file) [] ≡ (t, returned)
      → run_group_put cmd json core t (d ∷ group_file) [] ≡ (u, returned)
      → load_profile cmd json core (c ∷ profile_file) ≡ ok p
      → load_group cmd json core (d ∷ group_file) ≡ ok g
      → g.profile ≡ p.id
      → p.boot ≡ some b
      → req.path ≡ text "/ipxe"
      → matches g (some (labels_from_request req)) ≡ true
      → ((groups : List Group) (x : Group)
          → store.group_list u ≡ ok groups
          → Mem x groups
          → matches x (some (labels_from_request req)) ≡ true
          → by_reqs_less sorts.texts x g ≡ false
          → x ≡ g)
      → (script : Text) × (ipxe_script sorts.texts (some b) ≡ ok script)
        × (http_handler lib json sorts.texts core u file_server server req
            ≡ some (write_or_fail script ∷ []))
        × (respond (write_or_fail script ∷ [])
            ≡ record { status = some status_ok; header = []; body = script })
  created_boots s t u c d profile_file group_file p b g req fp fg e e' l l' names boot path m
        above =
      let (q, h, stored, stored', both) =
        both_put store K sorts cmd json s t u c d profile_file group_file p g e e' l l' in
      let (script, i, served, response) =
        provisioned lib json file_server server store K sorts s p q b g h req fp fg stored stored'
          names boot path m (λ groups x list. above groups x (ap store.group_list both ∙ list)) in
      (
        script,
        i,
        ap (λ v. http_handler lib json sorts.texts core v file_server server req) both ∙ served,
        response,
      )
