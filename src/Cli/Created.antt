-- ===== src/Cli/Created.antt =====
-- What the commands of bootcfg/cli/group_create.go, profile_create.go and ignition_create.go have
-- done when they end without an error.
use coreos_baremetal.Prelude.{◌≡◌, ◌∙◌, sym, ap, refl, ℕ, Option, none, some, inl, inr, [], ◌∷◌}
use coreos_baremetal.Prelude.Text.{Text}
use coreos_baremetal.Golang.Errors.{Result, ok, err}
use coreos_baremetal.Golang.FilePath.{base}
use coreos_baremetal.Storagepb.Json.{Group, Profile, Json}
use coreos_baremetal.Server.{Core}
use coreos_baremetal.Rpc.{grpc_error, error_of, Status}
use coreos_baremetal.Rpc
use coreos_baremetal.Cli.{
  Command, Outcome, returned, or_exit, exit_error, status_outcome, load_group, load_profile,
  run_group_put, run_profile_put, run_ignition_put, create_command,
}
use coreos_baremetal.Cli.Sent.{create_command-Early}

returned-status : (o : Option Status) → status_outcome o ≡ returned → o ≡ none
returned-status none h = refl
returned-status (some status) h = absurd (cc)

ok_of_status : {A : Type 0} (r : Result A) → grpc_error (error_of r) ≡ none → (a : A) × (r ≡ ok a)
unfolding grpc_error
ok_of_status (ok a) h = (a, refl)
ok_of_status (err e) h = absurd (cc)

module _ (cmd : Command) (json : Json) (core : Core) (s t : core.State) (c : ℕ) (file : Text) where
  -- A `create` command that ends without an error has gone on.
  went_on :
      (next : core.State × Outcome)
      → create_command cmd json core s (c ∷ file) [] next ≡ (t, returned)
      → next ≡ (t, returned)
  went_on next h = elim (create_command-Early cmd json core s next c file) [
    | inl (code, e) ↦ absurd (let same = sym e ∙ h in cc)
    | inr e ↦ sym e ∙ h
  ]

  loaded :
      {A : Type 0} (r : Result A) (k : A → core.State × Outcome)
      → or_exit exit_error s r k ≡ (t, returned)
      → (a : A) × (r ≡ ok a) × (k a ≡ (t, returned))
  loaded (ok a) k h = (a, refl, h)
  loaded (err e) k h = absurd (cc)

  -- A group was loaded and put.
  pub group_created :
      run_group_put cmd json core s (c ∷ file) [] ≡ (t, returned)
      → (g : Group) × (h : Group) × (load_group cmd json core (c ∷ file) ≡ ok g)
        × ((core.group_put s g).1 ≡ ok h)
        × (t ≡ (core.group_put s g).0)
  unfolding run_group_put Rpc.group_put
  group_created e =
      let (g, p, sent) = loaded (load_group cmd json core (c ∷ file)) _ (went_on _ e) in
      let (h, q) =
        ok_of_status (core.group_put s g).1
          (returned-status (Rpc.group_put core s g).1 (ap (λ r. r.1) sent)) in
      (g, h, p, q, ap (λ r. r.0) (sym sent))

  -- A profile was loaded and put.
  pub profile_created :
      run_profile_put cmd json core s (c ∷ file) [] ≡ (t, returned)
      → (p : Profile) × (q : Profile) × (load_profile cmd json core (c ∷ file) ≡ ok p)
        × ((core.profile_put s p).1 ≡ ok q)
        × (t ≡ (core.profile_put s p).0)
  unfolding run_profile_put Rpc.profile_put
  profile_created e =
      let (p, l, sent) = loaded (load_profile cmd json core (c ∷ file)) _ (went_on _ e) in
      let (q, stored) =
        ok_of_status (core.profile_put s p).1
          (returned-status (Rpc.profile_put core s p).1 (ap (λ r. r.1) sent)) in
      (p, q, l, stored, ap (λ r. r.0) (sym sent))

  -- A file was read and put as an Ignition template.
  pub ignition_created :
      run_ignition_put cmd json core s (c ∷ file) [] ≡ (t, returned)
      → (config : Text) × (stored : Text) × (cmd.read_file (c ∷ file) ≡ ok config)
        × ((core.ignition_put s (base (c ∷ file)) config).1 ≡ ok stored)
        × (t ≡ (core.ignition_put s (base (c ∷ file)) config).0)
  unfolding run_ignition_put Rpc.ignition_put
  ignition_created e =
      let (config, l, sent) = loaded (cmd.read_file (c ∷ file)) _ (went_on _ e) in
      let (r, stored) = ok_of_status (core.ignition_put s (base (c ∷ file)) config).1 (
        returned-status (Rpc.ignition_put core s (base (c ∷ file)) config).1
          (ap (λ r. r.1) sent)) in
      (config, r, l, stored, ap (λ r. r.0) (sym sent))
