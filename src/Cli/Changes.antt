-- ===== src/Cli/Changes.antt =====
-- What a run of `bootcmd` changes, over the commands of bootcfg/cli.
use coreos_baremetal.Prelude.{
  Option, Option-cases, [], ◌∷◌, ◌≡◌, ◌≢◌, ◌∙◌, refl, ap, ◌⊎◌, inl, inr, List, All,
}
use coreos_baremetal.Prelude.Text.{Text}
use coreos_baremetal.Golang.Errors.{ok, Result, Result-cases}
use coreos_baremetal.Golang.FilePath.{base}
use coreos_baremetal.Storagepb.Json.{Group, Profile, Json}
use coreos_baremetal.Storagepb.Group.Normal.{IsNormal}
use coreos_baremetal.Server.{Core}
use coreos_baremetal.Rpc
use coreos_baremetal.Cli.{
  run_profile_describe, run_group_describe, run_group_list, run_profile_list, Command, Outcome,
  status_outcome, load_group, load_profile, run_profile_put, run_ignition_put, must_client_from_cmd,
  some,
}
use coreos_baremetal.Cli.Sent.{create_command-cases, must_client-Early, run_group_put_lem}
use coreos_baremetal.Cli.Commands.{
  group_list, profile_list, group_describe, profile_describe, not_implemented, display_version,
  Handler, group_put, profile_put, ignition_put, Ending, ended, run_handler, Runtime, bootcmd,
  Commands, Invocation, root_command,
}

module _ (cmd : Command) (json : Json) (core : Core) (s : core.State) where
  -- What the run of a handler with a file name sends, and how it then ends.
  pub data Sends (filename : Text) : Handler → core.State × Ending → Type 0 where
    sent_group :
        (g : Group)
        → load_group cmd json core filename ≡ ok g
        → All IsNormal g.selector
        → Sends filename group_put
            ((Rpc.group_put core s g).0, ended (status_outcome (Rpc.group_put core s g).1))
    sent_profile :
        (p : Profile)
        → load_profile cmd json core filename ≡ ok p
        → Sends filename profile_put
            ((Rpc.profile_put core s p).0, ended (status_outcome (Rpc.profile_put core s p).1))
    sent_ignition :
        (config : Text)
        → cmd.read_file filename ≡ ok config
        → Sends filename ignition_put (
          (Rpc.ignition_put core s (base filename) config).0,
          ended (status_outcome (Rpc.ignition_put core s (base filename) config).1),
        )

  -- A command that asks keeps the state.
  asked : (o : Outcome) → (must_client_from_cmd cmd json core s (s, o)).0 ≡ s
  asked o = elim (must_client-Early cmd json core s (s, o)) [
    | inl (code, e) ↦ ap (λ r. r.0) e
    | inr e ↦ ap (λ r. r.0) e
  ]

  profile_put_cases :
      (filename : Text) (args : List Text)
      → ((run_profile_put cmd json core s filename args).0 ≡ s)
        ⊎ ((filename ≢ [])
            × (args ≡ [])
            × (p : Profile) × (load_profile cmd json core filename ≡ ok p)
            × (run_profile_put cmd json core s filename args
                ≡ ((Rpc.profile_put core s p).0, status_outcome (Rpc.profile_put core s p).1)))
  unfolding run_profile_put
  profile_put_cases filename args = elim (create_command-cases cmd json core s _ filename args) [
    | inl e ↦ inl e
    | inr (f, a, e) ↦ elim (Result-cases (load_profile cmd json core filename)) [
      | inr (x, p) ↦ inl (ap (λ r. r.0) e ∙ rw p refl)
      | inl (p, h) ↦ inr (f, a, p, h, e ∙ rw h refl)
    ]
  ]

  ignition_put_cases :
      (filename : Text) (args : List Text)
      → ((run_ignition_put cmd json core s filename args).0 ≡ s)
        ⊎ ((filename ≢ [])
            × (args ≡ [])
            × (config : Text) × (cmd.read_file filename ≡ ok config)
            × (run_ignition_put cmd json core s filename args ≡ (
              (Rpc.ignition_put core s (base filename) config).0,
              status_outcome (Rpc.ignition_put core s (base filename) config).1,
            )))
  unfolding run_ignition_put
  ignition_put_cases filename args = elim (create_command-cases cmd json core s _ filename args) [
    | inl e ↦ inl e
    | inr (f, a, e) ↦ elim (Result-cases (cmd.read_file filename)) [
      | inr (x, p) ↦ inl (ap (λ r. r.0) e ∙ rw p refl)
      | inl (config, h) ↦ inr (f, a, config, h, e ∙ rw h refl)
    ]
  ]

  -- What a handler sends, if it changes the state.
  abbrev pub Kept : Text → List Text → Handler → core.State × Ending → Type 0
  Kept filename args handler r =
      (r.0 ≡ s) ⊎ ((filename ≢ []) × (args ≡ []) × Sends filename handler r)

  group_put-Kept :
      (rt : Runtime) (filename : Text) (args : List Text)
      → Kept filename args group_put (run_handler rt cmd json core group_put s filename args)
  unfolding run_handler
  group_put-Kept rt filename args = elim (run_group_put_lem cmd json core s filename args) [
    | inl e ↦ inl e
    | inr (f, a, g, h, n, e) ↦ inr (f, a, rw (e) (sent_group g h n))
  ]

  profile_put-Kept :
      (rt : Runtime) (filename : Text) (args : List Text)
      → Kept filename args profile_put (run_handler rt cmd json core profile_put s filename args)
  unfolding run_handler
  profile_put-Kept rt filename args = elim (profile_put_cases filename args) [
    | inl e ↦ inl e
    | inr (f, a, p, h, e) ↦ inr (f, a, rw (e) (sent_profile p h))
  ]

  ignition_put-Kept :
      (rt : Runtime) (filename : Text) (args : List Text)
      → Kept filename args ignition_put (run_handler rt cmd json core ignition_put s filename args)
  unfolding run_handler
  ignition_put-Kept rt filename args = elim (ignition_put_cases filename args) [
    | inl e ↦ inl e
    | inr (f, a, config, h, e) ↦ inr (f, a, rw (e) (sent_ignition config h))
  ]

  described :
      (run : core.State → List Text → core.State × Outcome)
      → ((id : Text) → (run s (id ∷ [])).0 ≡ s)
      → (run s []).0 ≡ s
      → ((a b : Text) (rest : List Text) → (run s (a ∷ b ∷ rest)).0 ≡ s)
      → (args : List Text) → (run s args).0 ≡ s
  described run one none' more [] = none'
  described run one none' more (id ∷ []) = one id
  described run one none' more (a ∷ b ∷ rest) = more a b rest

  run_handler-Kept :
      (rt : Runtime) (handler : Handler) (filename : Text) (args : List Text)
      → Kept filename args handler (run_handler rt cmd json core handler s filename args)
  unfolding run_handler run_group_describe run_group_list run_profile_describe run_profile_list
  run_handler-Kept rt group_put filename args = group_put-Kept rt filename args
  run_handler-Kept rt profile_put filename args = profile_put-Kept rt filename args
  run_handler-Kept rt ignition_put filename args = ignition_put-Kept rt filename args
  run_handler-Kept rt group_list filename args = inl (asked _)
  run_handler-Kept rt profile_list filename args = inl (asked _)
  run_handler-Kept rt group_describe filename args =
      inl
        (described (run_group_describe cmd json core) (λ id. asked _) refl (λ a b rest. refl) args)
  run_handler-Kept rt profile_describe filename args =
      inl (
        described (run_profile_describe cmd json core) (λ id. asked _) refl (λ a b rest. refl) args)
  run_handler-Kept rt not_implemented filename args = inl refl
  run_handler-Kept rt display_version filename args = inl refl

  -- Whatever cobra makes of a command line, `bootcmd` leaves the service as it was, or the command
  -- is one of the three `create` commands with a file name and no other argument, and sends the
  -- service what that file holds: a group, whose MAC addresses are normalized, a profile, or the
  -- file itself under its base name; it then ends as the answer says.
  pub bootcmd_changes :
      (rt : Runtime) (find : Commands → List Text → Result (Option Invocation)) (argv : List Text)
      → ((bootcmd rt cmd json core find s argv).0 ≡ s)
        ⊎ ((call : Invocation) × (handler : Handler) × (find root_command argv ≡ ok (some call))
            × (call.cobra_command.handler ≡ some handler)
            × (call.filename ≢ [])
            × (call.args ≡ [])
            × Sends call.filename handler (bootcmd rt cmd json core find s argv))
  unfolding bootcmd
  bootcmd_changes rt find argv = elim (Result-cases (find root_command argv)) [
    | inr (x, p) ↦ inl (rw (p, bootcmd) refl)
    | inl (found, p) ↦ elim (Option-cases found) [
      | inl n ↦ inl (rw (p, n, bootcmd) refl)
      | inr (call, c) ↦ elim (Option-cases call.cobra_command.handler) [
        | inl n ↦ inl (rw (p, c, n, bootcmd) refl)
        | inr (handler, h) ↦ elim (run_handler-Kept rt handler call.filename call.args) [
          | inl e ↦ inl (rw (p, c, h, bootcmd) e)
          | inr (f, a, sent) ↦ inr (call, handler, p ∙ ap ok c, h, f, a, rw (p, c, h, bootcmd) sent)
        ]
      ]
    ]
  ]
