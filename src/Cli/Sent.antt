-- ===== src/Cli/Sent.antt =====
-- What the command of bootcfg/cli/group_create.go changes.
use coreos_baremetal.Prelude.{
  ◌≡◌, ◌≢◌, ◌∙◌, refl, ℕ, Option, none, some, ◌⊎◌, inl, inr, ap, false, not, eqb, length, List, [],
  ◌∷◌, All, Bool-cases, arith,
}
use coreos_baremetal.Prelude.Text.{Text, text}
use coreos_baremetal.Golang.Errors.{Error, Result, ok, err, Result-cases, >>=-eq-ok}
use coreos_baremetal.Storagepb.Json.{Group, Json}
use coreos_baremetal.Storagepb.Group.Normal.{IsNormal}
use coreos_baremetal.Storagepb.Group.Rich.{parse_group-IsNormal}
use coreos_baremetal.Server.{Core}
use coreos_baremetal.Rpc
use coreos_baremetal.Cli.{
  tls_info_from_cmd, endpoints_from_cmd, exit_bad_args, Command, Outcome, or_exit, status_outcome,
  must_client_from_cmd, create_command, load_group, run_group_put, ℕ, exited, exit_bad_connection,
}
use coreos_baremetal.Tlsutil.{TlsInfo}

file_given : (c : ℕ) (file : Text) → eqb (length (c ∷ file)) 0 ≡ false
file_given c file = ground arith

given : (filename : Text) → eqb (length filename) 0 ≡ false → filename ≢ []
given filename h e = absurd (cc (rw (e) at h))

no_args : (args : List Text) → not (eqb (length args) 0) ≡ false → args ≡ []
no_args [] h = refl
no_args (a ∷ args) h = ground arith

module _ (cmd : Command) (json : Json) (core : Core) (s : core.State) where
  -- A connection is refused with an exit code, or the command goes on with `next`.
  module _ (next : core.State × Outcome) where
    abbrev pub Early : core.State × Outcome → Type 0
    Early r = ((code : ℕ) × (r ≡ (s, exited code))) ⊎ (r ≡ next)

    or_exit-Early {ℓ} :
        {A : Type ℓ} (code : ℕ) (r : Result A) (k : A → core.State × Outcome)
        → ((a : A) → Early (k a))
        → Early (or_exit code s r k)
    or_exit-Early code (ok a) k h = h a
    or_exit-Early code (err e) k h = inl (code, refl)

    connected :
        (o : Option Error)
        → Early (elim o [ none ↦ next | some e ↦ (s, exited exit_bad_connection) ])
    connected none = inr refl
    connected (some e) = inl (exit_bad_connection, refl)

    key_file-Early :
        (ca_file cert_file : Text) (k : TlsInfo → core.State × Outcome)
        → ((info : TlsInfo) → Early (k info))
        → Early (
            or_exit exit_bad_args s (cmd.get_string (text "key-file")) (λ key_file.
              k (record { ca_file = ca_file; cert_file = cert_file; key_file = key_file })))
    key_file-Early ca_file cert_file k h =
        or_exit-Early exit_bad_args (cmd.get_string (text "key-file"))
          (λ key_file. k (record { ca_file = ca_file; cert_file = cert_file; key_file = key_file }))
          (λ key_file. h (record { ca_file = ca_file; cert_file = cert_file; key_file = key_file }))

    tls_info-Early :
        (k : TlsInfo → core.State × Outcome)
        → ((info : TlsInfo) → Early (k info))
        → Early (tls_info_from_cmd cmd json core s k)
    unfolding tls_info_from_cmd
    tls_info-Early k h =
        or_exit-Early exit_bad_args (cmd.get_string (text "ca-file"))
          (λ ca_file. or_exit exit_bad_args s (cmd.get_string (text "cert-file")) λ cert_file.
            or_exit exit_bad_args s (cmd.get_string (text "key-file")) (λ key_file.
              k (record { ca_file = ca_file; cert_file = cert_file; key_file = key_file })))
          λ ca_file.
            or_exit-Early exit_bad_args (cmd.get_string (text "cert-file"))
              (λ cert_file. or_exit exit_bad_args s (cmd.get_string (text "key-file")) (λ key_file.
                k (record { ca_file = ca_file; cert_file = cert_file; key_file = key_file })))
              (λ cert_file. key_file-Early ca_file cert_file k h)

    -- The connection that the command opens, or its exit.
    abbrev connection : List Text → TlsInfo → core.State × Outcome
    connection endpoints info = or_exit exit_bad_args s (cmd.client_config info) λ tls.
        elim (cmd.new_client endpoints tls) [
          | none ↦ next
          | some e ↦ (s, exited exit_bad_connection)
        ]

    pub must_client-Early : Early (must_client_from_cmd cmd json core s next)
    unfolding must_client_from_cmd endpoints_from_cmd
    must_client-Early =
        or_exit-Early exit_bad_args (cmd.get_string_slice (text "endpoints"))
          (λ endpoints. tls_info_from_cmd cmd json core s (connection endpoints))
          λ endpoints. tls_info-Early (connection endpoints) λ info.
            or_exit-Early exit_bad_args (cmd.client_config info)
              (λ tls. elim (cmd.new_client endpoints tls) [
                | none ↦ next
                | some e ↦ (s, exited exit_bad_connection)
              ])
              (λ tls. connected (cmd.new_client endpoints tls))

    -- The state is kept by every end of a `create` command but for `next`, which needs a file name
    -- and no other argument.
    pub create_command-cases :
        (filename : Text) (args : List Text)
        → ((create_command cmd json core s filename args next).0 ≡ s)
          ⊎ ((filename ≢ [])
              × (args ≡ [])
              × (create_command cmd json core s filename args next ≡ next))
    unfolding create_command
    create_command-cases filename args = elim (Bool-cases (eqb (length filename) 0)) [
      | inl h ↦ inl (rw (create_command, h) refl)
      | inr h ↦ elim (Bool-cases (not (eqb (length args) 0))) [
        | inl k ↦ inl (rw (create_command, h, k) refl)
        | inr k ↦ elim must_client-Early [
          | inl (code, e) ↦ inl (rw (create_command, h, k, e) refl)
          | inr e ↦ inr (given filename h, no_args args k, rw (create_command, h, k) e)
        ]
      ]
    ]

    -- With a file and no arguments, a `create` command goes on as the connection allows.
    pub create_command-Early :
        (c : ℕ) (file : Text) → Early (create_command cmd json core s (c ∷ file) [] next)
    unfolding create_command
    create_command-Early c file = rw (create_command, file_given c file) must_client-Early

  -- `create` for a group leaves the service as it was, or, given a file name and no other argument,
  -- sends it exactly the group that the file holds, whose MAC addresses are normalized, and ends as
  -- the answer says.
  pub run_group_put_lem :
      (filename : Text) (args : List Text)
      → ((run_group_put cmd json core s filename args).0 ≡ s)
        ⊎ ((filename ≢ [])
            × (args ≡ [])
            × (g : Group) × (load_group cmd json core filename ≡ ok g)
            × All IsNormal g.selector
            × (run_group_put cmd json core s filename args
                ≡ ((Rpc.group_put core s g).0, status_outcome (Rpc.group_put core s g).1)))
  unfolding run_group_put load_group
  run_group_put_lem filename args = elim (create_command-cases _ filename args) [
    | inl e ↦ inl e
    | inr (f, a, e) ↦ elim (Result-cases (load_group cmd json core filename)) [
      | inr (x, p) ↦ inl (ap (λ r. r.0) e ∙ rw p refl)
      | inl (g, p) ↦
          let (data', q, parsed) = >>=-eq-ok (cmd.read_file filename) _ p in
          inr (f, a, g, p, parse_group-IsNormal json data' g parsed, e ∙ rw p refl)
    ]
  ]
