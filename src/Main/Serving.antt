-- ===== src/Main/Serving.antt =====
-- A run of cmd/bootcfg/main.go that starts to serve.
use coreos_baremetal.Prelude.{
  ◌≡◌, ◌≢◌, if◌then◌else◌, sym, ap, refl, ◌⊎◌, inl, inr, arith, Bool, true, false, not, Option,
  none, some, Bool-cases, [],
}
use coreos_baremetal.Prelude.Text.{Text, ◌==◌, ==_iff, ==_false}
use coreos_baremetal.Golang.Errors.{ok, Result-cases, Error}
use coreos_baremetal.Sign.Writer.{Signer}
use coreos_baremetal.Sign.Keys.{load_gpg_entity, gpg_signer, armored_gpg_signer}
use coreos_baremetal.Http.Routes.{Config}
use coreos_baremetal.Main.{
  Flags, Environment, Run, fatal, serving, unless_error, stat_error, is_directory, is_address,
  check_tls_files, start_rpc, load_signers, main,
}

else_of {ℓ} : {A : Type ℓ} (c : Bool) (x y r : A) → c ≡ false → (if c then x else y) ≡ r → y ≡ r
else_of true x y r e h = cc
else_of false x y r e h = h

serving_injective :
    (a x : Config) (b y : Text) (c z : Bool)
    → serving a b c ≡ serving x y z
    → (a ≡ x) × (b ≡ y) × (c ≡ z)
serving_injective a x b y c z h = (cc, cc, cc)

module _ (env : Environment) (flags : Flags) (passphrase : Text) where
  -- Either no key ring is given and nothing is signed, or its first key makes both signers.
  abbrev pub Signers : Option Signer → Option Signer → Type 0
  Signers signer armored =
      ((flags.key_ring_path ≡ []) × (signer ≡ none) × (armored ≡ none))
      ⊎ ((flags.key_ring_path ≢ [])
          × (entity : env.pgp.Entity) × (load_gpg_entity env.pgp env.open_file flags.key_ring_path
                passphrase
              ≡ ok entity)
          × (signer ≡ some (gpg_signer env.pgp entity))
          × (armored ≡ some (armored_gpg_signer env.pgp entity)))

  -- The three TLS files are there, unless there is no RPC address.
  abbrev pub TlsFiles : Type 0
  TlsFiles =
      (flags.rpc_address ≡ [])
      ⊎ ((stat_error (env.stat flags.cert_file) ≡ none)
          × (stat_error (env.stat flags.key_file) ≡ none)
          × (stat_error (env.stat flags.ca_file) ≡ none))

  -- Either there is no RPC address and no gRPC server, or it has a TLS configuration.
  abbrev pub RpcStart : Bool → Type 0
  RpcStart rpc =
      ((flags.rpc_address ≡ []) × (rpc ≡ false))
      ⊎ ((flags.rpc_address ≢ [])
          × (rpc ≡ true)
          × (env.listen flags.rpc_address ≡ none)
          × (env.server_config flags.ca_file flags.cert_file flags.key_file ≡ none))

  module _ (http : Config) (dir : Text) (rpc : Bool) where
    unless_error-serving :
        (e : Option Error) (message : Text) (run : Run)
        → unless_error e message run ≡ serving http dir rpc
        → (e ≡ none) × (run ≡ serving http dir rpc)
    unless_error-serving none message run h = (refl, h)
    unless_error-serving (some e) message run h = cc

    -- A test whose first branch ends the run has failed in a run that serves.
    gate :
        (c : Bool) (x y : Run)
        → x ≢ serving http dir rpc
        → (if c then x else y) ≡ serving http dir rpc
        → (c ≡ false) × (y ≡ serving http dir rpc)
    gate true x y n h = absurd (n h)
    gate false x y n h = (refl, h)

    gate_fatal :
        (c : Bool) (message : Text) (y : Run)
        → (if c then fatal message else y) ≡ serving http dir rpc
        → (c ≡ false) × (y ≡ serving http dir rpc)
    gate_fatal c message y h = gate c (fatal message) y (cc) h

    check_tls_files-serving :
        (run : Run)
        → check_tls_files env flags run ≡ serving http dir rpc
        → TlsFiles × (run ≡ serving http dir rpc)
    unfolding check_tls_files
    check_tls_files-serving run h = elim (Bool-cases (flags.rpc_address == [])) [
      | inl e ↦ (inl ((==_iff flags.rpc_address []).0 e), ground arith)
      | inr e ↦
          let (cert, a) =
            unless_error-serving (stat_error (env.stat flags.cert_file)) _ _
              (else_of _ _ _ _ e h) in
          let (key, b) = unless_error-serving (stat_error (env.stat flags.key_file)) _ _ a in
          let (ca, c) = unless_error-serving (stat_error (env.stat flags.ca_file)) _ _ b in
          (inr (cert, key, ca), c)
    ]

    load_signers-serving :
        (next : Option Signer → Option Signer → Run)
        → load_signers env flags passphrase next ≡ serving http dir rpc
        → (signer : Option Signer) × (armored : Option Signer) × Signers signer armored
          × (next signer armored ≡ serving http dir rpc)
    unfolding load_signers
    load_signers-serving next h = elim (Bool-cases (flags.key_ring_path == [])) [
      | inl e ↦ (none, none, inl ((==_iff flags.key_ring_path []).0 e, refl, refl), ground arith)
      | inr e ↦
          elim (Result-cases
            (load_gpg_entity env.pgp env.open_file flags.key_ring_path passphrase)) [
              | inr (x, f) ↦ absurd (ground arith)
              | inl (entity, f) ↦ (
                some (gpg_signer env.pgp entity),
                some (armored_gpg_signer env.pgp entity),
                inr (==_false flags.key_ring_path [] e, entity, f, refl, refl),
                ground arith,
              )
            ]
    ]

    start_rpc-serving :
        (next : Bool → Run)
        → start_rpc env flags next ≡ serving http dir rpc
        → (started : Bool) × RpcStart started × (next started ≡ serving http dir rpc)
    unfolding start_rpc
    start_rpc-serving next h = elim (Bool-cases (flags.rpc_address == [])) [
      | inl e ↦ (false, inl ((==_iff flags.rpc_address []).0 e, refl), ground arith)
      | inr e ↦
          let (listens, a) =
            unless_error-serving (env.listen flags.rpc_address) _ _ (else_of _ _ _ _ e h) in
          let (secure, b) =
            unless_error-serving (env.server_config flags.ca_file flags.cert_file flags.key_file) _
              _ a in
          (true, inr (==_false flags.rpc_address [] e, refl, listens, secure), b)
    ]

    -- A run that serves has a data directory; it serves gRPC exactly if there is an RPC address,
    -- and then its TLS files are there and make a TLS configuration; and it signs exactly if a key
    -- ring is given, both ways with the key that was loaded.
    pub main_serving :
        main env flags passphrase ≡ serving http dir rpc
        → (dir ≡ flags.data_path)
          × (is_directory (env.stat flags.data_path) ≡ true)
          × (http.assets_path ≡ flags.assets_path)
          × Signers http.signer http.armored_signer
          × TlsFiles
          × RpcStart rpc
    unfolding main
    main_serving h =
        let (_, a) = gate flags.version _ _ (cc) h in
        let (_, b) = gate flags.help _ _ (cc) a in
        let (_, c) = gate_fatal (not (is_address (env.parse_url flags.address))) _ _ b in
        let (data_dir, d) = gate_fatal (not (is_directory (env.stat flags.data_path))) _ _ c in
        let (_, e) = gate_fatal _ _ _ d in
        let (files, e') = check_tls_files-serving _ e in
        let (_, f) = unless_error-serving _ _ _ e' in
        let (signer, armored, signs, g) = load_signers-serving _ f in
        let (started, starts, k) = start_rpc-serving _ g in
        let (p, q, r) = serving_injective _ _ _ _ _ _ k in
        (
          sym q,
          ground (arith, data_dir),
          ap (λ c. c.assets_path) (sym p),
          rw (sym p) signs,
          files,
          rw (sym r) starts,
        )
