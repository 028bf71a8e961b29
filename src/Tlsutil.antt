-- ===== src/Tlsutil.antt =====
-- bootcfg/tlsutil: the TLS configurations of servers and clients. The packages `crypto/x509` and
-- `encoding/pem` are a record of their functions; a pool is the list of its certificates.
use coreos_baremetal.Prelude.{
  ℕ, zero, suc, ◌<◌, ◌≡◌, refl, arith, inl, inr, Option-cases, Bool, false, Option, none, some,
  List, [], ◌∷◌, ◌++◌, length,
}
use coreos_baremetal.Prelude.Text.{Text, text}
use coreos_baremetal.Golang.Errors.{Result, ok, err, ◌>>=◌, Result-cases}

pub record X509 : Type 1 where
  pub Certificate : Type 0
  pub KeyPair : Type 0
  pub read_file : Text → Result Text
  -- `pem.Decode`: the bytes of the first block and what follows it, if there is a block
  pub decode : Text → Option (Text × Text)
  pub parse_certificate : Text → Result Certificate
  pub load_key_pair : Text → Text → Result KeyPair

-- `TLSInfo`
pub record TlsInfo : Type 0 where
  pub ca_file : Text
  pub cert_file : Text
  pub key_file : Text

pub data ClientAuth : Type 0 where
  no_client_cert require_and_verify_client_cert : ClientAuth

-- The fields of `tls.Config` that the program sets.
pub record TlsConfig (Certificate KeyPair : Type 0) : Type 0 where
  pub min_version : Text
  pub insecure_skip_verify : Bool
  pub root_cas : Option (List Certificate)
  pub certificates : List KeyPair
  pub client_auth : ClientAuth
  pub client_cas : Option (List Certificate)
  pub cipher_suites : List Text

abbrev pub version_tls12 : Text
version_tls12 = text "TLS 1.2"

module _ (x509 : X509) where
  open x509 use {Certificate, KeyPair}

  -- The inner loop of `NewCertPool`, which ends where no block is left; `none` is the end of the
  -- fuel.
  unfoldable pub add_certs : ℕ → Text → List Certificate → Option (Result (List Certificate))
  add_certs zero pem pool = none
  add_certs (suc fuel) pem pool = elim (x509.decode pem) [
    | none ↦ some (ok pool)
    | some block ↦ elim (x509.parse_certificate block.0) [
      | err e ↦ some (err e)
      | ok cert ↦ add_certs fuel block.1 (pool ++ (cert ∷ []))
    ]
  ]

  -- The outer loop of `NewCertPool`.
  unfoldable pub add_files : List Text → List Certificate → Option (Result (List Certificate))
  add_files [] pool = some (ok pool)
  add_files (file ∷ files) pool = elim (x509.read_file file) [
    | err e ↦ some (err e)
    | ok pem ↦ elim (add_certs (suc (length pem)) pem pool) [
      | none ↦ none
      | some added ↦ elim added [ err e ↦ some (err e) | ok grown ↦ add_files files grown ]
    ]
  ]

  -- `NewCertPool`
  unfoldable pub new_cert_pool : List Text → Option (Result (List Certificate))
  new_cert_pool files = add_files files []

  -- `(*TLSInfo).ClientConfig`
  unfoldable pub client_config : TlsInfo → Option (Result (TlsConfig Certificate KeyPair))
  client_config info = elim (new_cert_pool (info.ca_file ∷ [])) [
    | none ↦ none
    | some result ↦ some (do
      pool ← result
      cert ← x509.load_key_pair info.cert_file info.key_file
      ok (record {
        min_version = version_tls12;
        insecure_skip_verify = false;
        root_cas = some pool;
        certificates = cert ∷ [];
        client_auth = no_client_cert;
        client_cas = none;
        cipher_suites = [];
      }))
  ]

  -- `(*TLSInfo).ServerConfig`
  unfoldable pub server_config : TlsInfo → Option (Result (TlsConfig Certificate KeyPair))
  server_config info = elim (x509.load_key_pair info.cert_file info.key_file) [
    | err e ↦ some (err e)
    | ok cert ↦ elim (new_cert_pool (info.ca_file ∷ [])) [
      | none ↦ none
      | some result ↦ some (do
        pool ← result
        ok (record {
          min_version = version_tls12;
          insecure_skip_verify = false;
          root_cas = none;
          certificates = cert ∷ [];
          client_auth = require_and_verify_client_cert;
          client_cas = some pool;
          cipher_suites =
              text "TLS_ECDHE_ECDSA_WITH_AES_128_GCM_SHA256"
              ∷ text "TLS_ECDHE_RSA_WITH_AES_128_GCM_SHA256"
              ∷ text "TLS_ECDHE_ECDSA_WITH_AES_256_GCM_SHA384"
              ∷ text "TLS_ECDHE_RSA_WITH_AES_256_GCM_SHA384"
              ∷ [];
        }))
    ]
  ]

  add_certs-total :
      ((pem : Text) (block : Text × Text)
        → x509.decode pem ≡ some block
        → length block.1 < length pem)
      → (fuel : ℕ) (pem : Text) (pool : List Certificate) → length pem < fuel
      → (r : Result (List Certificate)) × (add_certs fuel pem pool ≡ some r)
  unfolding add_certs
  add_certs-total law zero pem pool h = absurd (omega arith)
  add_certs-total law (suc fuel) pem pool h = elim (Option-cases (x509.decode pem)) [
    | inl e ↦ (ok pool, rw (add_certs, e) refl)
    | inr (block, e) ↦ elim (Result-cases (x509.parse_certificate block.0)) [
      | inr (x, f) ↦ (err x, rw (add_certs, e, f) refl)
      | inl (cert, f) ↦
          let (r, g) =
            add_certs-total law fuel block.1 (pool ++ (cert ∷ []))
              (let shorter = law pem block e in omega arith) in
          (r, rw (add_certs, e, f) g)
    ]
  ]

  add_files-total :
      ((pem : Text) (block : Text × Text)
        → x509.decode pem ≡ some block
        → length block.1 < length pem)
      → (files : List Text) (pool : List Certificate)
      → (r : Result (List Certificate)) × (add_files files pool ≡ some r)
  unfolding add_files
  add_files-total law [] pool = (ok pool, refl)
  add_files-total law (file ∷ files) pool = elim (Result-cases (x509.read_file file)) [
    | inr (x, e) ↦ (err x, rw (add_files, e) refl)
    | inl (pem, e) ↦
        let (added, f) = add_certs-total law (suc (length pem)) pem pool (omega arith) in
        elim (Result-cases added) [
          | inr (x, g) ↦ (err x, rw (add_files, e, f, g) refl)
          | inl (grown, g) ↦
              let (r, k) = add_files-total law files grown in (r, rw (add_files, e, f, g) k)
        ]
  ]

  -- If decoding a block leaves less to decode, reading the certificates of any files ends, with a
  -- pool or an error.
  pub new_cert_pool-total :
      ((pem : Text) (block : Text × Text)
        → x509.decode pem ≡ some block
        → length block.1 < length pem)
      → (files : List Text) → (r : Result (List Certificate)) × (new_cert_pool files ≡ some r)
  unfolding new_cert_pool
  new_cert_pool-total law files = add_files-total law files []

  -- A server's configuration that is made always requires a client certificate that the pool of
  -- the CA file verifies, and TLS 1.2.
  pub server_config_lem :
      (info : TlsInfo) (config : TlsConfig Certificate KeyPair)
      → server_config info ≡ some (ok config)
      → (config.client_auth ≡ require_and_verify_client_cert)
        × (config.min_version ≡ version_tls12)
        × ((pool : List Certificate) × (config.client_cas ≡ some pool)
            × (new_cert_pool (info.ca_file ∷ []) ≡ some (ok pool)))
  unfolding server_config
  server_config_lem info config h =
      elim (Result-cases (x509.load_key_pair info.cert_file info.key_file)) [
        | inr (x, e) ↦ absurd (ground arith)
        | inl (cert, e) ↦ elim (Option-cases (new_cert_pool (info.ca_file ∷ []))) [
          | inl f ↦ absurd (ground arith)
          | inr (result, f) ↦ elim (Result-cases result) [
            | inr (x, g) ↦ absurd (ground arith)
            | inl (pool, g) ↦ (ground arith, ground arith, (pool, ground arith, ground arith))
          ]
        ]
      ]
