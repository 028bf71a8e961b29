-- ===== src/Client/Dialing.antt =====
-- Which endpoint `New` of bootcfg/client/client.go connects to.
use coreos_baremetal.Prelude.{
  ◌≡◌, refl, ap, ◌∙◌, ◌⊎◌, inl, inr, arith, Option, none, some, List, [], ◌∷◌, ◌++◌, eqb, length, ℕ,
  false, All,
}
use coreos_baremetal.Prelude.Text.{Text}
use coreos_baremetal.Golang.Errors.{Error, ok, err, Result-cases}
use coreos_baremetal.Client.{
  Grpc, Config, dial_in_order, dial_endpoints, client_of, client_or_error, new_client, new,
  no_endpoints, no_tls_config,
}

module _ (grpc : Grpc) (timeout : ℕ) (tls : grpc.Tls) where
  -- The endpoint does not answer.
  abbrev pub Refuses : Text → Type 0
  Refuses endpoint = (e : Error) × (grpc.dial timeout tls endpoint ≡ err e)

  dial_in_order_of_ok :
      (endpoint : Text) (rest : List Text) (last : Option Error) (conn : grpc.Conn)
      → grpc.dial timeout tls endpoint ≡ ok conn
      → dial_in_order grpc timeout tls (endpoint ∷ rest) last ≡ (some conn, none)
  unfolding dial_in_order
  dial_in_order_of_ok endpoint rest last conn p = rw (dial_in_order, p) refl

  dial_in_order_of_err :
      (endpoint : Text) (rest : List Text) (last : Option Error) (e : Error)
      → grpc.dial timeout tls endpoint ≡ err e
      → dial_in_order grpc timeout tls (endpoint ∷ rest) last
        ≡ dial_in_order grpc timeout tls rest (some e)
  unfolding dial_in_order
  dial_in_order_of_err endpoint rest last e p = rw (dial_in_order, p) refl

  dial_in_order-append :
      (before : List Text) (endpoint : Text) (after : List Text) (last : Option Error)
      (conn : grpc.Conn)
      → All Refuses before
      → grpc.dial timeout tls endpoint ≡ ok conn
      → dial_in_order grpc timeout tls (before ++ (endpoint ∷ after)) last ≡ (some conn, none)
  dial_in_order-append [] endpoint after last conn h p =
      dial_in_order_of_ok endpoint after last conn p
  dial_in_order-append (b ∷ before) endpoint after last conn ((e, q), h) p =
      dial_in_order_of_err b _ last e q
      ∙ dial_in_order-append before endpoint after (some e) conn h p

  dial_in_order-last :
      (before : List Text) (endpoint : Text) (last : Option Error) (e : Error)
      → All Refuses before
      → grpc.dial timeout tls endpoint ≡ err e
      → dial_in_order grpc timeout tls (before ++ (endpoint ∷ [])) last ≡ (none, some e)
  unfolding dial_in_order
  dial_in_order-last [] endpoint last e h p = dial_in_order_of_err endpoint [] last e p
  dial_in_order-last (b ∷ before) endpoint last e ((x, q), h) p =
      dial_in_order_of_err b _ last x q ∙ dial_in_order-last before endpoint (some x) e h p

  -- Endpoints either all refuse, and then the error of the last one counts, or one answers.
  dial_in_order-cases :
      (endpoints : List Text) (e : Error)
      → ((conn : grpc.Conn) × (dial_in_order grpc timeout tls endpoints (some e)
            ≡ (some conn, none)))
        ⊎ ((x : Error) × (dial_in_order grpc timeout tls endpoints (some e) ≡ (none, some x)))
  unfolding dial_in_order
  dial_in_order-cases [] e = inr (e, refl)
  dial_in_order-cases (endpoint ∷ rest) e = elim (Result-cases (grpc.dial timeout tls endpoint)) [
    | inl (conn, p) ↦ inl (conn, dial_in_order_of_ok endpoint rest (some e) conn p)
    | inr (x, p) ↦ rw (dial_in_order_of_err endpoint rest (some e) x p) (dial_in_order-cases rest x)
  ]

module _ (grpc : Grpc) where
  not_empty :
      (before after : List Text) (endpoint : Text)
      → eqb (length (before ++ (endpoint ∷ after))) 0 ≡ false
  not_empty [] after endpoint = ground arith
  not_empty (b ∷ before) after endpoint = ground arith

  -- With a TLS config and at least one endpoint, `New` dials the endpoints in order.
  new_of_dial :
      (config : Config grpc) (tls : grpc.Tls) (before after : List Text) (endpoint : Text)
      → config.endpoints ≡ before ++ (endpoint ∷ after)
      → config.tls ≡ some tls
      → new grpc config
        ≡ client_or_error grpc
            (dial_in_order grpc config.dial_timeout tls (before ++ (endpoint ∷ after)) none)
  unfolding new new_client dial_endpoints
  new_of_dial config tls before after endpoint e t =
      rw (new, e, not_empty before after endpoint, new_client, dial_endpoints, t, e) refl

  -- If an endpoint answers and all before it refuse, `New` gives a client on the connection to
  -- that endpoint and no error, where the configuration has a TLS config.
  pub new-answered :
      (config : Config grpc) (tls : grpc.Tls) (before after : List Text) (endpoint : Text)
      (conn : grpc.Conn)
      → config.endpoints ≡ before ++ (endpoint ∷ after)
      → config.tls ≡ some tls
      → All (Refuses grpc config.dial_timeout tls) before
      → grpc.dial config.dial_timeout tls endpoint ≡ ok conn
      → new grpc config ≡ (some (client_of grpc (some conn)), none)
  new-answered config tls before after endpoint conn e t h p =
      new_of_dial config tls before after endpoint e t
      ∙ ap (client_or_error grpc)
          (dial_in_order-append grpc config.dial_timeout tls before endpoint after none conn h p)

  -- If all endpoints refuse, `New` gives no client, and the error of the last one.
  pub new-refused :
      (config : Config grpc) (tls : grpc.Tls) (before : List Text) (endpoint : Text) (x : Error)
      → config.endpoints ≡ before ++ (endpoint ∷ [])
      → config.tls ≡ some tls
      → All (Refuses grpc config.dial_timeout tls) before
      → grpc.dial config.dial_timeout tls endpoint ≡ err x
      → new grpc config ≡ (none, some x)
  new-refused config tls before endpoint x e t h p =
      new_of_dial config tls before [] endpoint e t
      ∙ ap (client_or_error grpc)
          (dial_in_order-last grpc config.dial_timeout tls before endpoint none x h p)

  dialed-total :
      (timeout : ℕ) (tls : grpc.Tls) (endpoint : Text) (rest : List Text)
      → ((conn : grpc.Conn) × (dial_in_order grpc timeout tls (endpoint ∷ rest) none
            ≡ (some conn, none)))
        ⊎ ((e : Error) × (dial_in_order grpc timeout tls (endpoint ∷ rest) none ≡ (none, some e)))
  dialed-total timeout tls endpoint rest = elim (Result-cases (grpc.dial timeout tls endpoint)) [
    | inl (conn, p) ↦ inl (conn, dial_in_order_of_ok grpc timeout tls endpoint rest none conn p)
    | inr (x, p) ↦
        rw (dial_in_order_of_err grpc timeout tls endpoint rest none x p)
          (dial_in_order-cases grpc timeout tls rest x)
  ]

  new_of :
      (timeout : ℕ) (tls : Option grpc.Tls) (endpoints : List Text)
      → ((conn : grpc.Conn) × (new grpc
              (record { endpoints = endpoints; dial_timeout = timeout; tls = tls })
            ≡ (some (client_of grpc (some conn)), none)))
        ⊎ ((e : Error) × (new grpc
                (record { endpoints = endpoints; dial_timeout = timeout; tls = tls })
              ≡ (none, some e)))
  unfolding new new_client dial_endpoints
  new_of timeout tls [] = inr (no_endpoints, refl)
  new_of timeout none (endpoint ∷ rest) =
      inr (no_tls_config, rw (new, not_empty [] rest endpoint) refl)
  new_of timeout (some t) (endpoint ∷ rest) = elim (dialed-total timeout t endpoint rest) [
    | inl (conn, p) ↦
        inl (conn, new_of_dial _ t [] rest endpoint refl refl ∙ ap (client_or_error grpc) p)
    | inr (e, p) ↦ inr (e, new_of_dial _ t [] rest endpoint refl refl ∙ ap (client_or_error grpc) p)
  ]

  -- `New` gives a client that has a connection and no error, or an error and no client; never
  -- neither, and never a client on a `nil` connection.
  pub new-total :
      (config : Config grpc)
      → ((conn : grpc.Conn) × (new grpc config ≡ (some (client_of grpc (some conn)), none)))
        ⊎ ((e : Error) × (new grpc config ≡ (none, some e)))
  new-total config = new_of config.dial_timeout config.tls config.endpoints
