-- ===== src/Http/Routes/Statuses/Served.antt =====
-- The statuses that the server of bootcfg/http/server.go sends.
use coreos_baremetal.Prelude.{
  Bool, not, ◌≡◌, refl, true, false, Option, none, some, List, [], ◌∷◌, ◌&&◌, ltb, length, All,
  All-append, if◌then◌else◌, Bool-cases, inl, inr,
}
use coreos_baremetal.Prelude.Text.{Text, text, ◌==◌, has_suffix}
use coreos_baremetal.Golang.Sort.{Sorter}
use coreos_baremetal.Golang.Http.{Call, Request, redirect, not_found}
use coreos_baremetal.Golang.Http.Recorder.{respond}
use coreos_baremetal.Golang.Http.Statuses.{
  AllKnown, Answers, HasKnown, ServesContent, redirect-AllKnown, not_found-AllKnown,
  respond-HasKnown,
}
use coreos_baremetal.Storagepb.Json.{Json}
use coreos_baremetal.Server.{Core}
use coreos_baremetal.Sign.Writer.{Signer}
use coreos_baremetal.Http.Render.{Libraries}
use coreos_baremetal.Http.Handlers.{Handler, new_handler, pixiecore_handler}
use coreos_baremetal.Http.Configs.{generic_handler, cloud_handler, ignition_handler}
use coreos_baremetal.Http.Metadata.{metadata_handler}
use coreos_baremetal.Http.Boot.{ipxe_inspect, ipxe_handler, grub_handler}
use coreos_baremetal.Http.Context.{background}
use coreos_baremetal.Http.Routes.{
  HttpServer, redirects, has_pattern, without_last, with_redirects, has_prefix, pattern_matches,
  longest, mux_handler, serve_mux, http_handler, routes, plain_routes, signed_routes, signed_if,
  assets_routes, by_group, by_profile,
}
use coreos_baremetal.Http.Routes.Statuses.{
  home_handler-Answers, ipxe_inspect-Answers, boot_handlers-Answers, by_group-Answers,
  by_profile-Answers, pixiecore_handler-Answers, generic_handler-Answers, cloud_handler-Answers,
  ignition_handler-Answers, metadata_handler-Answers, signature_handler-Answers,
}

-- An entry answers a request with known statuses, if its pattern matches the path.
abbrev EntryAnswers : Request → Text × Handler → Type 0
EntryAnswers req (pattern, h) = pattern_matches req.path pattern ≡ true → Answers (h req)

longer-Answers :
    (req : Request) (pattern : Text) (h : Handler) (best : Text × Handler) (longer : Bool)
    → EntryAnswers req (pattern, h)
    → Answers (best.1 req)
    → Answers ((if pattern_matches req.path pattern && longer then (pattern, h) else best).1 req)
longer-Answers req pattern h best longer k b =
    elim (Bool-cases (pattern_matches req.path pattern)) [
      | inr unmet ↦ rw unmet b
      | inl met ↦ elim (Bool-cases longer) [ inl l ↦ rw (met, l) (k met) | inr l ↦ rw (met, l) b ]
    ]

longest-Answers :
    (req : Request) (table : List (Text × Handler)) (best : Text × Handler)
    → All (EntryAnswers req) table
    → Answers (best.1 req)
    → Answers ((longest req.path table best).1 req)
unfolding longest
longest-Answers req [] best h b = b
longest-Answers req ((pattern, h) ∷ table) best (k, ks) b =
    longest-Answers req table _ ks
      (longer-Answers req pattern h best (ltb (length best.0) (length pattern)) k b)

assets_pattern :
    (path : Text) → pattern_matches path (text "/assets/") ≡ has_prefix path (text "/assets/")
unfolding pattern_matches has_suffix ◌==◌ text
assets_pattern path = refl

of_some : {o : Option (List Call)} (calls : List Call) → o ≡ some calls → Answers o → AllKnown calls
of_some calls e h = rw e at h

if-All :
    (req : Request) (b : Bool) (entry : Text × Handler) (table : List (Text × Handler))
    → EntryAnswers req entry
    → All (EntryAnswers req) table
    → All (EntryAnswers req) (if b then entry ∷ table else table)
if-All req true entry table h k = (h, k)
if-All req false entry table h k = k

module _ (lib : Libraries) (json : Json) (texts : Sorter Text) (core : Core) (s : core.State)
    (file_server : Text → Handler) (req : Request)
    (content : ServesContent lib.serve_conditional) where
  grub-Answers :
      Answers (new_handler (by_profile lib json texts core s file_server (grub_handler texts)) req)
  grub-Answers = by_profile-Answers core s _ req (λ ctx. (boot_handlers-Answers texts ctx req).1)

  inspect-Answers : Answers (new_handler (ipxe_inspect) req)
  unfolding new_handler
  inspect-Answers = ipxe_inspect-Answers background req

  ipxe-Answers :
      Answers (new_handler (by_profile lib json texts core s file_server (ipxe_handler texts)) req)
  ipxe-Answers = by_profile-Answers core s _ req (λ ctx. (boot_handlers-Answers texts ctx req).0)

  pixiecore-Answers : Answers (new_handler (pixiecore_handler core s json) req)
  unfolding new_handler
  pixiecore-Answers = pixiecore_handler-Answers core s json background req

  ignition-Answers : Answers (
      new_handler
        (by_group lib json texts core s file_server (ignition_handler lib json core s))
        req)
  ignition-Answers =
      by_group-Answers core s _ req (λ ctx. ignition_handler-Answers lib json core s ctx req)

  cloud-Answers :
      Answers (
        new_handler
          (by_group lib json texts core s file_server (cloud_handler lib json core s))
          req)
  cloud-Answers =
      by_group-Answers core s _ req (λ ctx. cloud_handler-Answers lib json core s ctx req content)

  generic-Answers : Answers (
      new_handler
        (by_group lib json texts core s file_server (generic_handler lib json core s))
        req)
  generic-Answers =
      by_group-Answers core s _ req (λ ctx. generic_handler-Answers lib json core s ctx req content)

  metadata-Answers :
      Answers (new_handler (by_group lib json texts core s file_server (metadata_handler json)) req)
  metadata-Answers =
      by_group-Answers core s _ req (λ ctx. metadata_handler-Answers lib json core s ctx req)

  plain_routes-Answers : All (EntryAnswers req) (plain_routes lib json texts core s file_server)
  plain_routes-Answers = (
    (λ m. home_handler-Answers req),
    (
      (λ m. grub-Answers),
      (
        (λ m. inspect-Answers),
        (
          (λ m. inspect-Answers),
          (
            (λ m. ipxe-Answers),
            (
              (λ m. pixiecore-Answers),
              (
                (λ m. ignition-Answers),
                ((λ m. cloud-Answers), ((λ m. generic-Answers), ((λ m. metadata-Answers), tt))),
              ),
            ),
          ),
        ),
      ),
    ),
  )

  signed_routes-Answers :
      (kind : Text) (signer : Signer)
      → All (EntryAnswers req) (signed_routes lib json texts core s file_server kind signer)
  signed_routes-Answers kind signer = (
    (λ m. signature_handler-Answers signer _ req grub-Answers),
    (
      (λ m. signature_handler-Answers signer _ req inspect-Answers),
      (
        (λ m. signature_handler-Answers signer _ req inspect-Answers),
        (
          (λ m. signature_handler-Answers signer _ req ipxe-Answers),
          (
            (λ m. signature_handler-Answers signer _ req pixiecore-Answers),
            (
              (λ m. signature_handler-Answers signer _ req ignition-Answers),
              (
                (λ m. signature_handler-Answers signer _ req cloud-Answers),
                (
                  (λ m. signature_handler-Answers signer _ req generic-Answers),
                  ((λ m. signature_handler-Answers signer _ req metadata-Answers), tt),
                ),
              ),
            ),
          ),
        ),
      ),
    ),
  )

  signed_if-Answers :
      (kind : Text) (signer : Option Signer)
      → All (EntryAnswers req) (signed_if lib json texts core s file_server kind signer)
  signed_if-Answers kind none = tt
  signed_if-Answers kind (some signer) = signed_routes-Answers kind signer

  assets_routes-Answers :
      (path : Text)
      → has_prefix req.path (text "/assets/") ≡ false
      → All (EntryAnswers req) (assets_routes lib json texts core s file_server path)
  assets_routes-Answers [] h = tt
  assets_routes-Answers (c ∷ path) h =
      ((λ m. absurd (let same = assets_pattern req.path in cc)), tt)

  routes-Answers :
      (server : HttpServer)
      → has_prefix req.path (text "/assets/") ≡ false
      → All (EntryAnswers req) (routes lib json texts core s file_server server)
  routes-Answers server h =
      All-append _ (plain_routes lib json texts core s file_server) _ plain_routes-Answers (
        All-append _ (signed_if lib json texts core s file_server (text ".sig") server.signer) _
          (signed_if-Answers (text ".sig") server.signer)
          (All-append _
            (signed_if lib json texts core s file_server (text ".asc") server.armored_signer) _
            (signed_if-Answers (text ".asc") server.armored_signer)
            (assets_routes-Answers server.assets_path h)))

  redirects-Answers :
      (all table : List (Text × Handler)) → All (EntryAnswers req) (redirects all table)
  unfolding redirects
  redirects-Answers all [] = tt
  redirects-Answers all ((pattern, h) ∷ table) =
      if-All req (has_suffix pattern (text "/") && not (has_pattern all (without_last pattern)))
        (without_last pattern, λ r. some (redirect pattern r)) (redirects all table)
        (λ m. redirect-AllKnown pattern req) (redirects-Answers all table)

  -- If the rest of `http.ServeContent` sends the statuses that are documented of it, the answer to
  -- any request for a clean path but below `/assets/`, signed or not, has the status 200, 400, 404
  -- or 500, the redirect 301, or 206, 304, 412 or 416 of `http.ServeContent`, or sets none, which
  -- `net/http` sends as 200, whatever the store, the libraries and the signers do; unless the
  -- handler panics.
  pub http_handler-HasKnown :
      (server : HttpServer) (calls : List Call)
      → has_prefix req.path (text "/assets/") ≡ false
      → http_handler lib json texts core s file_server server req ≡ some calls
      → HasKnown (respond calls).status
  unfolding http_handler serve_mux mux_handler
  http_handler-HasKnown server calls h e =
      let table = routes lib json texts core s file_server server in
      respond-HasKnown calls (
        of_some calls e (
          longest-Answers req (with_redirects table) ([], λ r. some not_found)
            (All-append _ table _ (routes-Answers server h) (redirects-Answers table table))
            not_found-AllKnown))
