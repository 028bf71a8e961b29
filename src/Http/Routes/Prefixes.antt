-- ===== src/Http/Routes/Prefixes.antt =====
-- The paths of bootcfg/http/server.go that are matched by a prefix, and those that nothing but `/`
-- matches.
use coreos_baremetal.Prelude.{
  Bool, ◌≡◌, ◌∙◌, ap, refl, true, false, Option, none, some, List, [], ◌∷◌, ◌++◌, ◌&&◌, ltb, length,
  All, if◌then◌else◌,
}
use coreos_baremetal.Prelude.Text.{Text, text, has_suffix, ◌==◌}
use coreos_baremetal.Golang.Sort.{Sorter}
use coreos_baremetal.Golang.Http.{Request, not_found}
use coreos_baremetal.Storagepb.Json.{Json}
use coreos_baremetal.Server.{Core}
use coreos_baremetal.Sign.Writer.{Signer, signature_handler}
use coreos_baremetal.Http.Render.{Libraries}
use coreos_baremetal.Http.Handlers.{Handler, home_handler, new_handler, pixiecore_handler}
use coreos_baremetal.Http.Routes.{
  HttpServer, with_redirects, routes, redirects, has_pattern, without_last, mux_handler, longest,
  pattern_matches, has_prefix, http_handler, serve_mux,
}
use coreos_baremetal.Http.Routes.Signatures.{handler_at}

module _ (lib : Libraries) (json : Json) (texts : Sorter Text) (core : Core) (s : core.State)
    (file_server : Text → Handler) where
  abbrev at : Text → Option Signer → Option Signer → Text → Handler
  at assets plain armored =
      handler_at lib json texts core s file_server
        (record { assets_path = assets; signer = plain; armored_signer = armored })

  abbrev pixiecore : Handler
  pixiecore = new_handler (pixiecore_handler core s json)

  -- The table has the handler for every path below a prefix.
  plain_of :
      (rest assets : Text) (plain armored : Option Signer)
      → at assets plain armored (text "/pixiecore/v1/boot/" ++ rest) ≡ pixiecore
  unfolding mux_handler redirects has_pattern without_last longest pattern_matches has_prefix
      has_suffix ◌==◌ text
  plain_of rest [] none none = refl
  plain_of rest [] none (some b) = refl
  plain_of rest [] (some a) none = refl
  plain_of rest [] (some a) (some b) = refl
  plain_of rest (c ∷ assets) none none = refl
  plain_of rest (c ∷ assets) none (some b) = refl
  plain_of rest (c ∷ assets) (some a) none = refl
  plain_of rest (c ∷ assets) (some a) (some b) = refl

  signed_of :
      (rest assets : Text) (signer : Signer) (armored : Option Signer)
      → at assets (some signer) armored (text "/pixiecore/v1/boot.sig/" ++ rest)
        ≡ signature_handler signer pixiecore
  unfolding mux_handler redirects has_pattern without_last longest pattern_matches has_prefix
      has_suffix ◌==◌ text
  signed_of rest [] a none = refl
  signed_of rest [] a (some b) = refl
  signed_of rest (c ∷ assets) a none = refl
  signed_of rest (c ∷ assets) a (some b) = refl

  armored_of :
      (rest assets : Text) (plain : Option Signer) (signer : Signer)
      → at assets plain (some signer) (text "/pixiecore/v1/boot.asc/" ++ rest)
        ≡ signature_handler signer pixiecore
  unfolding mux_handler redirects has_pattern without_last longest pattern_matches has_prefix
      has_suffix ◌==◌ text
  armored_of rest [] none b = refl
  armored_of rest [] (some a) b = refl
  armored_of rest (c ∷ assets) none b = refl
  armored_of rest (c ∷ assets) (some a) b = refl

  -- Every path below `/pixiecore/v1/boot/` reaches the Pixiecore handler, whatever the server has;
  -- every path below `/pixiecore/v1/boot.sig/` or `/pixiecore/v1/boot.asc/` reaches the signature of
  -- the Pixiecore handler, where the server has the signer or the armored signer.
  pub pixiecore_routes :
      (assets rest : Text) (plain armored : Option Signer) (signer armored_signer : Signer)
      → (at assets plain armored (text "/pixiecore/v1/boot/" ++ rest) ≡ pixiecore)
        × (at assets (some signer) armored (text "/pixiecore/v1/boot.sig/" ++ rest)
            ≡ signature_handler signer pixiecore)
        × (at assets plain (some armored_signer) (text "/pixiecore/v1/boot.asc/" ++ rest)
            ≡ signature_handler armored_signer pixiecore)
  pixiecore_routes assets rest plain armored signer armored_signer = (
    plain_of rest assets plain armored,
    signed_of rest assets signer armored,
    armored_of rest assets plain armored_signer,
  )

-- No entry of a table matches.
abbrev pub Unmatched : Text → List (Text × Handler) → Type 0
Unmatched path table = All (λ e. pattern_matches path e.0 ≡ false) table

longest-Unmatched :
    (path : Text) (table : List (Text × Handler)) (best : Text × Handler)
    → Unmatched path table
    → longest path table best ≡ best
unfolding longest
longest-Unmatched path [] best h = refl
longest-Unmatched path ((pattern, h) ∷ table) best (m, ms) =
    ap (longest path table) (rw m refl) ∙ longest-Unmatched path table best ms

module _ (lib : Libraries) (json : Json) (texts : Sorter Text) (core : Core) (s : core.State)
    (file_server : Text → Handler) (server : HttpServer) (req : Request) where
  -- The table and its redirects after its first entry, which is `/`.
  abbrev pub below_home : List (Text × Handler)
  below_home = elim (with_redirects (routes lib json texts core s file_server server)) [
    | [] ↦ []
    | entry ∷ table ↦ table
  ]

  home_or_none :
      (b : Bool)
      → (req.path == text "/") ≡ false
      → (if◌then◌else◌ {A = Text × Handler} b (text "/", home_handler) ([], λ r. some not_found)).1
          req
        ≡ some not_found
  unfolding home_handler
  home_or_none true h = rw h refl
  home_or_none false h = refl

  -- A path other than `/` that no other pattern of the table matches is answered with 404.
  pub unrouted :
      (req.path == text "/") ≡ false
      → Unmatched req.path below_home
      → http_handler lib json texts core s file_server server req ≡ some not_found
  unfolding http_handler serve_mux mux_handler longest
  unrouted h unmatched =
      ap (λ e. e.1 req) (longest-Unmatched req.path below_home _ unmatched)
      ∙ home_or_none (pattern_matches req.path (text "/") && ltb 0 (length (text "/"))) h
