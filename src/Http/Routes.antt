-- ===== src/Http/Routes.antt =====
-- bootcfg/http/server.go: the table of patterns, and the choice that `http.ServeMux` makes from it
-- for a clean path: the longest pattern that matches, where one that ends in a slash matches every
-- path below it and is redirected to from the path without the slash.
pub mod Signatures
pub mod Plain
pub mod Prefixes
pub mod Statuses
use coreos_baremetal.Prelude.{
  Bool, true, false, not, ◌&&◌, ◌||◌, Option, none, some, List, [], ◌∷◌, ◌++◌, eqb, ltb, length,
  if◌then◌else◌,
}
use coreos_baremetal.Prelude.Text.{Text, text, ◌==◌, has_suffix}
use coreos_baremetal.Golang.Http.{not_found, redirect, Request}
use coreos_baremetal.Golang.Sort.{Sorter}
use coreos_baremetal.Storagepb.Json.{Json}
use coreos_baremetal.Server.{Core}
use coreos_baremetal.Sign.Writer.{Signer, signature_handler}
use coreos_baremetal.Http.Render.{Libraries}
use coreos_baremetal.Http.Boot.{ipxe_inspect, ipxe_handler, grub_handler}
use coreos_baremetal.Http.Metadata.{metadata_handler}
use coreos_baremetal.Http.Handlers.{
  Handler, ContextHandler, new_handler, home_handler, select_group_handler, select_profile_handler,
  pixiecore_handler,
}
use coreos_baremetal.Http.Configs.{generic_handler, cloud_handler, ignition_handler}

-- `strings.HasPrefix`
unfoldable pub has_prefix : Text → Text → Bool
has_prefix path [] = true
has_prefix [] (c ∷ pattern) = false
has_prefix (d ∷ path) (c ∷ pattern) = eqb d c && has_prefix path pattern

-- Whether a pattern of the table matches a path.
unfoldable pub pattern_matches : Text → Text → Bool
pattern_matches path pattern =
    if has_suffix pattern (text "/") then has_prefix path pattern else pattern == path

-- The handler of the longest pattern that matches, given the longest so far.
unfoldable pub longest : Text → List (Text × Handler) → Text × Handler → Text × Handler
longest path [] best = best
longest path ((pattern, h) ∷ table) best = longest path table (
    if pattern_matches path pattern && ltb (length best.0) (length pattern)
    then (pattern, h)
    else best)

-- Whether a pattern stands in a table.
unfoldable pub has_pattern : List (Text × Handler) → Text → Bool
has_pattern [] pattern = false
has_pattern ((other, h) ∷ table) pattern = other == pattern || has_pattern table pattern

unfoldable pub without_last : Text → Text
without_last [] = []
without_last (c ∷ []) = []
without_last (c ∷ d ∷ s) = c ∷ without_last (d ∷ s)

-- What `(*http.ServeMux).Handle` adds by itself: a pattern that ends in a slash, and that the table
-- `all` does not have without it, is redirected to from there.
unfoldable pub redirects : List (Text × Handler) → List (Text × Handler) → List (Text × Handler)
redirects all [] = []
redirects all ((pattern, h) ∷ table) =
    let others = redirects all table in
    if has_suffix pattern (text "/") && not (has_pattern all (without_last pattern))
    then (without_last pattern, λ r. some (redirect pattern r)) ∷ others
    else others

abbrev pub with_redirects : List (Text × Handler) → List (Text × Handler)
with_redirects table = table ++ redirects table table

-- `(*http.ServeMux).Handler`: the handler of a path.
unfoldable pub mux_handler : List (Text × Handler) → Text → Handler
mux_handler table path = (longest path (with_redirects table) ([], λ r. some not_found)).1

-- `(*http.ServeMux).ServeHTTP`
unfoldable pub serve_mux : List (Text × Handler) → Handler
serve_mux table req = mux_handler table req.path req

-- `Config` and `Server`, without the core and the logger; `none` is a `nil` signer.
pub record Config : Type 0 where
  pub assets_path : Text
  pub signer : Option Signer
  pub armored_signer : Option Signer

pub record HttpServer : Type 0 where
  pub assets_path : Text
  pub signer : Option Signer
  pub armored_signer : Option Signer

-- `NewServer`
unfoldable pub new_server : Config → HttpServer
new_server config = record {
  assets_path = config.assets_path;
  signer = config.signer;
  armored_signer = config.armored_signer;
}

module _ (lib : Libraries) (json : Json) (texts : Sorter Text) (core : Core) (s : core.State)
    (file_server : Text → Handler) where
  abbrev pub by_profile : ContextHandler → ContextHandler
  by_profile = select_profile_handler core s

  abbrev pub by_group : ContextHandler → ContextHandler
  by_group = select_group_handler core s

  -- The table below `/`, each handler as `chain` wraps it.
  abbrev pub plain_routes : List (Text × Handler)
  plain_routes =
      (text "/", home_handler)
      ∷ (text "/grub", new_handler (by_profile (grub_handler texts)))
      ∷ (text "/boot.ipxe", new_handler ipxe_inspect)
      ∷ (text "/boot.ipxe.0", new_handler ipxe_inspect)
      ∷ (text "/ipxe", new_handler (by_profile (ipxe_handler texts)))
      ∷ (text "/pixiecore/v1/boot/", new_handler (pixiecore_handler core s json))
      ∷ (text "/ignition", new_handler (by_group (ignition_handler lib json core s)))
      ∷ (text "/cloud", new_handler (by_group (cloud_handler lib json core s)))
      ∷ (text "/generic", new_handler (by_group (generic_handler lib json core s)))
      ∷ (text "/metadata", new_handler (by_group (metadata_handler json)))
      ∷ []

  -- The table of signatures of one kind, each handler as `signerChain` wraps it.
  abbrev pub signed_routes : Text → Signer → List (Text × Handler)
  signed_routes kind signer =
      (
        text "/grub" ++ kind,
        signature_handler signer (new_handler (by_profile (grub_handler texts))),
      )
      ∷ (text "/boot.ipxe" ++ kind, signature_handler signer (new_handler ipxe_inspect))
      ∷ (text "/boot.ipxe.0" ++ kind, signature_handler signer (new_handler ipxe_inspect))
      ∷ (
        text "/ipxe" ++ kind,
        signature_handler signer (new_handler (by_profile (ipxe_handler texts))),
      )
      ∷ (
        text "/pixiecore/v1/boot" ++ kind ++ text "/",
        signature_handler signer (new_handler (pixiecore_handler core s json)),
      )
      ∷ (
        text "/ignition" ++ kind,
        signature_handler signer (new_handler (by_group (ignition_handler lib json core s))),
      )
      ∷ (
        text "/cloud" ++ kind,
        signature_handler signer (new_handler (by_group (cloud_handler lib json core s))),
      )
      ∷ (
        text "/generic" ++ kind,
        signature_handler signer (new_handler (by_group (generic_handler lib json core s))),
      )
      ∷ (
        text "/metadata" ++ kind,
        signature_handler signer (new_handler (by_group (metadata_handler json))),
      )
      ∷ []

  abbrev pub signed_if : Text → Option Signer → List (Text × Handler)
  signed_if kind none = []
  signed_if kind (some signer) = signed_routes kind signer

  abbrev pub assets_routes : Text → List (Text × Handler)
  assets_routes [] = []
  assets_routes (c ∷ path) = (text "/assets/", file_server (c ∷ path)) ∷ []

  -- The table that `HTTPHandler` fills.
  abbrev pub routes : HttpServer → List (Text × Handler)
  routes server =
      plain_routes
      ++ (signed_if (text ".sig") server.signer
          ++ (signed_if (text ".asc") server.armored_signer ++ assets_routes server.assets_path))

  -- `(*Server).HTTPHandler`
  unfoldable pub http_handler : HttpServer → Handler
  http_handler server = serve_mux (routes server)
