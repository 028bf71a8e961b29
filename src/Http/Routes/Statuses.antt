-- ===== src/Http/Routes/Statuses.antt =====
-- The statuses that the handlers of bootcfg/http and bootcfg/sign/writer.go send.
pub mod Served
use coreos_baremetal.Prelude.{
  ℕ, Bool, ◌≡◌, refl, true, false, Option, none, some, List, [], ◌∷◌, ◌++◌, All-append,
  if◌then◌else◌, eqb, Bool-cases, inl, inr,
}
use coreos_baremetal.Prelude.Text.{Text, text, ◌==◌}
use coreos_baremetal.Golang.Errors.{Result, ok, err, Result-cases, error_text}
use coreos_baremetal.Golang.Sort.{Sorter}
use coreos_baremetal.Golang.Mac.{mac_string, parse_mac, invalid_address}
use coreos_baremetal.Golang.FilePath.{base}
use coreos_baremetal.Golang.Http.{
  Call, Request, write, write_header, set_header, write_or_fail, write_or_reply, not_found,
  error_reply, run, run_call, serve_content, status_ok, internal_server_error, bad_request,
}
use coreos_baremetal.Golang.Http.Statuses.{
  is_known, is_content_status, ServesContent, AllKnown, Answers, sends_known, error_reply-AllKnown,
  not_found-AllKnown, writes-AllKnown, serve_content-AllKnown,
}
use coreos_baremetal.Storagepb.Json.{Json, Fields}
use coreos_baremetal.Storagepb.Group.{mac_key}
use coreos_baremetal.Server.{Core}
use coreos_baremetal.Sign.Writer.{
  Signer, SignatureWriter, signature_writer, new_signature_writer, flush, signature_handler,
}
use coreos_baremetal.Http.Context.{
  Context, background, group_from_context, profile_from_context, with_group, with_profile,
}
use coreos_baremetal.Http.Parse.{labels_from_request, collect_variables}
use coreos_baremetal.Http.Render.{Libraries, write_json, render_json, render_template}
use coreos_baremetal.Http.Boot.{ipxe_inspect, ipxe_handler, grub_handler, ipxe_script, grub_config}
use coreos_baremetal.Http.Metadata.{metadata_handler, render_as_env_file}
use coreos_baremetal.Http.Configs.{
  or_not_found, or_panic, is_ignition, is_user_data, generic_handler, cloud_handler,
  ignition_handler,
}
use coreos_baremetal.Http.Handlers.{
  Handler, ContextHandler, new_handler, home_handler, select_group_handler, select_profile_handler,
  pixiecore_handler,
}

if-Answers :
    (b : Bool) (x y : Option (List Call)) → Answers x → Answers y → Answers (if b then x else y)
if-Answers true x y h k = h
if-Answers false x y h k = k

or_not_found-Answers :
    {A : Type 0} (r : Result A) (next : A → Option (List Call))
    → ((a : A) → Answers (next a))
    → Answers (or_not_found r next)
or_not_found-Answers (ok a) next h = h a
or_not_found-Answers (err e) next h = not_found-AllKnown

or_panic-Answers :
    (o : Option Fields) (next : Fields → Option (List Call))
    → ((fields : Fields) → Answers (next fields))
    → Answers (or_panic o next)
or_panic-Answers none next h = tt
or_panic-Answers (some fields) next h = h fields

-- The answer of a handler that needs a result, on both ways out.
result-Answers :
    {A : Type 0} (r : Result A) (next : A → Option (List Call)) (failed : Option (List Call))
    → ((a : A) → Answers (next a))
    → Answers failed
    → Answers (elim r [ ok a ↦ next a | err e ↦ failed ])
result-Answers (ok a) next failed h k = h a
result-Answers (err e) next failed h k = k

option-Answers :
    {A : Type 0} (o : Option A) (next : A → Option (List Call)) (absent : Option (List Call))
    → ((a : A) → Answers (next a))
    → Answers absent
    → Answers (elim o [ none ↦ absent | some a ↦ next a ])
option-Answers none next absent h k = k
option-Answers (some a) next absent h k = h a

render_json-AllKnown : (r : Result Text) → AllKnown (render_json r)
unfolding render_json write_json is_known is_content_status
render_json-AllKnown (ok js) = (refl, (refl, tt))
render_json-AllKnown (err e) = (refl, tt)

pub home_handler-Answers : (req : Request) → Answers (home_handler req)
unfolding home_handler
home_handler-Answers req = if-Answers (req.path == text "/") _ _ (refl, tt) not_found-AllKnown

pub ipxe_inspect-Answers : (ctx : Context) (req : Request) → Answers (ipxe_inspect ctx req)
unfolding ipxe_inspect
ipxe_inspect-Answers ctx req = (refl, tt)

pub boot_handlers-Answers :
    (sorter : Sorter Text) (ctx : Context) (req : Request)
    → Answers (ipxe_handler sorter ctx req) × Answers (grub_handler sorter ctx req)
unfolding ipxe_handler grub_handler
boot_handlers-Answers sorter ctx req = (
  result-Answers (profile_from_context ctx) _ (some not_found)
      (λ p.
        result-Answers (ipxe_script sorter p.boot) _ (some not_found) (λ script. (refl, tt))
          not_found-AllKnown)
      not_found-AllKnown,
  result-Answers (profile_from_context ctx) _ (some not_found)
      (λ p.
        result-Answers (grub_config sorter p.boot) _ (some not_found) (λ config. (refl, tt))
          not_found-AllKnown)
      not_found-AllKnown,
)

module _ (core : Core) (s : core.State) where
  pub by_group-Answers :
      (next : ContextHandler) (req : Request)
      → ((ctx : Context) → Answers (next ctx req))
      → Answers (new_handler (select_group_handler core s next) req)
  unfolding new_handler select_group_handler
  by_group-Answers next req h =
      result-Answers (core.select_group s (some (labels_from_request req))) _ (next background req)
        (λ group. h (with_group background group)) (h background)

  pub by_profile-Answers :
      (next : ContextHandler) (req : Request)
      → ((ctx : Context) → Answers (next ctx req))
      → Answers (new_handler (select_profile_handler core s next) req)
  unfolding new_handler select_profile_handler
  by_profile-Answers next req h =
      result-Answers (core.select_profile s (some (labels_from_request req))) _
        (next background req) (λ profile. h (with_profile background profile)) (h background)

  pub pixiecore_handler-Answers :
      (json : Json) (ctx : Context) (req : Request)
      → Answers (pixiecore_handler core s json ctx req)
  unfolding pixiecore_handler is_known is_content_status
  pixiecore_handler-Answers json ctx req =
      option-Answers (parse_mac (base req.path)) _
        (some (error_reply (invalid_address (base req.path)) bad_request))
        (λ mac.
          result-Answers (core.select_group s (some ((mac_key, mac_string mac) ∷ []))) _
            (some not_found)
            (λ group.
              result-Answers (core.profile_get s group.profile) _ (some not_found)
                (λ profile. render_json-AllKnown (json.marshal_boot profile.boot))
                not_found-AllKnown)
            not_found-AllKnown)
        (error_reply-AllKnown (invalid_address (base req.path)) bad_request refl)

module _ (lib : Libraries) (json : Json) (core : Core) (s : core.State) (ctx : Context)
    (req : Request) where
  pub generic_handler-Answers :
      ServesContent lib.serve_conditional → Answers (generic_handler lib json core s ctx req)
  unfolding generic_handler
  generic_handler-Answers content = or_not_found-Answers (group_from_context ctx) _ λ group.
      or_not_found-Answers (core.profile_get s group.profile) _ λ profile.
        or_not_found-Answers (core.generic_get s profile.generic_id) _ λ contents.
          or_not_found-Answers (collect_variables json req group) _ λ variables.
            or_panic-Answers variables _ λ data'.
              or_not_found-Answers (render_template lib data' (contents ∷ [])) _ λ config.
                serve_content-AllKnown lib.describe lib.serve_conditional req config content

  pub cloud_handler-Answers :
      ServesContent lib.serve_conditional → Answers (cloud_handler lib json core s ctx req)
  unfolding cloud_handler
  cloud_handler-Answers content = or_not_found-Answers (group_from_context ctx) _ λ group.
      or_not_found-Answers (core.profile_get s group.profile) _ λ profile.
        or_not_found-Answers (core.cloud_get s profile.cloud_id) _ λ contents.
          or_not_found-Answers (collect_variables json req group) _ λ variables.
            or_panic-Answers variables _ λ data'.
              or_not_found-Answers (render_template lib data' (contents ∷ [])) _ λ config.
                if-Answers (is_user_data lib config) _ _
                  (serve_content-AllKnown lib.describe lib.serve_conditional req config content)
                  not_found-AllKnown

  pub ignition_handler-Answers : Answers (ignition_handler lib json core s ctx req)
  unfolding ignition_handler write_json
  ignition_handler-Answers = or_not_found-Answers (group_from_context ctx) _ λ group.
      or_not_found-Answers (core.profile_get s group.profile) _ λ profile.
        or_not_found-Answers (core.ignition_get s profile.ignition_id) _ λ contents.
          if-Answers (is_ignition profile.ignition_id) _ _ (refl, (refl, tt))
            (or_not_found-Answers (collect_variables json req group) _ λ variables.
              or_panic-Answers variables _ λ data'.
                or_not_found-Answers (render_template lib data' (contents ∷ [])) _ λ rendered.
                  or_not_found-Answers (lib.parse_fuze rendered) _
                    λ config. render_json-AllKnown (lib.marshal_ignition config))

  pub metadata_handler-Answers : Answers (metadata_handler json ctx req)
  unfolding metadata_handler
  metadata_handler-Answers =
      result-Answers (group_from_context ctx) _ (some not_found)
        (λ group.
          result-Answers (collect_variables json req group) _ (some not_found)
            (λ variables.
              option-Answers variables _ none
                (λ data'. (refl, writes-AllKnown (render_as_env_file [] data'))) tt)
            not_found-AllKnown)
        not_found-AllKnown

if-sent :
    (b : Bool) (v w : SignatureWriter)
    → AllKnown v.sent
    → AllKnown w.sent
    → AllKnown (if b then v else w).sent
if-sent true v w h k = h
if-sent false v w h k = k

sent-AllKnown :
    (calls : List Call) (w : SignatureWriter)
    → AllKnown calls
    → AllKnown w.sent
    → AllKnown (run signature_writer calls w).sent
unfolding run run_call
sent-AllKnown [] w h k = k
sent-AllKnown (set_header key value ∷ calls) w (_, h) k = sent-AllKnown calls _ h k
sent-AllKnown (write_header code ∷ calls) w (known, h) k = sent-AllKnown calls _ h (
    if-sent (eqb code status_ok) w (record w { sent = w.sent ++ (write_header code ∷ []) }) k
      (All-append _ w.sent (write_header code ∷ []) k (known, tt)))
sent-AllKnown (write data' ∷ calls) w (_, h) k = sent-AllKnown calls _ h k
sent-AllKnown (write_or_fail data' ∷ calls) w (_, h) k = sent-AllKnown calls _ h k
sent-AllKnown (write_or_reply data' ∷ calls) w (_, h) k = sent-AllKnown calls _ h k

flush-AllKnown :
    (signer : Signer) (w : SignatureWriter) → AllKnown w.sent → AllKnown (flush signer w)
unfolding flush is_known is_content_status
flush-AllKnown signer w h = elim (Result-cases (signer w.buf)) [
  | inl (signature, p) ↦ rw (flush, p) (All-append _ w.sent _ h (refl, tt))
  | inr (e, p) ↦
      rw (flush, p)
        (All-append _ w.sent _ h (error_reply-AllKnown (error_text e) internal_server_error refl))
]

signed-Answers :
    (signer : Signer) (o : Option (List Call))
    → Answers o
    → Answers (elim o [
      | none ↦ none
      | some calls ↦ some (flush signer (run signature_writer calls new_signature_writer))
    ])
signed-Answers signer none h = tt
signed-Answers signer (some calls) h =
    flush-AllKnown signer _ (sent-AllKnown calls new_signature_writer h tt)

-- The signature of an answer sends no other statuses than the answer, and 500.
pub signature_handler-Answers :
    (signer : Signer) (next : Handler) (req : Request)
    → Answers (next req)
    → Answers (signature_handler signer next req)
unfolding signature_handler
signature_handler-Answers signer next req h = signed-Answers signer (next req) h
