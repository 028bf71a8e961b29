-- ===== src/Golang/Http/Statuses.antt =====
-- The statuses that a handler's calls send.
use coreos_baremetal.Prelude.{
  ℕ, Bool, ◌≡◌, refl, true, false, ◌||◌, eqb, Option, none, some, List, [], ◌∷◌, All, All-append,
  if◌then◌else◌, map,
}
use coreos_baremetal.Prelude.Text.{Text, text, ◌==◌}
use coreos_baremetal.Golang.Dict.{Dict}
use coreos_baremetal.Golang.Http.{
  Call, Request, set_header, write_header, write, write_or_fail, write_or_reply, error_reply,
  not_found, set_headers, serve_content, redirect, has_none, conditional_headers, partial_content,
  moved_permanently, not_modified, precondition_failed, range_not_satisfiable, run, run_call,
  status_ok, bad_request, status_not_found, internal_server_error,
}
use coreos_baremetal.Golang.Http.Recorder.{Response, first_status, recorder, fresh, respond}

-- The statuses of `http.ServeContent`.
unfoldable pub is_content_status : ℕ → Bool
is_content_status code =
    eqb code status_ok
    || (eqb code partial_content
        || (eqb code not_modified
            || (eqb code precondition_failed || eqb code range_not_satisfiable)))

-- The statuses that the program sends.
unfoldable pub is_known : ℕ → Bool
is_known code =
    is_content_status code
    || (eqb code moved_permanently
        || (eqb code bad_request || (eqb code status_not_found || eqb code internal_server_error)))

abbrev pub sends_known : Call → Bool
sends_known (write_header code) = is_known code
sends_known call = true

abbrev pub AllKnown : List Call → Type 0
AllKnown = All (λ call. sends_known call ≡ true)

-- A call that sends a status of `http.ServeContent`, or none.
abbrev pub sends_content : Call → Bool
sends_content (write_header code) = is_content_status code
sends_content call = true

-- What is documented of `http.ServeContent` for a request for a part or on a condition.
abbrev pub ServesContent : (Request → Text → List Call) → Type 0
ServesContent conditional =
    (req : Request) (content : Text)
    → All (λ call. sends_content call ≡ true) (conditional req content)

known_of_content : (call : Call) → sends_content call ≡ true → sends_known call ≡ true
unfolding is_known
known_of_content (write_header code) h = rw (h) refl
known_of_content (set_header key value) h = refl
known_of_content (write data') h = refl
known_of_content (write_or_fail data') h = refl
known_of_content (write_or_reply data') h = refl

content-AllKnown :
    (calls : List Call) → All (λ call. sends_content call ≡ true) calls → AllKnown calls
content-AllKnown [] h = tt
content-AllKnown (call ∷ calls) (h, hs) = (known_of_content call h, content-AllKnown calls hs)

-- The calls of a handler, unless it panics.
abbrev pub Answers : Option (List Call) → Type 0
Answers none = Unit
Answers (some calls) = AllKnown calls

pub error_reply-AllKnown :
    (message : Text) (code : ℕ) → is_known code ≡ true → AllKnown (error_reply message code)
unfolding error_reply
error_reply-AllKnown message code h = (refl, (refl, (h, (refl, tt))))

pub not_found-AllKnown : AllKnown not_found
unfolding not_found is_known is_content_status
not_found-AllKnown = error_reply-AllKnown (text "404 page not found") status_not_found refl

set_headers-AllKnown : (m : Dict Text) → AllKnown (set_headers m)
unfolding set_headers
set_headers-AllKnown [] = tt
set_headers-AllKnown ((key, value) ∷ m) = (refl, set_headers-AllKnown m)

pub writes-AllKnown : (lines : List Text) → AllKnown (map write lines)
writes-AllKnown [] = tt
writes-AllKnown (l ∷ lines) = (refl, writes-AllKnown lines)

if-AllKnown : (b : Bool) (x y : List Call) → AllKnown x → AllKnown y → AllKnown (if b then x else y)
if-AllKnown true x y h k = h
if-AllKnown false x y h k = k

body-AllKnown : (b : Bool) (content : Text) → AllKnown (if b then [] else write content ∷ [])
body-AllKnown true content = tt
body-AllKnown false content = (refl, tt)

pub serve_content-AllKnown :
    (describe : Text → Dict Text) (conditional : Request → Text → List Call) (req : Request)
    (content : Text)
    → ServesContent conditional
    → AllKnown (serve_content describe conditional req content)
unfolding serve_content is_known is_content_status
serve_content-AllKnown describe conditional req content h =
    if-AllKnown (has_none req.header conditional_headers) _ _
      (All-append _ (set_headers (describe content)) _ (set_headers-AllKnown (describe content))
        (refl, body-AllKnown (req.method == text "HEAD") content))
      (content-AllKnown (conditional req content) (h req content))

pub redirect-AllKnown : (location : Text) (req : Request) → AllKnown (redirect location req)
unfolding redirect is_known is_content_status
redirect-AllKnown location req =
    (refl, (refl, if-AllKnown (req.method == text "GET") _ _ (refl, tt) tt))

-- A response without a status, or with one that is known.
abbrev pub HasKnown : Option ℕ → Type 0
HasKnown none = Unit
HasKnown (some code) = is_known code ≡ true

first_status-HasKnown :
    (o : Option ℕ) (code : ℕ) → is_known code ≡ true → HasKnown o → HasKnown (first_status o code)
first_status-HasKnown none code h k = h
first_status-HasKnown (some old) code h k = k

run_call-HasKnown :
    (call : Call) (r : Response)
    → sends_known call ≡ true
    → HasKnown r.status
    → HasKnown (run_call recorder call r).status
unfolding run_call is_known is_content_status
run_call-HasKnown (set_header key value) r h k = k
run_call-HasKnown (write_header code) r h k = first_status-HasKnown r.status code h k
run_call-HasKnown (write data') r h k = first_status-HasKnown r.status status_ok refl k
run_call-HasKnown (write_or_fail data') r h k = first_status-HasKnown r.status status_ok refl k
run_call-HasKnown (write_or_reply data') r h k = first_status-HasKnown r.status status_ok refl k

run-HasKnown :
    (calls : List Call) (r : Response)
    → AllKnown calls
    → HasKnown r.status
    → HasKnown (run recorder calls r).status
unfolding run
run-HasKnown [] r h k = k
run-HasKnown (call ∷ calls) r (h, hs) k =
    run-HasKnown calls (run_call recorder call r) hs (run_call-HasKnown call r h k)

pub respond-HasKnown : (calls : List Call) → AllKnown calls → HasKnown (respond calls).status
unfolding respond
respond-HasKnown calls h = run-HasKnown calls fresh h tt
