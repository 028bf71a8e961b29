-- ===== src/Golang/Http.antt =====
-- What the program uses of `net/http`: requests, the interface of a response writer, and the
-- functions that answer through it. A handler's body is the list of the calls it makes on its
-- `http.ResponseWriter`; `run` makes them on a writer.
pub mod Recorder
pub mod Statuses
use coreos_baremetal.Prelude.{
  Bool, true, ◌&&◌, ℕ, Option, none, some, List, [], ◌∷◌, ◌++◌, if◌then◌else◌,
}
use coreos_baremetal.Prelude.Text.{Text, text, ◌==◌}
use coreos_baremetal.Golang.Errors.{Error, error_text}
use coreos_baremetal.Golang.Dict.{Dict, index}

-- A request whose path is clean. `query` is `req.URL.Query()`: the values of each key in order;
-- `header` has the first value of each header, under its canonical name.
pub record Request : Type 0 where
  pub method : Text
  pub path : Text
  pub query : Dict (List Text)
  pub raw_query : Text
  pub header : Dict Text

pub data Call : Type 0 where
  -- `w.Header().Set(key, value)`
  set_header : Text → Text → Call
  -- `w.WriteHeader(code)`
  write_header : ℕ → Call
  -- `w.Write(data)`, its error not looked at
  write : Text → Call
  -- `w.Write(data)`, and `w.WriteHeader(500)` if it fails
  write_or_fail : Text → Call
  -- `w.Write(data)`, and `http.Error(w, err.Error(), 500)` if it fails
  write_or_reply : Text → Call

-- `http.ResponseWriter`, its state passed along.
pub record ResponseWriter : Type 1 where
  pub State : Type 0
  pub on_set_header : Text → Text → State → State
  pub on_write_header : ℕ → State → State
  pub on_write : Text → State → State × Option Error

abbrev pub status_ok : ℕ
status_ok = 200

abbrev pub partial_content : ℕ
partial_content = 206

abbrev pub moved_permanently : ℕ
moved_permanently = 301

abbrev pub not_modified : ℕ
not_modified = 304

abbrev pub precondition_failed : ℕ
precondition_failed = 412

abbrev pub range_not_satisfiable : ℕ
range_not_satisfiable = 416

abbrev pub bad_request : ℕ
bad_request = 400

abbrev pub status_not_found : ℕ
status_not_found = 404

abbrev pub internal_server_error : ℕ
internal_server_error = 500

-- `http.Error(w, message, code)`
unfoldable pub error_reply : Text → ℕ → List Call
error_reply message code =
    set_header (text "Content-Type") (text "text/plain; charset=utf-8")
    ∷ set_header (text "X-Content-Type-Options") (text "nosniff")
    ∷ write_header code
    ∷ write (message ++ (10 ∷ []))
    ∷ []

module _ (W : ResponseWriter) where
  -- The calls of `error_reply`, made one by one.
  unfoldable pub run_error : Text → ℕ → W.State → W.State
  run_error message code w =
      let typed = W.on_set_header (text "Content-Type") (text "text/plain; charset=utf-8") w in
      let kept = W.on_set_header (text "X-Content-Type-Options") (text "nosniff") typed in
      (W.on_write (message ++ (10 ∷ [])) (W.on_write_header code kept)).0

  unfoldable pub run_call : Call → W.State → W.State
  run_call (set_header key value) w = W.on_set_header key value w
  run_call (write_header code) w = W.on_write_header code w
  run_call (write data') w = (W.on_write data' w).0
  run_call (write_or_fail data') w = elim (W.on_write data' w).1 [
    | none ↦ (W.on_write data' w).0
    | some e ↦ W.on_write_header internal_server_error (W.on_write data' w).0
  ]
  run_call (write_or_reply data') w = elim (W.on_write data' w).1 [
    | none ↦ (W.on_write data' w).0
    | some e ↦ run_error (error_text e) internal_server_error (W.on_write data' w).0
  ]

  unfoldable pub run : List Call → W.State → W.State
  run [] w = w
  run (c ∷ calls) w = run calls (run_call c w)

-- `http.NotFound(w, req)`
unfoldable pub not_found : List Call
not_found = error_reply (text "404 page not found") status_not_found

unfoldable pub set_headers : Dict Text → List Call
set_headers [] = []
set_headers ((key, value) ∷ m) = set_header key value ∷ set_headers m

-- `http.Redirect(w, req, location, 301)` to a clean path without characters that HTML escapes.
unfoldable pub redirect : Text → Request → List Call
redirect location req =
    set_header (text "Location") location
    ∷ write_header moved_permanently
    ∷ (if req.method == text "GET"
        then write (text "<a href=\"" ++ location ++ text "\">Moved Permanently</a>.\n\n") ∷ []
        else [])

-- The headers that ask `http.ServeContent` for a part of a content, or for it on a condition.
abbrev pub conditional_headers : List Text
conditional_headers =
    text "Range"
    ∷ text "If-Range"
    ∷ text "If-Match"
    ∷ text "If-None-Match"
    ∷ text "If-Modified-Since"
    ∷ text "If-Unmodified-Since"
    ∷ []

unfoldable pub has_none : Dict Text → List Text → Bool
has_none header [] = true
has_none header (name ∷ names) = (index header name == []) && has_none header names

-- `http.ServeContent` of a text without a name or a time. `describe` gives the headers that say
-- what the content is: its sniffed type and its length. A request for a part, or on a condition, is
-- answered by `conditional`, which stands for the rest of that function.
unfoldable pub serve_content :
    (Text → Dict Text) → (Request → Text → List Call) → Request → Text → List Call
serve_content describe conditional req content =
    if has_none req.header conditional_headers
    then set_headers (describe content)
      ++ (write_header status_ok ∷ (if req.method == text "HEAD" then [] else write content ∷ []))
    else conditional req content
