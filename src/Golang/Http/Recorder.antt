-- ===== src/Golang/Http/Recorder.antt =====
-- The response that a client gets: the first status that is written counts, a write without one
-- sends 200, and headers set after that are not sent. Writes do not fail.
use coreos_baremetal.Prelude.{ℕ, Option, none, some, List, [], ◌++◌}
use coreos_baremetal.Prelude.Text.{Text}
use coreos_baremetal.Golang.Dict.{Dict, insert}
use coreos_baremetal.Golang.Http.{Call, ResponseWriter, run, status_ok}

pub record Response : Type 0 where
  pub status : Option ℕ
  pub header : Dict Text
  pub body : Text

abbrev pub first_status : Option ℕ → ℕ → Option ℕ
first_status none code = some code
first_status (some old) code = some old

abbrev pub with_header : Option ℕ → Text → Text → Dict Text → Dict Text
with_header none key value m = insert key value m
with_header (some old) key value m = m

abbrev pub recorder : ResponseWriter
recorder = record {
  State = Response;
  on_set_header = λ key value r. record r { header = with_header r.status key value r.header };
  on_write_header = λ code r. record r { status = first_status r.status code };
  on_write = λ data' r.
      (record r { status = first_status r.status status_ok; body = r.body ++ data' }, none);
}

abbrev pub fresh : Response
fresh = record { status = none; header = []; body = [] }

-- The response to a handler's calls.
unfoldable pub respond : List Call → Response
respond calls = run recorder calls fresh
