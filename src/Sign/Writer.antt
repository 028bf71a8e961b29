-- ===== src/Sign/Writer.antt =====
-- bootcfg/sign/writer.go. The writer below a `signatureResponseWriter` is the list of the calls
-- that reach it.
pub mod Signed
use coreos_baremetal.Prelude.{Option, none, some, List, [], ◌∷◌, ◌++◌, eqb, if◌then◌else◌}
use coreos_baremetal.Prelude.Text.{Text}
use coreos_baremetal.Golang.Errors.{Result, ok, err, error_text}
use coreos_baremetal.Golang.Dict.{Dict, insert}
use coreos_baremetal.Golang.Http.{
  Call, write_header, write_or_reply, ResponseWriter, run, Request, status_ok,
  internal_server_error, error_reply,
}

-- `Signer.Sign`: the signature of a message, or an error.
abbrev pub Signer : Type 0
Signer = Text → Result Text

pub record SignatureWriter : Type 0 where
  pub sent : List Call
  pub header : Dict Text
  pub buf : Text

-- `newSignatureResponseWriter`
abbrev pub new_signature_writer : SignatureWriter
new_signature_writer = record { sent = []; header = []; buf = [] }

-- The methods `Header`, `WriteHeader` and `Write`.
abbrev pub signature_writer : ResponseWriter
signature_writer = record {
  State = SignatureWriter;
  on_set_header = λ key value rw. record rw { header = insert key value rw.header };
  on_write_header = λ code rw.
      if eqb code status_ok then rw else record rw { sent = rw.sent ++ (write_header code ∷ []) };
  on_write = λ data' rw. (record rw { buf = rw.buf ++ data' }, none);
}

-- `Flush`, and what `SignatureHandler` does with its error.
unfoldable pub flush : Signer → SignatureWriter → List Call
flush signer rw = elim (signer rw.buf) [
  | ok signature ↦ rw.sent ++ (write_or_reply signature ∷ [])
  | err e ↦ rw.sent ++ error_reply (error_text e) internal_server_error
]

-- `SignatureHandler`; `none` is a panic of the handler that it wraps.
unfoldable pub signature_handler :
    Signer → (Request → Option (List Call)) → Request → Option (List Call)
signature_handler signer next req = elim (next req) [
  | none ↦ none
  | some calls ↦ some (flush signer (run signature_writer calls new_signature_writer))
]
