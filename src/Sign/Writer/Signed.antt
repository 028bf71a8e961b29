-- ===== src/Sign/Writer/Signed.antt =====
-- A signed response of bootcfg/sign/writer.go next to the plain one.
use coreos_baremetal.Prelude.{
  ℕ, ◌≡◌, refl, inl, inr, Bool-cases, sym, ap, ◌∙◌, arith, Option, none, some, List, [], ◌∷◌, ◌++◌,
  eqb, if◌then◌else◌,
}
use mathlib.Core.List.{append-nil, append_assoc}
use coreos_baremetal.Prelude.Text.{Text}
use coreos_baremetal.Golang.Errors.{ok}
use coreos_baremetal.Golang.Http.{
  Call, set_header, write_header, write, write_or_fail, write_or_reply, run, run_call, Request,
  status_ok,
}
use coreos_baremetal.Golang.Http.Recorder.{recorder, Response, respond, fresh, first_status}
use coreos_baremetal.Sign.Writer.{
  Signer, signature_writer, SignatureWriter, new_signature_writer, flush, signature_handler,
}

-- The texts that calls write, one after the other.
unfoldable pub written : List Call → Text
written [] = []
written (set_header key value ∷ calls) = written calls
written (write_header code ∷ calls) = written calls
written (write data' ∷ calls) = data' ++ written calls
written (write_or_fail data' ∷ calls) = data' ++ written calls
written (write_or_reply data' ∷ calls) = data' ++ written calls

-- The first status other than 200 that calls write, or 200.
unfoldable pub signed_status : List Call → ℕ
signed_status [] = status_ok
signed_status (write_header code ∷ calls) = if eqb code status_ok then signed_status calls else code
signed_status (_ ∷ calls) = signed_status calls

body-run :
    (calls : List Call) (r : Response) → (run recorder calls r).body ≡ r.body ++ written calls
unfolding run run_call written
body-run [] r = sym (append-nil r.body)
body-run (set_header key value ∷ calls) r = body-run calls _
body-run (write_header code ∷ calls) r = body-run calls _
body-run (write data' ∷ calls) r = body-run calls _ ∙ (append_assoc r.body data' _)
body-run (write_or_fail data' ∷ calls) r = body-run calls _ ∙ (append_assoc r.body data' _)
body-run (write_or_reply data' ∷ calls) r = body-run calls _ ∙ (append_assoc r.body data' _)

-- The statuses other than 200 that calls write.
unfoldable pub error_headers : List Call → List Call
error_headers [] = []
error_headers (write_header code ∷ calls) =
    let rest = error_headers calls in if eqb code status_ok then rest else write_header code ∷ rest
error_headers (set_header key value ∷ calls) = error_headers calls
error_headers (write data' ∷ calls) = error_headers calls
error_headers (write_or_fail data' ∷ calls) = error_headers calls
error_headers (write_or_reply data' ∷ calls) = error_headers calls

buf-run :
    (calls : List Call) (w : SignatureWriter)
    → (run signature_writer calls w).buf ≡ w.buf ++ written calls
unfolding run run_call written
buf-run [] w = sym (append-nil w.buf)
buf-run (set_header key value ∷ calls) w = buf-run calls _
buf-run (write_header code ∷ calls) w = elim (Bool-cases (eqb code status_ok)) [
  | inl e ↦ ground (arith, buf-run calls w)
  | inr e ↦ ground (arith, buf-run calls (record w { sent = w.sent ++ (write_header code ∷ []) }))
]
buf-run (write data' ∷ calls) w = buf-run calls _ ∙ (append_assoc w.buf data' _)
buf-run (write_or_fail data' ∷ calls) w = buf-run calls _ ∙ (append_assoc w.buf data' _)
buf-run (write_or_reply data' ∷ calls) w = buf-run calls _ ∙ (append_assoc w.buf data' _)

sent-run :
    (calls : List Call) (w : SignatureWriter)
    → (run signature_writer calls w).sent ≡ w.sent ++ error_headers calls
unfolding run run_call error_headers
sent-run [] w = sym (append-nil w.sent)
sent-run (set_header key value ∷ calls) w = sent-run calls _
sent-run (write_header code ∷ calls) w = elim (Bool-cases (eqb code status_ok)) [
  | inl e ↦ ground (arith, sent-run calls w)
  | inr e ↦ ground (
    arith,
    sent-run calls (record w { sent = w.sent ++ (write_header code ∷ []) }),
    append_assoc w.sent (write_header code ∷ []) (error_headers calls),
  )
]
sent-run (write data' ∷ calls) w = sent-run calls _
sent-run (write_or_fail data' ∷ calls) w = sent-run calls _
sent-run (write_or_reply data' ∷ calls) w = sent-run calls _

first_status_twice :
    (st : Option ℕ) (a b : ℕ) → first_status (first_status st a) b ≡ first_status st a
first_status_twice none a b = refl
first_status_twice (some old) a b = refl

run-error_headers :
    (calls : List Call) (sig : Text) (r : Response)
    → run recorder (error_headers calls ++ (write_or_reply sig ∷ [])) r
      ≡ record r { status = first_status r.status (signed_status calls); body = r.body ++ sig }
unfolding run run_call error_headers signed_status
run-error_headers [] sig r = refl
run-error_headers (write_header code ∷ calls) sig r = elim (Bool-cases (eqb code status_ok)) [
  | inl e ↦ rw (e) (run-error_headers calls sig r)
  | inr e ↦ rw (e) (
      run-error_headers calls sig _
      ∙ ap (λ st. record r { status = st; body = r.body ++ sig })
          (first_status_twice r.status code _))
]
run-error_headers (set_header key value ∷ calls) sig r = run-error_headers calls sig r
run-error_headers (write data' ∷ calls) sig r = run-error_headers calls sig r
run-error_headers (write_or_fail data' ∷ calls) sig r = run-error_headers calls sig r
run-error_headers (write_or_reply data' ∷ calls) sig r = run-error_headers calls sig r

signed_calls :
    (signer : Signer) (next : Request → Option (List Call)) (req : Request) (calls : List Call)
    (signature : Text)
    → next req ≡ some calls
    → signer (run signature_writer calls new_signature_writer).buf ≡ ok signature
    → signature_handler signer next req
      ≡ some (error_headers calls ++ (write_or_reply signature ∷ []))
unfolding signature_handler flush
signed_calls signer next req calls signature h k =
    rw (h, signature_handler, flush, k, sent-run calls new_signature_writer) refl

module _ (signer : Signer) (next : Request → Option (List Call)) where
  -- If signing succeeds, the response is the signature of the body that the wrapped handler
  -- would have sent, and nothing else of it: no header, and its first error status, or 200.
  pub signature_handler_lem :
      (req : Request) (calls : List Call) (signature : Text)
      → next req ≡ some calls
      → signer (respond calls).body ≡ ok signature
      → (signed : List Call) × (signature_handler signer next req ≡ some signed)
        × (respond signed
            ≡ record { status = some (signed_status calls); header = []; body = signature })
  unfolding respond signature_handler flush
  signature_handler_lem req calls signature h k =
      let same = buf-run calls new_signature_writer ∙ sym (body-run calls fresh) in
      (
        error_headers calls ++ (write_or_reply signature ∷ []),
        signed_calls signer next req calls signature h (ap signer same ∙ k),
        run-error_headers calls signature fresh,
      )
