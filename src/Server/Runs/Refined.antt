-- ===== src/Server/Runs/Refined.antt =====
-- Runs of bootcfg/server/server.go over the file store, next to the abstract view.
use coreos_baremetal.Prelude.{
  ◌≡◌, ◌≢◌, refl, sym, true, false, ◌⊎◌, inl, inr, Option, none, some, List, [], ◌∷◌, All,
  if◌then◌else◌,
}
use coreos_baremetal.Prelude.Text.{Text}
use coreos_baremetal.Golang.Errors.{Error, ok, Result-cases}
use coreos_baremetal.Golang.FileSystem.{FileSystem, IsLawful}
use coreos_baremetal.Storagepb.Json.{Json}
use coreos_baremetal.Storage.Dir.{read_file, write_file, sanitize}
use coreos_baremetal.Storage.Dir.Files.{read_file-write_file, read_file-write_file_ne}
use coreos_baremetal.Storage.FileStore.Paths.{sanitize_distinct}
use coreos_baremetal.Server.{Core, Sorts}
use coreos_baremetal.Server.Runs.{
  Kind, Resource, kind_of, name_of, put, run, get, encode, decode, View, written, replay, same_key,
}
use coreos_baremetal.Server.Runs.Keys.{
  IsNamed, directory, file, key-cases, directory-IsFileName, file-IsFileName,
}
use coreos_baremetal.Server.Runs.Written

known :
    {A : Type 0} (o : Option Error) (a b : A)
    → (if Written.is_none o then some a else none) ≡ some b
    → (o ≡ none) × (a ≡ b)
known none a b h = (refl, cc)
known (some e) a b h = absurd (cc)

module _ (F : FileSystem) (L : IsLawful F) (json : Json) (root : Text) (sorts : Sorts) where
  abbrev core : Core
  core = Written.file_server F json root sorts

  -- The file of a kind and name reads as the view says, where it says something.
  abbrev Agrees : View json → F.State → Type 0
  Agrees view s =
      (k : Kind) (name data' : Text)
      → IsNamed k name
      → view k name ≡ some data'
      → read_file F root s (Written.path_of k name) ≡ ok data'

  paths_apart :
      (k l : Kind) (m n : Text)
      → IsNamed k m
      → IsNamed l n
      → (directory k ≢ directory l) ⊎ (file k m ≢ file l n)
      → sanitize root (Written.path_of k m) ≢ sanitize root (Written.path_of l n)
  paths_apart k l m n h h' d =
      sanitize_distinct root (directory k) (directory l) (file k m) (file l n)
        (directory-IsFileName k) (directory-IsFileName l) (file-IsFileName k m h)
        (file-IsFileName l n h') d

  written_file-Agrees :
      (view : View json) (s : F.State) (k : Kind) (name data' : Text)
      → IsNamed k name
      → Agrees view s
      → Agrees
          (written json view k name
            (ok data')
            (Written.written_file F json root sorts s k name data').1)
          (Written.written_file F json root sorts s k name data').0
  written_file-Agrees view s k name data' named agrees l other found h e =
      elim (key-cases k l name other) [
        | inr (q, d) ↦
            read_file-write_file_ne F L root s _ _ data' found
              (paths_apart k l name other named h d) (agrees l other found h (rw q at e))
        | inl (q, same, names) ↦
            let (stored, d) =
              known (write_file F root s (Written.path_of k name) data').1 data' found
                (rw q at e) in
            rw (sym same, sym names, sym d)
              (read_file-write_file F L root s (Written.path_of k name) data' stored)
      ]

  put-Agrees :
      (view : View json) (s : F.State) (r : Resource)
      → IsNamed (kind_of r) (name_of r)
      → Agrees view s
      → Agrees
          (written json view (kind_of r) (name_of r) (encode json r) (put core s r).1)
          (put core s r).0
  put-Agrees view s r named agrees = elim (Written.put-cases F json root sorts s r) [
    | inl (e, q, p) ↦ rw (q, p) agrees
    | inr (data', q, p) ↦
        rw (q, p) (written_file-Agrees view s (kind_of r) (name_of r) data' named agrees)
  ]

  run-Agrees :
      (rs : List Resource) (view : View json) (s : F.State)
      → All (λ r. IsNamed (kind_of r) (name_of r)) rs
      → Agrees view s
      → Agrees (replay json core s rs view) (run core s rs)
  unfolding run replay
  run-Agrees [] view s named agrees = agrees
  run-Agrees (r ∷ rest) view s (n, named) agrees =
      run-Agrees rest _ _ named (put-Agrees view s r n agrees)

  -- Whatever groups, profiles and templates are put one after the other, and whichever of the puts
  -- fail, over a lawful file system: a get reads the resource that the last put of its kind and
  -- name has written, if that put succeeded and no later one of that kind and name failed to
  -- write. Ids must have no slashes and NUL bytes, and template names must be names of one file.
  pub get-run :
      (s : F.State) (rs : List Resource) (k : Kind) (name data' : Text)
      → All (λ r. IsNamed (kind_of r) (name_of r)) rs
      → IsNamed k name
      → replay json core s rs (λ l other. none) k name ≡ some data'
      → get core (run core s rs) k name ≡ decode json k name data'
  get-run s rs k name data' named h e =
      Written.get_lem F json root sorts (run core s rs) k name data' (
        run-Agrees rs (λ l other. none) s named (λ l other found n q. absurd (cc)) k name data' h e)

  replay_kept :
      (rs : List Resource) (view : View json) (s : F.State) (k : Kind) (name data' : Text)
      → All (λ r. same_key (kind_of r) (name_of r) k name ≡ false) rs
      → view k name ≡ some data'
      → replay json core s rs view k name ≡ some data'
  unfolding replay
  replay_kept [] view s k name data' others h = h
  replay_kept (r ∷ rest) view s k name data' (n, others) h =
      replay_kept rest _ _ k name data' others
        (elim (Result-cases (encode json r)) [ inr (e, q) ↦ rw q h | inl (found, q) ↦ rw (q, n) h ])

  -- Over a lawful file system, a resource that was put without an error is read back as what its
  -- encoding stands for, after any further puts of other kinds or names, whether or not those
  -- succeed. Ids must have no slashes and NUL bytes, and template names must be names of one file.
  pub get-run-put :
      (s : F.State) (r : Resource) (rest : List Resource) (data' : Text)
      → All (λ q. IsNamed (kind_of q) (name_of q)) (r ∷ rest)
      → encode json r ≡ ok data'
      → (put core s r).1 ≡ true
      → All (λ q. same_key (kind_of q) (name_of q) (kind_of r) (name_of r) ≡ false) rest
      → get core (run core s (r ∷ rest)) (kind_of r) (name_of r)
        ≡ decode json (kind_of r) (name_of r) data'
  unfolding replay
  get-run-put s r rest data' named h success others =
      get-run s (r ∷ rest) (kind_of r) (name_of r) data' named named.0 (
        replay_kept rest _ _ (kind_of r) (name_of r) data' others (
          rw (h, success)
            (elim (key-cases (kind_of r) (kind_of r) (name_of r) (name_of r)) [
              | inl (q, _, _) ↦ rw q refl
              | inr (q, inl d) ↦ absurd (d refl)
              | inr (q, inr d) ↦ absurd (d refl)
            ])))
