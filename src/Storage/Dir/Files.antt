-- ===== src/Storage/Dir/Files.antt =====
-- What `Dir.writeFile` does to the files, over a lawful file system.
use coreos_baremetal.Prelude.{
  ◌≡◌, ◌≢◌, refl, inl, inr, Option, none, some, [], ◌∷◌, arith, Bool-cases,
}
use coreos_baremetal.Prelude.Text.{Text, ◌==◌, contains_byte}
use coreos_baremetal.Golang.Errors.{Error, Result-cases, ok, err}
use coreos_baremetal.Golang.FilePath.{clean, join_paths, dir_of}
use coreos_baremetal.Golang.FileSystem.{FileSystem, IsLawful}
use coreos_baremetal.Storage.Dir.{
  root_of, sanitize, read_file, write_file, write_below, default_directory_mode,
}
use coreos_baremetal.Storage.Dir.Contained.{root_of-ne-nil}

join_paths-clean_two : (r c : Text) → r ≢ [] → (raw : Text) × (join_paths (r ∷ c ∷ []) ≡ clean raw)
unfolding join_paths ◌==◌
join_paths-clean_two [] c h = absurd (h refl)
join_paths-clean_two (x ∷ r) c h = (_, refl)

-- Every sanitized path is the cleaned form of some text.
sanitize-clean : (d name p : Text) → sanitize d name ≡ ok p → (raw : Text) × (p ≡ clean raw)
unfolding sanitize
sanitize-clean d name p h = elim (Bool-cases (contains_byte name 0)) [
  | inl e ↦ cc (rw (e, sanitize) at h)
  | inr e ↦
      let (raw, q) = join_paths-clean_two (root_of d) (clean (b'/' ∷ name)) (root_of-ne-nil d) in
      (raw, ground arith)
]

module _ (F : FileSystem) (L : IsLawful F) (d : Text) where
  read-write_below :
      (p data' : Text) (m : F.State × Option Error)
      → (write_below F d p data' m).1 ≡ none
      → F.read_file (write_below F d p data' m).0 p ≡ ok data'
  read-write_below p data' (s, some e) h = cc
  read-write_below p data' (s, none) h = L.read-write s p data' _ h

  read-write_below_ne :
      (p q data' found : Text) (m : F.State × Option Error)
      → clean p ≢ clean q
      → F.read_file m.0 (clean q) ≡ ok found
      → F.read_file (write_below F d (clean p) data' m).0 (clean q) ≡ ok found
  read-write_below_ne p q data' found (s, some e) ne h = h
  read-write_below_ne p q data' found (s, none) ne h = L.read-write_ne s p q data' found _ ne h

  read_file_of_ok :
      (s : F.State) (path p : Text)
      → sanitize d path ≡ ok p
      → read_file F d s path ≡ F.read_file s p
  unfolding read_file
  read_file_of_ok s path p q = rw q

  read_file_of_err :
      (s : F.State) (path : Text) (e : Error)
      → sanitize d path ≡ err e
      → read_file F d s path ≡ err e
  unfolding read_file
  read_file_of_err s path e q = rw q

  pub write_file_of_ok :
      (s : F.State) (path data' p : Text)
      → sanitize d path ≡ ok p
      → write_file F d s path data'
        ≡ write_below F d p data' (F.mkdir_all s (dir_of p) default_directory_mode)
  unfolding write_file
  write_file_of_ok s path data' p q = rw (q, write_file)

  write_file_of_err :
      (s : F.State) (path data' : Text) (e : Error)
      → sanitize d path ≡ err e
      → write_file F d s path data' ≡ (s, some e)
  unfolding write_file
  write_file_of_err s path data' e q = rw (q, write_file)

  -- A file that was written is read back.
  pub read_file-write_file :
      (s : F.State) (path data' : Text)
      → (write_file F d s path data').1 ≡ none
      → read_file F d (write_file F d s path data').0 path ≡ ok data'
  read_file-write_file s path data' h = elim (Result-cases (sanitize d path)) [
    | inr (e, q) ↦ cc (rw (write_file_of_err s path data' e q) at h)
    | inl (p, q) ↦
        let w = write_file_of_ok s path data' p q in
        rw (w, read_file_of_ok _ path p q) (read-write_below p data' _ (rw w at h))
  ]

  -- A file that could be read under another path is read as before.
  pub read_file-write_file_ne :
      (s : F.State) (path other data' found : Text)
      → sanitize d path ≢ sanitize d other
      → read_file F d s other ≡ ok found
      → read_file F d (write_file F d s path data').0 other ≡ ok found
  read_file-write_file_ne s path other data' found ne h = elim (Result-cases (sanitize d path)) [
    | inr (e, q) ↦ rw (write_file_of_err s path data' e q) h
    | inl (p, q) ↦ elim (Result-cases (sanitize d other)) [
      | inr (e, r) ↦ cc (rw (read_file_of_err s other e r) at h)
      | inl (o, r) ↦
          let (raw, u) = sanitize-clean d path p q in
          let (raw', v) = sanitize-clean d other o r in
          let apart : clean raw ≢ clean raw' = λ same. ne (cc) in
          let before : F.read_file s (clean raw') ≡ ok found =
            rw (read_file_of_ok s other o r, v) at h in
          rw (write_file_of_ok s path data' p q, read_file_of_ok _ other o r, u, v)
            (read-write_below_ne raw raw' data' found _ apart
              (L.read-mkdir_all s _ (clean raw') found _ before))
    ]
  ]
