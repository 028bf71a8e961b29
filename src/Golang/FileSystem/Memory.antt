-- ===== src/Golang/FileSystem/Memory.antt =====
-- A file system kept in a map from paths to contents.
use coreos_baremetal.Prelude.{
  ◌≡◌, refl, eqb, ◌++◌, Bool-cases, inl, inr, false, Option, none, some, List, [], ◌∷◌, arith,
  if◌then◌else◌,
}
use coreos_baremetal.Prelude.Text.{Text, text, ◌==◌, ==_iff, contains_byte}
use coreos_baremetal.Golang.Errors.{Error, failure, Result, ok, err}
use coreos_baremetal.Golang.Dict.{Dict, lookup, insert, lookup-insert}
use coreos_baremetal.Golang.FilePath.{clean}
use coreos_baremetal.Golang.FileSystem.{FileSystem, IsLawful, ListsFiles}
use mathlib.Core.List.{Mem, mem-cons_self, mem-cons_of_mem}
use coreos_baremetal.Golang.FilePath.Split.{NoSlash}

abbrev pub no_such_file : Error
no_such_file = failure (text "no such file or directory")

abbrev pub found_or_fail : Option Text → Result Text
found_or_fail none = err no_such_file
found_or_fail (some data') = ok data'

-- What is left of a path below a directory.
unfoldable pub strip : Text → Text → Option Text
strip [] p = some p
strip (c ∷ d) [] = none
strip (c ∷ d) (e ∷ p) = if eqb c e then strip d p else none

abbrev pub entry_or : Option Text → List Text → List Text
entry_or none rest = rest
entry_or (some f) rest = if contains_byte f b'/' then rest else f ∷ rest

-- The files that stand in a directory itself.
unfoldable pub entries_of : Text → Dict Text → List Text
entries_of dir [] = []
entries_of dir ((p, data') ∷ files) = entry_or (strip (dir ++ (b'/' ∷ [])) p) (entries_of dir files)

abbrev pub memory : FileSystem
memory = record {
  State = Dict Text;
  read_file = λ files p. found_or_fail (lookup p files);
  write_file = λ files p data' mode. (insert p data' files, none);
  mkdir_all = λ files d mode. (files, none);
  read_dir = λ files dir. ok (entries_of dir files);
}

pub memory-IsLawful : IsLawful memory
memory-IsLawful = record {
  read-write = λ s p data' mode h. ground (arith, lookup-insert p p data' s, ==_iff p p);
  read-write_ne = λ s p q data' found mode ne h.
      ground (arith, lookup-insert (clean p) (clean q) data' s, ==_iff (clean p) (clean q));
  read-mkdir_all = λ s d q found mode h. h;
}

strip-append : (d f : Text) → strip (d ++ (b'/' ∷ [])) (d ++ (b'/' ∷ f)) ≡ some f
unfolding strip
strip-append [] f = refl
strip-append (c ∷ d) f = ground (arith, strip-append d f)

no_slash : (f : Text) → NoSlash f → contains_byte f b'/' ≡ false
unfolding contains_byte
no_slash [] h = refl
no_slash (c ∷ f) (p, h) = ground (arith, no_slash f h)

entry-first :
    (o : Option Text) (f : Text) (rest : List Text)
    → o ≡ some f
    → contains_byte f b'/' ≡ false
    → Mem f (entry_or o rest)
entry-first o f rest h k = rw (h, k) mem-cons_self

entry-later : (o : Option Text) (f : Text) (rest : List Text) → Mem f rest → Mem f (entry_or o rest)
entry-later none f rest m = m
entry-later (some g) f rest m = elim (Bool-cases (contains_byte g b'/')) [
  | inl k ↦ rw k m
  | inr k ↦ rw k (mem-cons_of_mem g m)
]

-- The entry of a file is there once the file is.
entries_of-insert :
    (d f data' : Text) (files : Dict Text)
    → NoSlash f
    → Mem f (entries_of d (insert (d ++ (b'/' ∷ f)) data' files))
unfolding entries_of insert
entries_of-insert d f data' [] h = entry-first _ f [] (strip-append d f) (no_slash f h)
entries_of-insert d f data' ((p, old) ∷ files) h = elim (Bool-cases (p == d ++ (b'/' ∷ f))) [
  | inl k ↦
      rw (insert, k)
        (let path : p ≡ d ++ (b'/' ∷ f) = (==_iff p (d ++ (b'/' ∷ f))).0 k in
          entry-first (strip (d ++ (b'/' ∷ [])) p) f (entries_of d files)
            (rw path (strip-append d f)) (no_slash f h))
  | inr k ↦ rw (insert, k) (entry-later _ f _ (entries_of-insert d f data' files h))
]

pub memory-ListsFiles : ListsFiles memory
memory-ListsFiles = record {
  read_dir-write = λ s d file data' mode h k e. (_, refl, entries_of-insert d file data' s k.3);
}
