-- ===== src/Storage/FileStore/Paths.antt =====
-- Where bootcfg/storage/filestore.go keeps a named resource.
use coreos_baremetal.Prelude.{
  ℕ, ◌<◌, ◌≡◌, ◌≢◌, refl, sym, ◌∙◌, ap, false, [], ◌∷◌, ◌++◌, arith, length, length-append, ◌⊎◌,
  inl, inr,
}
use coreos_baremetal.Prelude.Text.{Text, text, contains_byte}
use coreos_baremetal.Golang.Errors.{ok}
use coreos_baremetal.Golang.FilePath.{dot, dot_dot, elements, join_paths, is_rooted}
use coreos_baremetal.Golang.FilePath.Split.{NoSlash}
use coreos_baremetal.Golang.FilePath.Resolve.{IsSafe}
use coreos_baremetal.Golang.FilePath.Distinct.{
  elements_two, elements-NoSlash, render-append_injective, join_paths_file,
}
use coreos_baremetal.Storage.Dir.{root_of, sanitize}
use coreos_baremetal.Storage.Dir.Contained.{below, sanitize_contained}
use coreos_baremetal.Storage.FileStore.{groups_dir, profiles_dir, json_suffix}

pub contains_byte-append :
    (s t : Text) (c : ℕ)
    → contains_byte s c ≡ false
    → contains_byte t c ≡ false
    → contains_byte (s ++ t) c ≡ false
unfolding contains_byte
contains_byte-append [] t c h k = k
contains_byte-append (d ∷ s) t c h k = ground (arith, contains_byte-append s t c)

NoSlash-append : (s t : Text) → NoSlash s → NoSlash t → NoSlash (s ++ t)
NoSlash-append [] t h k = k
NoSlash-append (c ∷ s) t (p, h) k = (p, NoSlash-append s t h k)

-- A name of one file: an entry of its directory, with no NUL byte.
pub record IsFileName (file : Text) : Type 0 where
  pub safe : IsSafe file
  pub no_nul : contains_byte file 0 ≡ false

-- An id that holds neither a slash nor a NUL byte.
pub record IsId (id : Text) : Type 0 where
  pub no_slash : NoSlash id
  pub no_nul : contains_byte id 0 ≡ false

pub groups_dir-IsFileName : IsFileName groups_dir
unfolding text contains_byte
groups_dir-IsFileName = record { safe = (cc, cc, cc, omega arith); no_nul = refl }

pub profiles_dir-IsFileName : IsFileName profiles_dir
unfolding text contains_byte
profiles_dir-IsFileName = record { safe = (cc, cc, cc, omega arith); no_nul = refl }

json_suffix-IsFileName : IsFileName json_suffix
unfolding text contains_byte
json_suffix-IsFileName = record { safe = (cc, cc, cc, omega arith); no_nul = refl }

longer : (s t : Text) → length s < length t → t ≢ s
longer s t h e = absurd (omega (arith, ap length e))

-- Every id names a file, however it is spelled.
pub id-IsFileName : (id : Text) → IsId id → IsFileName (id ++ json_suffix)
unfolding text
id-IsFileName id h = record {
  safe = (
    longer [] _ (omega (arith, length-append id json_suffix)),
    longer dot _ (omega (arith, length-append id json_suffix)),
    longer dot_dot _ (omega (arith, length-append id json_suffix)),
    NoSlash-append id json_suffix h.no_slash json_suffix-IsFileName.safe.3,
  );
  no_nul = contains_byte-append id json_suffix 0 h.no_nul json_suffix-IsFileName.no_nul;
}

ok_injective : {s t : Text} → ok s ≡ ok t → s ≡ t
ok_injective h = cc

parts_differ :
    (dir dir' file file' : Text)
    → (dir ≢ dir') ⊎ (file ≢ file')
    → dir ∷ file ∷ [] ≢ dir' ∷ file' ∷ []
parts_differ dir dir' file file' (inl d) e = d (cc)
parts_differ dir dir' file file' (inr d) e = d (cc)

module _ (root : Text) where
  -- The file is `<root>/<dir>/<file>`.
  pub sanitize_file :
      (dir file : Text)
      → IsFileName dir
      → IsFileName file
      → sanitize root (join_paths (dir ∷ file ∷ [])) ≡ ok (below root (dir ∷ file ∷ []))
  unfolding contains_byte
  sanitize_file dir file h k =
      let clean_name = join_paths_file dir file h.safe k.safe in
      let no_nul : contains_byte (join_paths (dir ∷ file ∷ [])) 0 ≡ false =
        rw clean_name (contains_byte-append dir (b'/' ∷ file) 0 h.no_nul k.no_nul) in
      rw (elements_two dir file h.safe k.safe) at
        ((sanitize_contained root (join_paths (dir ∷ file ∷ [])) no_nul).0)

  -- Distinct files have distinct paths.
  pub sanitize_distinct :
      (dir dir' file file' : Text)
      → IsFileName dir
      → IsFileName dir'
      → IsFileName file
      → IsFileName file'
      → (dir ≢ dir') ⊎ (file ≢ file')
      → sanitize root (join_paths (dir ∷ file ∷ []))
        ≢ sanitize root (join_paths (dir' ∷ file' ∷ []))
  sanitize_distinct dir dir' file file' h h' k k' d e =
      let paths : below root (dir ∷ file ∷ []) ≡ below root (dir' ∷ file' ∷ []) =
        ok_injective (sym (sanitize_file dir file h k) ∙ e ∙ sanitize_file dir' file' h' k') in
      let same =
        render-append_injective (is_rooted (root_of root)) (elements (root_of root)) dir dir'
          (file ∷ []) (file' ∷ []) (elements-NoSlash (root_of root)) (h.safe.3, (k.safe.3, tt))
          (h'.safe.3, (k'.safe.3, tt)) paths in
      parts_differ dir dir' file file' d same
