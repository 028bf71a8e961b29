-- ===== src/Storage/FileStore/Stems.antt =====
-- Where bootcfg/storage/filestore.go finds the files of a directory, and the ids that it reads off
-- their names.
use mathlib.Core.List.{append_assoc}
use coreos_baremetal.Prelude.{
  ℕ, ◌≡◌, ◌≢◌, sym, ap, ◌∙◌, refl, Bool, true, false, List, [], ◌∷◌, ◌++◌, length, length-append,
  arith, Bool-cases, inl, inr,
}
use coreos_baremetal.Prelude.Text.{Text, text, join, ◌==◌, ==_iff, ==_refl, contains_byte}
use coreos_baremetal.Golang.FilePath.{render, ext, trim_suffix, elements, is_rooted}
use coreos_baremetal.Storage.Dir.{root_of}
use coreos_baremetal.Storage.Dir.Contained.{below}
use coreos_baremetal.Storage.FileStore.{stem, json_suffix}

regroup : (x sep j f : Text) → x ++ (sep ++ (j ++ (sep ++ f))) ≡ x ++ (sep ++ j) ++ (sep ++ f)
regroup x sep j f =
    sym (append_assoc x (sep ++ j) (sep ++ f) ∙ ap (λ t. x ++ t) (append_assoc sep j (sep ++ f)))

join-snoc :
    (es : List Text) (g f sep : Text)
    → join (es ++ (g ∷ f ∷ [])) sep ≡ join (es ++ (g ∷ [])) sep ++ (sep ++ f)
unfolding join
join-snoc [] g f sep = refl
join-snoc (x ∷ []) g f sep = regroup x sep g f
join-snoc (x ∷ y ∷ es) g f sep =
    ap (λ t. x ++ (sep ++ t)) (join-snoc (y ∷ es) g f sep)
    ∙ regroup x sep (join (y ∷ (es ++ (g ∷ []))) sep) f

render-snoc :
    (rooted : Bool) (es : List Text) (g f : Text)
    → render rooted (es ++ (g ∷ f ∷ [])) ≡ render rooted (es ++ (g ∷ [])) ++ (b'/' ∷ f)
unfolding render
render-snoc true es g f = ap (λ t. b'/' ∷ t) (join-snoc es g f (b'/' ∷ []))
render-snoc false [] g f = join-snoc [] g f (b'/' ∷ [])
render-snoc false (e ∷ es) g f = join-snoc (e ∷ es) g f (b'/' ∷ [])

-- A file of a directory below the root.
pub below-snoc :
    (root dir file : Text) → below root (dir ∷ file ∷ []) ≡ below root (dir ∷ []) ++ (b'/' ∷ file)
below-snoc root dir file = render-snoc (is_rooted (root_of root)) (elements (root_of root)) dir file

ext-json_suffix : (id : Text) → ext (id ++ json_suffix) ≡ json_suffix
unfolding ext text contains_byte ◌==◌
ext-json_suffix [] = refl
ext-json_suffix (c ∷ id) = rw (ext, ext-json_suffix id) refl

longer_differs : (c : ℕ) (id t : Text) → ((c ∷ (id ++ t)) == t) ≡ false
longer_differs c id t = elim (Bool-cases ((c ∷ (id ++ t)) == t)) [
  | inr e ↦ e
  | inl e ↦ absurd (omega (arith, ap length ((==_iff (c ∷ (id ++ t)) t).0 e), length-append id t))
]

trim_suffix-append : (id t : Text) → t ≢ [] → trim_suffix (id ++ t) t ≡ id
unfolding trim_suffix
trim_suffix-append [] [] h = absurd (h refl)
trim_suffix-append [] (c ∷ t) h = rw (==_refl (c ∷ t)) refl
trim_suffix-append (c ∷ id) t h =
    rw (longer_differs c id t) (ap (λ s. c ∷ s) (trim_suffix-append id t h))

-- `strings.TrimSuffix` of the extension gives back the id that the name was made of.
pub stem-json : (id : Text) → stem (id ++ json_suffix) ≡ id
unfolding text
stem-json id =
    ap (trim_suffix (id ++ json_suffix)) (ext-json_suffix id)
    ∙ trim_suffix-append id json_suffix (cc)
