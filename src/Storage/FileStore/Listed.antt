-- ===== src/Storage/FileStore/Listed.antt =====
-- `GroupList` of bootcfg/storage/filestore.go after a put.
use mathlib.Core.List.{Mem}
use coreos_baremetal.Prelude.{
  ℕ, Bool, ◌≡◌, ◌≢◌, ap, ◌∙◌, refl, true, false, Option, none, some, List, [], ◌∷◌, ◌++◌,
}
use coreos_baremetal.Prelude.Text.{Text, text, join, ◌==◌}
use coreos_baremetal.Golang.Errors.{Error, Result, ok, err, ◌>>=◌}
use coreos_baremetal.Golang.FilePath.{
  join_paths, render, is_rooted, elements, split_slash, resolve, push,
}
use coreos_baremetal.Golang.FileSystem.{FileSystem, IsLawful, ListsFiles}
use coreos_baremetal.Storagepb.Json.{Group, Json}
use coreos_baremetal.Storagepb.Group.{to_rich_group}
use coreos_baremetal.Storage.Dir.{
  sanitize, read_dir, write_file, write_below, default_file_mode, root_of,
}
use coreos_baremetal.Storage.Dir.Contained.{below, sanitize_contained}
use coreos_baremetal.Storage.Dir.Files.{write_file_of_ok}
use coreos_baremetal.Storage.FileStore.{
  groups_dir, json_suffix, put_encoded, group_put, group_get, group_list,
}
use coreos_baremetal.Storage.FileStore.Paths.{
  IsId, IsFileName, id-IsFileName, groups_dir-IsFileName, sanitize_file,
}
use coreos_baremetal.Storage.FileStore.Stems.{below-snoc, stem-json}
use coreos_baremetal.Storage.FileStore.Listing.{group_list-Lists}

elements_groups : elements (b'/' ∷ groups_dir) ≡ groups_dir ∷ []
unfolding text is_rooted split_slash resolve push ◌==◌
elements_groups = refl

sanitize_groups : (root : Text) → sanitize root groups_dir ≡ ok (below root (groups_dir ∷ []))
sanitize_groups root =
    (sanitize_contained root groups_dir groups_dir-IsFileName.no_nul).0
    ∙ ap (λ es. ok (below root es)) elements_groups

append-cons_ne : (s t : Text) (c : ℕ) → s ++ (c ∷ t) ≢ []
append-cons_ne [] t c e = absurd (cc)
append-cons_ne (d ∷ s) t c e = absurd (cc)

render_ne_nil :
    (rooted : Bool) (es : List Text) (dir : Text) → dir ≢ [] → render rooted (es ++ (dir ∷ [])) ≢ []
unfolding render join
render_ne_nil true es dir h = λ e. absurd (cc)
render_ne_nil false [] dir h = h
render_ne_nil false (x ∷ []) dir h = append-cons_ne x dir b'/'
render_ne_nil false (x ∷ y ∷ es) dir h = append-cons_ne x _ b'/'

below_groups_ne_nil : (root : Text) → below root (groups_dir ∷ []) ≢ []
below_groups_ne_nil root =
    render_ne_nil (is_rooted (root_of root)) (elements (root_of root)) groups_dir
      groups_dir-IsFileName.safe.0

module _ (F : FileSystem) (L : IsLawful F) (D : ListsFiles F) (json : Json) (root : Text) where
  read_dir_of_groups :
      (s : F.State) → read_dir F root s groups_dir ≡ F.read_dir s (below root (groups_dir ∷ []))
  unfolding read_dir
  read_dir_of_groups s = rw (sanitize_groups root) refl

  write_below-lists :
      (d file data' : Text) (m : F.State × Option Error)
      → d ≢ []
      → IsFileName file
      → (write_below F root (d ++ (b'/' ∷ file)) data' m).1 ≡ none
      → (files : List Text) × (F.read_dir (write_below F root (d ++ (b'/' ∷ file)) data' m).0 d
          ≡ ok files)
        × Mem file files
  write_below-lists d file data' (s, some e) n h k = absurd (cc)
  write_below-lists d file data' (s, none) n h k =
      D.read_dir-write s d file data' default_file_mode n h.safe k

  -- The directory of a file that was written lists it.
  read_dir-write_file :
      (s : F.State) (file data' : Text)
      → IsFileName file
      → (write_file F root s (join_paths (groups_dir ∷ file ∷ [])) data').1 ≡ none
      → (files : List Text) × (read_dir F root
            (write_file F root s (join_paths (groups_dir ∷ file ∷ [])) data').0
            groups_dir
          ≡ ok files)
        × Mem file files
  read_dir-write_file s file data' h e =
      let path = sanitize_file root groups_dir file groups_dir-IsFileName h in
      let w =
        write_file_of_ok F L root s (join_paths (groups_dir ∷ file ∷ [])) data'
          (below root (groups_dir ∷ file ∷ [])) path in
      rw (w, below-snoc root groups_dir file, read_dir_of_groups)
        (write_below-lists (below root (groups_dir ∷ [])) file data' _ (below_groups_ne_nil root) h
          (rw (w, below-snoc root groups_dir file) at e))

  put_encoded-lists :
      (s : F.State) (file : Text) (r : Result Text)
      → IsFileName file
      → (put_encoded F json root s (join_paths (groups_dir ∷ file ∷ [])) r).1 ≡ none
      → (files : List Text) × (read_dir F root
            (put_encoded F json root s (join_paths (groups_dir ∷ file ∷ [])) r).0
            groups_dir
          ≡ ok files)
        × Mem file files
  put_encoded-lists s file (err e) h k = absurd (cc)
  put_encoded-lists s file (ok data') h k = read_dir-write_file s file data' h k

  -- Over a file system whose directories list their files, a group whose id has no slash and no NUL
  -- byte, and that was put without an error and can be read, is in the list of groups.
  pub group_list-group_put :
      (s : F.State) (g found : Group)
      → IsId g.id
      → (group_put F json root s g).1 ≡ none
      → group_get F json root (group_put F json root s g).0 g.id ≡ ok found
      → (groups : List Group) × (group_list F json root (group_put F json root s g).0 ≡ ok groups)
        × Mem found groups
  unfolding group_put
  group_list-group_put s g found h k e =
      let (files, read, member) =
        put_encoded-lists s (g.id ++ json_suffix) (to_rich_group json g >>= json.marshal_group)
          (id-IsFileName g.id h) k in
      let (groups, list, lists) =
        group_list-Lists F json root (group_put F json root s g).0 files read in
      (
        groups,
        list,
        lists.complete found (g.id ++ json_suffix) member
            (ap (group_get F json root (group_put F json root s g).0) (stem-json g.id) ∙ e),
      )
