-- ===== src/Storage/Dir/Contained.antt =====
-- `Dir.sanitize` of bootcfg/storage/fs.go, and the paths below its directory.
use coreos_baremetal.Prelude.{◌≡◌, ◌≢◌, ◌↔◌, true, false, List, [], ◌∷◌, ◌++◌, arith, All}
use coreos_baremetal.Prelude.Text.{Text, ==_iff, contains_byte}
use coreos_baremetal.Golang.Errors.{invalid_file_path_character, ok, err}
use coreos_baremetal.Golang.FilePath.{is_rooted, render, elements}
use coreos_baremetal.Golang.FilePath.Resolve.{IsSafe, elements-IsSafe}
use coreos_baremetal.Golang.FilePath.Below.{join_paths-clean, rooted_slash}
use coreos_baremetal.Storage.Dir.{root_of, sanitize}

-- The path of the elements `es` below the directory `d`.
abbrev pub below : Text → List Text → Text
below d es = render (is_rooted (root_of d)) (elements (root_of d) ++ es)

pub root_of-ne-nil : (d : Text) → root_of d ≢ []
root_of-ne-nil d = ground (arith, ==_iff d [])

-- A name without a NUL byte is accepted, whatever it holds: its path is the directory's own
-- elements and then the name's, none of which is empty, `.`, `..` or has a slash.
pub sanitize_contained :
    (d name : Text)
    → contains_byte name 0 ≡ false
    → (sanitize d name ≡ ok (below d (elements (b'/' ∷ name))))
      × All IsSafe (elements (b'/' ∷ name))
unfolding sanitize
sanitize_contained d name h = (
  rw (h, join_paths-clean (root_of d) name (root_of-ne-nil d)),
  elements-IsSafe (b'/' ∷ name) (rooted_slash name),
)

-- A name with a NUL byte is refused, and no other.
pub sanitize_refused :
    (d name : Text)
    → (sanitize d name ≡ err invalid_file_path_character) ↔ (contains_byte name 0 ≡ true)
unfolding sanitize
sanitize_refused d name = ground arith
