-- ===== src/Http/Boot/Read.antt =====
-- The iPXE script of bootcfg/http/ipxe.go, as an iPXE client reads it: lines of words.
use mathlib.Core.List.Perm
use coreos_baremetal.Prelude.{
  ℕ, ◌≡◌, ◌≢◌, false, Option, none, some, List, [], ◌∷◌, map, eqb, if◌then◌else◌, ◌&&◌,
}
use coreos_baremetal.Prelude.Text.{Text, text, ◌==◌, contains_byte}
use coreos_baremetal.Golang.Dict.{Dict}

abbrev first_to : ℕ → List Text → List Text
first_to c [] = (c ∷ []) ∷ []
first_to c (w ∷ ws) = (c ∷ w) ∷ ws

-- The parts of a text between bytes `c`.
unfoldable pub split_at : ℕ → Text → List Text
split_at c [] = [] ∷ []
split_at c (d ∷ s) = let rest = split_at c s in if eqb d c then [] ∷ rest else first_to d rest

abbrev drop_empty : List Text → List Text
drop_empty [] = []
drop_empty ([] ∷ ws) = drop_empty ws
drop_empty ((c ∷ w) ∷ ws) = (c ∷ w) ∷ drop_empty ws

unfoldable pub words : Text → List Text
words s = drop_empty (split_at 32 s)

-- The key and the value of an argument; one without `=` has no value.
unfoldable pub cut : Text → Text × Text
cut [] = ([], [])
cut (c ∷ s) = let (key, value) = cut s in if eqb c b'=' then ([], s) else (c ∷ key, value)

-- What a script boots: the kernel, its arguments and the initial file systems.
abbrev pub Booted : Type 0
Booted = Text × List (Text × Text) × List Text

abbrev booted : List Text → List Text → Option Booted
booted (cmd ∷ kernel ∷ args) (cmd' ∷ initrds) =
    if cmd == text "kernel" && cmd' == text "initrd"
    then some (kernel, map cut args, initrds)
    else none
booted _ _ = none

abbrev booted_by : List Text → Option Booted
booted_by (magic ∷ kernel ∷ initrd ∷ boot ∷ [] ∷ []) =
    if magic == text "#!ipxe" && boot == text "boot"
    then booted (words kernel) (words initrd)
    else none
booted_by _ = none

unfoldable pub read_ipxe : Text → Option Booted
read_ipxe script = booted_by (split_at 10 script)

-- A text without the bytes that stand between words and lines.
abbrev pub IsPart : Text → Type 0
IsPart s = (contains_byte s 32 ≡ false) × (contains_byte s 10 ≡ false)

abbrev pub IsWord : Text → Type 0
IsWord s = (s ≢ []) × IsPart s

-- A key of the kernel's arguments also has no `=`.
abbrev pub IsKey : Text → Type 0
IsKey s = IsWord s × (contains_byte s b'=' ≡ false)
