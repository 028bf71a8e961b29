-- ===== src/Golang/Mac.antt =====
-- `net.ParseMAC` and `HardwareAddr.String`. A hardware address is its list of bytes.
pub mod Digits
pub mod Roundtrip
pub mod Parsed
use mathlib.Core.Option
use coreos_baremetal.Prelude.{
  ℕ, ◌+◌, ◌-◌, ◌*◌, ◌/◌, ◌%◌, Bool, ◌&&◌, ◌||◌, Option, none, some, List, [], ◌∷◌, ltb, leb, eqb,
  if◌then◌else◌, length, ◌++◌,
}
use coreos_baremetal.Prelude.Text.{Text, ◌==◌, text}

infixl 5 ◌>>=◌
abbrev pub ◌>>=◌ : {A B : Type 0} → Option A → (A → Option B) → Option B
none >>= k = none
some a >>= k = k a

unfoldable pub hex_value : ℕ → Option ℕ
hex_value c =
    if leb b'0' c && leb c b'9'
    then some (c - b'0')
    else if leb b'a' c && leb c b'f'
    then some (c - b'a' + 10)
    else if leb b'A' c && leb c b'F'
    then some (c - b'A' + 10)
    else none

-- `xtoi2`: one byte from two hexadecimal digits.
unfoldable pub hex_pair : ℕ → ℕ → Option ℕ
hex_pair a b = do x ← hex_value a; y ← hex_value b; some (x * 16 + y)

-- The loop over `xx:xx:…`, with its separator.
unfoldable pub read_pairs : ℕ → Text → Option (List ℕ)
read_pairs sep (a ∷ b ∷ []) = do x ← hex_pair a b; some (x ∷ [])
read_pairs sep (a ∷ b ∷ c ∷ s) =
    let rest = read_pairs sep s in
    if eqb c sep then (do x ← hex_pair a b; xs ← rest; some (x ∷ xs)) else none
read_pairs sep _ = none

-- The loop over `xxxx.xxxx.…`.
unfoldable pub read_quads : Text → Option (List ℕ)
read_quads (a ∷ b ∷ c ∷ d ∷ []) = do x ← hex_pair a b; y ← hex_pair c d; some (x ∷ y ∷ [])
read_quads (a ∷ b ∷ c ∷ d ∷ e ∷ s) =
    let rest = read_quads s in
    if eqb e b'.'
    then (do x ← hex_pair a b; y ← hex_pair c d; xs ← rest; some (x ∷ y ∷ xs))
    else none
read_quads _ = none

abbrev pub is_mac_length : ℕ → Bool
is_mac_length n = eqb n 6 || (eqb n 8 || eqb n 20)

-- The branches on the separator; the text has at least 14 bytes.
unfoldable pub parse_by_separator : Text → Option (List ℕ)
parse_by_separator (a ∷ b ∷ sep ∷ d ∷ dot ∷ s) =
    let whole = a ∷ b ∷ sep ∷ d ∷ dot ∷ s in
    let len = length whole in
    if eqb sep b':' || eqb sep b'-'
    then (if eqb ((len + 1) % 3) 0 && is_mac_length ((len + 1) / 3)
        then read_pairs sep whole
        else none)
    else if eqb dot b'.'
    then (if eqb ((len + 1) % 5) 0 && is_mac_length (2 * (len + 1) / 5)
        then read_quads whole
        else none)
    else none
parse_by_separator _ = none

-- `net.ParseMAC`
unfoldable pub parse_mac : Text → Option (List ℕ)
parse_mac s = if ltb (length s) 14 then none else parse_by_separator s

unfoldable pub hex_digit : ℕ → ℕ
hex_digit n = if ltb n 10 then n + b'0' else n - 10 + b'a'

-- `HardwareAddr.String`
unfoldable pub mac_string : List ℕ → Text
mac_string [] = []
mac_string (b ∷ []) = hex_digit (b / 16) ∷ hex_digit (b % 16) ∷ []
mac_string (b ∷ c ∷ hw) = hex_digit (b / 16) ∷ hex_digit (b % 16) ∷ b':' ∷ mac_string (c ∷ hw)

-- The message of the `AddrError` that `net.ParseMAC` returns.
abbrev pub invalid_address : Text → Text
invalid_address s =
    if s == []
    then text "invalid MAC address"
    else text "address " ++ (s ++ text ": invalid MAC address")
