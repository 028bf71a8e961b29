-- ===== src/Golang/Mac/Roundtrip.antt =====
-- Parsing after printing.
use coreos_baremetal.Prelude.{
  ◌∙◌, ◌⊎◌, inl, inr, ℕ, ◌+◌, ◌*◌, ◌<◌, ◌≡◌, true, some, List, [], ◌∷◌, arith, length, All,
}
use coreos_baremetal.Golang.Mac.{
  parse_mac, parse_by_separator, read_pairs, mac_string, is_mac_length,
}
use coreos_baremetal.Prelude.Text.{Text}
use coreos_baremetal.Golang.Mac.Digits.{hex_pair-hex_digit}

abbrev pub IsByte : ℕ → Type 0
IsByte b = b < 256

-- A hardware address: 6, 8 or 20 bytes.
pub record IsAddress (hw : List ℕ) : Type 0 where
  pub is_length : is_mac_length (length hw) ≡ true
  pub are_bytes : All IsByte hw

length-mac_string : (b : ℕ) (hw : List ℕ) → length (mac_string (b ∷ hw)) + 1 ≡ 3 * length (b ∷ hw)
unfolding mac_string
length-mac_string b [] = omega arith
length-mac_string b (c ∷ hw) = omega (arith, length-mac_string c hw)

read_pairs-mac_string :
    (b : ℕ) (hw : List ℕ)
    → All IsByte (b ∷ hw)
    → read_pairs b':' (mac_string (b ∷ hw)) ≡ some (b ∷ hw)
unfolding read_pairs mac_string
read_pairs-mac_string b [] (p, _) = rw (hex_pair-hex_digit b p)
read_pairs-mac_string b (c ∷ hw) (p, h) = rw (hex_pair-hex_digit b p, read_pairs-mac_string c hw h)

is_mac_length_cases : (n : ℕ) → is_mac_length n ≡ true → (n ≡ 6) ⊎ ((n ≡ 8) ⊎ (n ≡ 20))
is_mac_length_cases n h = ground arith

-- With separator `:` and a length that fits, the pairs are read.
parse_mac_colons :
    (a b d e : ℕ) (s : Text) (n : ℕ)
    → length s + 6 ≡ 3 * n
    → is_mac_length n ≡ true
    → parse_mac (a ∷ b ∷ b':' ∷ d ∷ e ∷ s) ≡ read_pairs b':' (a ∷ b ∷ b':' ∷ d ∷ e ∷ s)
unfolding parse_mac parse_by_separator
parse_mac_colons a b d e s n h k = elim (is_mac_length_cases n k) [
  | inl p ↦ ground arith
  | inr (inl p) ↦ ground arith
  | inr (inr p) ↦ ground arith
]

parse_mac_long :
    (b c d : ℕ) (hw : List ℕ)
    → is_mac_length (length (b ∷ c ∷ d ∷ hw)) ≡ true
    → parse_mac (mac_string (b ∷ c ∷ d ∷ hw)) ≡ read_pairs b':' (mac_string (b ∷ c ∷ d ∷ hw))
unfolding mac_string
parse_mac_long b c d hw h =
    parse_mac_colons _ _ _ _ (b':' ∷ mac_string (d ∷ hw)) (length (b ∷ c ∷ d ∷ hw))
      (omega (arith, length-mac_string d hw)) h

-- An address, printed and parsed, is the same address.
pub parse_mac-mac_string : (hw : List ℕ) → IsAddress hw → parse_mac (mac_string hw) ≡ some hw
parse_mac-mac_string [] a = cc a.is_length
parse_mac-mac_string (b ∷ []) a = cc a.is_length
parse_mac-mac_string (b ∷ c ∷ []) a = cc a.is_length
parse_mac-mac_string (b ∷ c ∷ d ∷ hw) a =
    parse_mac_long b c d hw a.is_length ∙ read_pairs-mac_string b (c ∷ d ∷ hw) a.are_bytes
