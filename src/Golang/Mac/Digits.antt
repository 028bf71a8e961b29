-- ===== src/Golang/Mac/Digits.antt =====
-- Hexadecimal digits read and written.
use coreos_baremetal.Prelude.{inl, inr, Option-cases, ℕ, ◌/◌, ◌%◌, ◌<◌, ◌≡◌, some, arith}
use coreos_baremetal.Golang.Mac.{hex_value, hex_pair, hex_digit}

hex_value-hex_digit : (n : ℕ) → n < 16 → hex_value (hex_digit n) ≡ some n
unfolding hex_value hex_digit
hex_value-hex_digit n h = ground arith

pub hex_pair-hex_digit :
    (b : ℕ) → b < 256 → hex_pair (hex_digit (b / 16)) (hex_digit (b % 16)) ≡ some b
unfolding hex_pair
hex_pair-hex_digit b h =
    rw (hex_value-hex_digit (b / 16) (omega arith), hex_value-hex_digit (b % 16) (omega arith))
      (ground arith)

hex_value-lt : (c n : ℕ) → hex_value c ≡ some n → n < 16
unfolding hex_value
hex_value-lt c n h = ground arith

pub hex_pair-lt : (a b : ℕ) {n : ℕ} → hex_pair a b ≡ some n → n < 256
unfolding hex_pair
hex_pair-lt a b h = elim (Option-cases (hex_value a)) [
  | inl e ↦ absurd (ground arith)
  | inr (x, e) ↦ elim (Option-cases (hex_value b)) [
    | inl k ↦ absurd (ground arith)
    | inr (y, k) ↦ ground (arith, hex_value-lt a x e, hex_value-lt b y k)
  ]
]
