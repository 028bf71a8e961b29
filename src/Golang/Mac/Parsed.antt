-- ===== src/Golang/Mac/Parsed.antt =====
-- Addresses that parsed, printed and parsed again.
use coreos_baremetal.Prelude.{
  ℕ, ◌+◌, ◌*◌, ◌≡◌, inl, inr, refl, Option, none, some, List, [], ◌∷◌, arith, length, All, eqb,
  Bool-cases,
}
use coreos_baremetal.Prelude.Text.{Text}
use coreos_baremetal.Golang.Mac.{
  ◌>>=◌, read_pairs, hex_pair, parse_by_separator, parse_mac, read_quads, mac_string,
}
use coreos_baremetal.Golang.Mac.Digits.{hex_pair-lt}
use coreos_baremetal.Golang.Mac.Roundtrip.{IsByte, IsAddress, parse_mac-mac_string}

>>=-eq-some :
    {A B : Type 0} (m : Option A) (f : A → Option B) (b : B)
    → (m >>= f) ≡ some b
    → (a : A) × (m ≡ some a) × (f a ≡ some b)
>>=-eq-some none f b h = cc
>>=-eq-some (some a) f b h = (a, refl, h)

-- The bytes of a loop over the text `s`, whose groups take `m` characters for `k` bytes.
record Read (k m : ℕ) (s : Text) (hw : List ℕ) : Type 0 where
  measured : k * (length s + 1) ≡ m * length hw
  are_bytes : All IsByte hw

module _ (sep : ℕ) where
  read_pairs-Read : (s : Text) (hw : List ℕ) → read_pairs sep s ≡ some hw → Read 1 3 s hw
  unfolding read_pairs
  read_pairs-Read [] hw h = cc
  read_pairs-Read (a ∷ []) hw h = cc
  read_pairs-Read (a ∷ b ∷ []) hw h =
      let (x, p, e) = >>=-eq-some (hex_pair a b) _ hw h in ground (arith, hex_pair-lt a b p)
  read_pairs-Read (a ∷ b ∷ c ∷ s) hw h = elim (Bool-cases (eqb c sep)) [
    | inr e ↦ cc (rw (e, read_pairs) at h)
    | inl e ↦
        let h' = rw (e, read_pairs) at h in
        let (x, p, r) = >>=-eq-some (hex_pair a b) _ hw h' in
        let (xs, q, t) = >>=-eq-some (read_pairs sep s) _ hw r in
        let ih = read_pairs-Read s xs q in ground (arith, hex_pair-lt a b p)
  ]

read_quads-Read : (s : Text) (hw : List ℕ) → read_quads s ≡ some hw → Read 2 5 s hw
unfolding read_quads
read_quads-Read [] hw h = cc
read_quads-Read (a ∷ []) hw h = cc
read_quads-Read (a ∷ b ∷ []) hw h = cc
read_quads-Read (a ∷ b ∷ c ∷ []) hw h = cc
read_quads-Read (a ∷ b ∷ c ∷ d ∷ []) hw h =
    let (x, p, r) = >>=-eq-some (hex_pair a b) _ hw h in
    let (y, q, t) = >>=-eq-some (hex_pair c d) _ hw r in
    ground (arith, hex_pair-lt a b p, hex_pair-lt c d q)
read_quads-Read (a ∷ b ∷ c ∷ d ∷ e ∷ s) hw h = elim (Bool-cases (eqb e b'.')) [
  | inr n ↦ cc (rw (n, read_quads) at h)
  | inl n ↦
      let h' = rw (n, read_quads) at h in
      let (x, p, r) = >>=-eq-some (hex_pair a b) _ hw h' in
      let (y, q, t) = >>=-eq-some (hex_pair c d) _ hw r in
      let (xs, u, v) = >>=-eq-some (read_quads s) _ hw t in
      let ih = read_quads-Read s xs u in ground (arith, hex_pair-lt a b p, hex_pair-lt c d q)
]

parse_by_separator-IsAddress :
    (s : Text) (hw : List ℕ) → parse_by_separator s ≡ some hw → IsAddress hw
unfolding parse_by_separator
parse_by_separator-IsAddress (a ∷ b ∷ c ∷ d ∷ e ∷ s) hw h =
    let whole = a ∷ b ∷ c ∷ d ∷ e ∷ s in
    ground (arith, read_pairs-Read c whole hw, read_quads-Read whole hw)
parse_by_separator-IsAddress _ hw h = cc

pub parse_mac-IsAddress : (s : Text) (hw : List ℕ) → parse_mac s ≡ some hw → IsAddress hw
unfolding parse_mac
parse_mac-IsAddress s hw h = ground (arith, parse_by_separator-IsAddress s hw)

-- The printed form of whatever parses is a fixed point of parsing and printing.
pub parse_mac-normal :
    (s : Text) (hw : List ℕ) → parse_mac s ≡ some hw → parse_mac (mac_string hw) ≡ some hw
parse_mac-normal s hw h = parse_mac-mac_string hw (parse_mac-IsAddress s hw h)
