-- ===== src/Control/Hex.antt =====
-- Bytes that are written in hexadecimal digits are read back.
use lifi_auth.Common.{
  ℕ, zero, suc, ◌+◌, ◌/◌, ◌%◌, ◌<◌, ◌≡◌, refl, ap, arith, Bool, true, false, Option, some, none,
}
use lifi_auth.Common.{
  List, [], ◌∷◌, ◌++◌, length, ◌==◌, ==_iff, ◌||◌, if◌then◌else◌, All, IsByte, u8,
}
use lifi_auth.Common.{Bool-cases, inl, inr}
use lifi_auth.Commands.Strtoul.{
  strtoul16, skip_spaces, is_space, digits_from, hex_value, starts_digit, skip_prefix,
}
use lifi_auth.Control.Text.{skip_chars, take_until, scan_02x, decode_hex, hex_of, hex_digit}

-- Reading back the two digits of a byte gives the byte.
abbrev reads_back : ℕ → Bool
reads_back b = elim (scan_02x (hex_digit (b / 16) ∷ hex_digit (b % 16) ∷ [])) [
  | some v ↦ v == b
  | none ↦ false
]

table : ℕ → Bool
table zero = true
table (suc n) = if reads_back n then table n else false

table-entry : (b n : ℕ) → b < n → table n ≡ true → reads_back b ≡ true
unfolding table
table-entry b zero below all = absurd (omega arith)
table-entry b (suc n) below all = elim (Bool-cases (b == n)) [
  | inl top ↦ rw ((==_iff b n).0 top) (ground (arith, all))
  | inr lower ↦ table-entry b n (ground (arith, lower)) (ground (arith, all))
]

whole_table : table 256 ≡ true
unfolding table scan_02x strtoul16 skip_spaces digits_from hex_value starts_digit skip_prefix
whole_table = refl

reads_back_some :
    (o : Option ℕ) (b : ℕ) → (elim o [ some v ↦ v == b | none ↦ false ]) ≡ true → o ≡ some b
reads_back_some none b h = cc
reads_back_some (some v) b h = ap some ((==_iff v b).0 h)

hex_digit-space : (v : ℕ) → v < 16 → is_space (hex_digit v) ≡ false
hex_digit-space v h = ground arith

scan_02x-hex :
    (b : ℕ) (rest : List ℕ)
    → b < 256
    → scan_02x (hex_digit (b / 16) ∷ hex_digit (b % 16) ∷ rest) ≡ some b
unfolding scan_02x skip_spaces
scan_02x-hex b rest h =
    let high : is_space (hex_digit (b / 16)) ≡ false = hex_digit-space (b / 16) (omega arith) in
    let alone : scan_02x (hex_digit (b / 16) ∷ hex_digit (b % 16) ∷ []) ≡ some b =
      reads_back_some _ b (table-entry b 256 h whole_table) in
    rw (high, scan_02x, skip_spaces) (rw (high, scan_02x, skip_spaces) at alone)

pub decode_hex-hex_of :
    (bs rest : List ℕ) → All IsByte bs → decode_hex (length bs) (hex_of bs ++ rest) ≡ some bs
unfolding decode_hex hex_of
decode_hex-hex_of [] rest h = refl
decode_hex-hex_of (b ∷ bs) rest h =
    let same : u8 b ≡ b = omega (arith, h.0) in
    rw (scan_02x-hex b (hex_of bs ++ rest) h.0, decode_hex-hex_of bs rest h.1, same, decode_hex)
      refl

pub length-hex_of : (bs : List ℕ) → length (hex_of bs) ≡ length bs + length bs
unfolding hex_of
length-hex_of [] = refl
length-hex_of (b ∷ bs) = omega (arith, length-hex_of bs)

hex_digit-quote : (v : ℕ) → v < 16 → (hex_digit v == b'"') ≡ false
hex_digit-quote v h = ground arith

abbrev pub is_quote : ℕ → Bool
is_quote c = c == b'"'

abbrev pub is_opening : ℕ → Bool
is_opening c = (c == b' ') || (c == b'"')

hex_digit-opening : (v : ℕ) → v < 16 → is_opening (hex_digit v) ≡ false
hex_digit-opening v h = ground arith

pub take_until-hex :
    (bs rest : List ℕ)
    → All IsByte bs
    → take_until (length (hex_of bs)) is_quote (hex_of bs ++ rest) ≡ hex_of bs
unfolding take_until hex_of
take_until-hex [] rest h = refl
take_until-hex (b ∷ bs) rest h =
    rw
      (
        hex_digit-quote (b / 16) (omega (arith, h.0)),
        hex_digit-quote (b % 16) (omega arith),
        take_until-hex bs rest h.1,
        take_until,
      )
      refl

pub skip_chars-hex :
    (bs rest : List ℕ)
    → All IsByte bs
    → 0 < length bs
    → skip_chars is_opening (hex_of bs ++ rest) ≡ hex_of bs ++ rest
unfolding skip_chars hex_of
skip_chars-hex [] rest h some_left = absurd (omega arith)
skip_chars-hex (b ∷ bs) rest h some_left =
    rw (hex_digit-opening (b / 16) (omega (arith, h.0)), skip_chars) refl
