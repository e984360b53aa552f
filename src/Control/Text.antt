-- ===== src/Control/Text.antt =====
-- The functions of the C library by which the server reads and writes text. Texts have no final
-- NUL.
use lifi_auth.Common.{ℕ, zero, suc, ◌+◌, ◌-◌, ◌*◌, ◌/◌, ◌%◌, ◌^◌, Bool, ◌&&◌, ◌||◌}
use lifi_auth.Common.{Option, some, none, List, [], ◌∷◌, length, take, drop, get_or, min}
use lifi_auth.Common.{◌==◌, ltb, leb, if◌then◌else◌, u8}
use lifi_auth.Commands.Strtoul.{strtoul16, skip_spaces, is_space}

unfoldable pub strip_prefix : List ℕ → List ℕ → Option (List ℕ)
strip_prefix [] text = some text
strip_prefix (c ∷ cs) [] = none
strip_prefix (c ∷ cs) (t ∷ ts) = let rest = strip_prefix cs ts in if c == t then rest else none

-- `strstr`, and on behind what was found.
unfoldable pub after : List ℕ → List ℕ → Option (List ℕ)
after pattern [] = strip_prefix pattern []
after pattern (t ∷ ts) = elim (strip_prefix pattern (t ∷ ts)) [
  | some rest ↦ some rest
  | none ↦ after pattern ts
]

-- `strchr`, and on behind the character.
unfoldable pub after_char : ℕ → List ℕ → Option (List ℕ)
after_char c [] = none
after_char c (t ∷ ts) = let rest = after_char c ts in if t == c then some ts else rest

-- On past the characters of a kind.
unfoldable pub skip_chars : (ℕ → Bool) → List ℕ → List ℕ
skip_chars kind [] = []
skip_chars kind (t ∷ ts) = let rest = skip_chars kind ts in if kind t then rest else t ∷ ts

-- At most so many characters, up to one of a kind.
unfoldable pub take_until : ℕ → (ℕ → Bool) → List ℕ → List ℕ
take_until zero kind ts = []
take_until (suc n) kind [] = []
take_until (suc n) kind (t ∷ ts) =
    let rest = take_until n kind ts in if kind t then [] else t ∷ rest

-- What `%s` reads from where there is no white space.
unfoldable pub word : List ℕ → List ℕ
word [] = []
word (t ∷ ts) = let rest = word ts in if is_space t then [] else t ∷ rest

-- `sscanf(s, "%02x", &b) == 1`, and `b`: a number of at most two characters.
unfoldable pub scan_02x : List ℕ → Option ℕ
unfolding skip_spaces
scan_02x s =
    let item = take 2 (skip_spaces s) in
    let (v, rest) = strtoul16 item in if length rest == length item then none else some v

-- So many bytes, from two characters each.
unfoldable pub decode_hex : ℕ → List ℕ → Option (List ℕ)
decode_hex zero s = some []
decode_hex (suc n) s = elim (scan_02x s) [
  | none ↦ none
  | some b ↦ elim (decode_hex n (drop 2 s)) [ none ↦ none | some bs ↦ some (u8 b ∷ bs) ]
]

abbrev pub hex_digit : ℕ → ℕ
hex_digit v = if ltb v 10 then v + b'0' else v - 10 + b'a'

-- `%02x` for each byte.
unfoldable pub hex_of : List ℕ → List ℕ
hex_of [] = []
hex_of (b ∷ bs) = hex_digit (b / 16) ∷ hex_digit (b % 16) ∷ hex_of bs

unfoldable pub digits10 : ℕ → List ℕ → ℕ
digits10 acc [] = acc
digits10 acc (c ∷ cs) =
    let rest = digits10 (acc * 10 + (c - b'0')) cs in if leb b'0' c && leb c b'9' then rest else acc

-- `strtoll(s, NULL, 10)`: whether it is negative, and its amount, which is clamped.
unfoldable pub strtoll10 : List ℕ → Bool × ℕ
unfolding skip_spaces
strtoll10 s =
    let cs = skip_spaces s in
    let negative = get_or cs 0 0 == b'-' in
    let signed = negative || (get_or cs 0 0 == b'+') in
    let amount = digits10 0 (if signed then drop 1 cs else cs) in
    (negative, if negative then min amount (2 ^ 63) else min amount (2 ^ 63 - 1))

-- `%d` of a number of at most ten digits.
unfoldable pub decimal : ℕ → ℕ → List ℕ → List ℕ
decimal zero n digits = digits
decimal (suc left) n digits =
    let more = decimal left (n / 10) ((n % 10 + b'0') ∷ digits) in
    if ltb n 10 then (n + b'0') ∷ digits else more

abbrev pub print_decimal : ℕ → List ℕ
print_decimal n = decimal 10 n []
