-- ===== src/Commands/Strtoul.antt =====
-- The C library's `strtoul(s, &end, 16)` with a 32-bit `unsigned long`, as the two commands with
-- a hexadecimal argument call it.
use lifi_auth.Common.{ℕ, ◌+◌, ◌-◌, ◌*◌, ◌%◌, ◌^◌, Bool, true, false, ◌&&◌, ◌||◌}
use lifi_auth.Common.{
  Option, some, none, List, [], ◌∷◌, ◌==◌, ltb, leb, if◌then◌else◌, get_or, drop,
}

abbrev pub is_space : ℕ → Bool
is_space c = (c == b' ') || (leb 9 c && leb c 13)

unfoldable pub hex_value : ℕ → Option ℕ
hex_value c =
    if leb b'0' c && leb c b'9'
    then some (c - b'0')
    else (if leb b'a' c && leb c b'f'
        then some (c - b'a' + 10)
        else if leb b'A' c && leb c b'F'
        then some (c - b'A' + 10)
        else none)

unfoldable pub skip_spaces : List ℕ → List ℕ
skip_spaces [] = []
skip_spaces (c ∷ cs) = let rest = skip_spaces cs in if is_space c then rest else c ∷ cs

-- The digits, with the value so far; the value and what follows.
unfoldable pub digits_from : ℕ → List ℕ → ℕ × List ℕ
digits_from acc [] = (acc, [])
digits_from acc (c ∷ cs) = elim (hex_value c) [
  | some v ↦ digits_from (acc * 16 + v) cs
  | none ↦ (acc, c ∷ cs)
]

unfoldable pub starts_digit : List ℕ → Bool
starts_digit [] = false
starts_digit (c ∷ cs) = elim (hex_value c) [ some v ↦ true | none ↦ false ]

-- A prefix 0x counts only in front of a digit.
unfoldable pub skip_prefix : List ℕ → List ℕ
skip_prefix cs =
    if (get_or cs 0 0 == b'0')
      && ((get_or cs 1 0 == b'x') || (get_or cs 1 0 == b'X'))
      && starts_digit (drop 2 cs)
    then drop 2 cs
    else cs

-- The value is clamped; a minus sign negates it modulo 2 ^ 32. With no digit nothing is read,
-- and `end` is the start of the text.
unfoldable pub strtoul16 : List ℕ → ℕ × List ℕ
unfolding hex_value skip_spaces digits_from starts_digit skip_prefix
strtoul16 s =
    let cs = skip_spaces s in
    let negative = get_or cs 0 0 == b'-' in
    let signed = negative || (get_or cs 0 0 == b'+') in
    let body = skip_prefix (if signed then drop 1 cs else cs) in
    let (v, rest) = digits_from 0 body in
    if starts_digit body
    then (
      if ltb v (2 ^ 32) then (if negative then (2 ^ 32 - v) % 2 ^ 32 else v) else 2 ^ 32 - 1,
      rest,
    )
    else (0, s)
