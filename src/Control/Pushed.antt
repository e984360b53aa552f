-- ===== src/Control/Pushed.antt =====
-- A key that is pushed to the server is the key of the receiver.
pub mod Adopted
use lifi_auth.Common.{
  ℕ, zero, suc, ◌+◌, ◌-◌, ◌*◌, ◌/◌, ◌%◌, ◌≤◌, ◌<◌, ◌≡◌, refl, sym, ◌∙◌, ap, arith, Bool, true,
  false, Option, some, none,
}
use lifi_auth.Common.{
  List, [], ◌∷◌, ◌++◌, codes, length, take, drop, ltb, ◌==◌, ==_iff, ◌||◌, ◌&&◌, if◌then◌else◌, All,
  IsByte, u8,
}
use lifi_auth.Common.{Bool-cases, if_both, inl, inr, append-nil, ==_refl}
use lifi_auth.Commands.Strtoul.{
  strtoul16, skip_spaces, is_space, digits_from, hex_value, starts_digit, skip_prefix,
}
use lifi_auth.Control.{parse_hex_field, force_request_of, pushed_key}
use lifi_auth.Control.Text.{
  strip_prefix, after, after_char, skip_chars, take_until, scan_02x, decode_hex, hex_of, hex_digit,
}
use lifi_auth.Host.{pushed}
use lifi_auth.Control.Hex.{
  decode_hex-hex_of, length-hex_of, take_until-hex, skip_chars-hex, is_quote, is_opening,
}

-- A field of the body, as `json.dumps` writes it, behind its opening quote.
abbrev pub field : List ℕ → List ℕ → List ℕ → List ℕ
field name bs rest = name ++ (b'"' ∷ b':' ∷ b' ' ∷ b'"' ∷ (hex_of bs ++ (b'"' ∷ rest)))

-- The value of a field whose name is found.
parse_hex_field-found :
    (body name bs rest : List ℕ) (n : ℕ)
    → All IsByte bs
    → length bs ≡ n
    → 0 < n
    → after (b'"' ∷ (name ++ (b'"' ∷ []))) body
      ≡ some (b':' ∷ b' ' ∷ b'"' ∷ (hex_of bs ++ (b'"' ∷ rest)))
    → parse_hex_field body name n ≡ some bs
unfolding parse_hex_field after_char skip_chars
parse_hex_field-found body name bs rest n bytes size some_left found =
    let double : length (hex_of bs) ≡ n + n = omega (arith, length-hex_of bs, size) in
    let cut : take_until (n + n) is_quote (hex_of bs ++ (b'"' ∷ rest)) ≡ hex_of bs =
      ap (λ k. take_until k is_quote (hex_of bs ++ (b'"' ∷ rest))) (sym double)
      ∙ take_until-hex bs (b'"' ∷ rest) bytes in
    let decoded : decode_hex n (hex_of bs) ≡ some bs =
      ap (λ k. decode_hex k (hex_of bs)) (sym size)
      ∙ ap (decode_hex (length bs)) (sym (append-nil (hex_of bs)))
      ∙ decode_hex-hex_of bs [] bytes in
    rw
      (
        found,
        parse_hex_field,
        skip_chars-hex bs (b'"' ∷ rest) bytes (omega (arith, size)),
        cut,
        double,
        ==_refl (n + n),
        decoded,
      )
      refl

-- A pattern that begins with a quote is not found among the digits.
after-hex :
    (pattern bs rest : List ℕ)
    → All IsByte bs
    → after (b'"' ∷ pattern) (hex_of bs ++ rest) ≡ after (b'"' ∷ pattern) rest
unfolding after strip_prefix hex_of
after-hex pattern [] rest h = refl
after-hex pattern (b ∷ bs) rest h =
    rw
      (
        quote-hex_digit (b / 16) (omega (arith, h.0)),
        quote-hex_digit (b % 16) (omega arith),
        after,
        strip_prefix,
      )
      (after-hex pattern bs rest h.1)
  where
    quote-hex_digit : (v : ℕ) → v < 16 → (b'"' == hex_digit v) ≡ false
    quote-hex_digit v h = ground arith

-- The name of the second field cannot begin among the digits, as its second letter is none.
cipher-hex :
    (bs rest : List ℕ)
    → All IsByte bs
    → 0 < length bs
    → strip_prefix (codes "cipher_key\"") (hex_of bs ++ rest) ≡ none
unfolding strip_prefix hex_of
cipher-hex [] rest h some_left = absurd (omega arith)
cipher-hex (b ∷ bs) rest h some_left =
    rw (second (b % 16) (omega arith), strip_prefix)
      (if_both (λ (o : Option (List ℕ)). o ≡ none) (b'c' == hex_digit (b / 16)) none none refl refl)
  where
    second : (v : ℕ) → v < 16 → (b'i' == hex_digit v) ≡ false
    second v h = ground arith

-- The name of the third one cannot either.
mac-hex :
    (bs rest : List ℕ)
    → All IsByte bs
    → 0 < length bs
    → strip_prefix (codes "mac_key\"") (hex_of bs ++ rest) ≡ none
unfolding strip_prefix hex_of
mac-hex [] rest h some_left = absurd (omega arith)
mac-hex (b ∷ bs) rest h some_left = rw (first (b / 16) (omega (arith, h.0)), strip_prefix) refl
  where
    first : (v : ℕ) → v < 16 → (b'm' == hex_digit v) ≡ false
    first v h = ground arith

-- The body by which the dashboard pushes a key.
abbrev pub push_body : List ℕ → List ℕ → List ℕ → List ℕ
push_body id cipher_key mac_key =
    b'{'
    ∷ b'"'
    ∷ field (codes "key_id") id (
        b','
        ∷ b' '
        ∷ b'"'
        ∷ field (codes "cipher_key") cipher_key
            (b',' ∷ b' ' ∷ b'"' ∷ field (codes "mac_key") mac_key (b'}' ∷ [])))

-- Past the value of a field.
after-value :
    (pattern bs rest : List ℕ)
    → All IsByte bs
    → strip_prefix pattern (hex_of bs ++ (b'"' ∷ rest)) ≡ none
    → after (b'"' ∷ pattern) (b'"' ∷ (hex_of bs ++ (b'"' ∷ rest)))
      ≡ after (b'"' ∷ pattern) (b'"' ∷ rest)
unfolding after strip_prefix
after-value pattern bs rest bytes never =
    rw (never, after, strip_prefix) (after-hex pattern bs (b'"' ∷ rest) bytes)

-- What a body that pushes a key of 8, 16 and 32 bytes asks for is that key.
pub force_request_of-push_body :
    (id cipher_key mac_key : List ℕ)
    → length id ≡ 8
    → length cipher_key ≡ 16
    → length mac_key ≡ 32
    → All IsByte id
    → All IsByte cipher_key
    → All IsByte mac_key
    → force_request_of (push_body id cipher_key mac_key) ≡ pushed (pushed_key id cipher_key mac_key)
unfolding force_request_of after strip_prefix
force_request_of-push_body id c mk id_size c_size mk_size id_bytes c_bytes mk_bytes =
    let third : List ℕ = field (codes "mac_key") mk (b'}' ∷ []) in
    let second : List ℕ = field (codes "cipher_key") c (b',' ∷ b' ' ∷ b'"' ∷ third) in
    let body : List ℕ = push_body id c mk in
    let found_id : parse_hex_field body (codes "key_id") 8 ≡ some id =
      parse_hex_field-found body (codes "key_id") id (b',' ∷ b' ' ∷ b'"' ∷ second) 8 id_bytes
        id_size (omega arith) refl in
    let past_id : (pattern : List ℕ)
        → strip_prefix pattern (hex_of id ++ (b'"' ∷ b',' ∷ b' ' ∷ b'"' ∷ second)) ≡ none
        → after (b'"' ∷ pattern) (b'"' ∷ (hex_of id ++ (b'"' ∷ b',' ∷ b' ' ∷ b'"' ∷ second)))
          ≡ after (b'"' ∷ pattern) (b'"' ∷ b',' ∷ b' ' ∷ b'"' ∷ second) =
      λ pattern never. after-value pattern id (b',' ∷ b' ' ∷ b'"' ∷ second) id_bytes never in
    let found_c : parse_hex_field body (codes "cipher_key") 16 ≡ some c =
      parse_hex_field-found body (codes "cipher_key") c (b',' ∷ b' ' ∷ b'"' ∷ third) 16 c_bytes
        c_size (omega arith)
        (past_id (codes "cipher_key\"") (cipher-hex id _ id_bytes (omega (arith, id_size)))) in
    let found_mk : parse_hex_field body (codes "mac_key") 32 ≡ some mk =
      parse_hex_field-found body (codes "mac_key") mk (b'}' ∷ []) 32 mk_bytes mk_size (omega arith)
        (past_id (codes "mac_key\"") (mac-hex id _ id_bytes (omega (arith, id_size)))
          ∙ after-value (codes "mac_key\"") c (b',' ∷ b' ' ∷ b'"' ∷ third) c_bytes
              (mac-hex c _ c_bytes (omega (arith, c_size)))) in
    rw (found_id, found_c, found_mk, force_request_of) refl
