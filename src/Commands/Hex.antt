-- ===== src/Commands/Hex.antt =====
-- A key that is typed in hexadecimal is the key that is installed.
use lifi_auth.Common.{Bool-cases, inl, inr}
use lifi_auth.Common.{ℕ, zero, suc, ◌+◌, ◌-◌, ◌*◌, ◌/◌, ◌%◌, ◌<◌, ◌≡◌, refl, ap, subst, ◌∙◌, arith}
use lifi_auth.Common.{
  Bool, true, false, Option, some, none, List, [], ◌∷◌, ◌++◌, All, IsByte, length,
}
use lifi_auth.Common.{◌==◌, ==_iff, ltb, if◌then◌else◌, codes, u8, some_eq, length-append, bytes_eq}
use lifi_auth.Crypto.{Mbedtls}
use lifi_auth.Flash.Device.{FlashDevice}
use lifi_auth.Pico.{Env, Pico}
use lifi_auth.Commands.{
  key, parse_byte, parse_key, skip_blanks, parse_command, run_key, run_command,
}
use lifi_auth.Commands.{handle_commands, install_key, manual_id}
use lifi_auth.Commands.Strtoul.{strtoul16}

-- The digits of `print_hex`, in either case of letter.
abbrev pub hex_digit : Bool → ℕ → ℕ
hex_digit upper v = if ltb v 10 then b'0' + v else if upper then b'A' + v - 10 else b'a' + v - 10

pub to_hex : Bool → List ℕ → List ℕ
to_hex upper [] = []
to_hex upper (b ∷ bs) = hex_digit upper (b / 16) ∷ hex_digit upper (b % 16) ∷ to_hex upper bs

-- Reading back the two digits of a byte gives the byte.
abbrev reads_back : Bool → ℕ → Bool
reads_back upper b = elim (parse_byte (hex_digit upper (b / 16)) (hex_digit upper (b % 16))) [
  | some v ↦ v == b
  | none ↦ false
]

-- The bytes below `n` are all read back in the letters of that case.
table : Bool → ℕ → Bool
table upper zero = true
table upper (suc n) = if reads_back upper n then table upper n else false

table-entry : (upper : Bool) (b n : ℕ) → b < n → table upper n ≡ true → reads_back upper b ≡ true
unfolding table
table-entry upper b zero below all = absurd (omega arith)
table-entry upper b (suc n) below all = elim (Bool-cases (b == n)) [
  | inl top ↦ rw ((==_iff b n).0 top) (ground (arith, all))
  | inr lower ↦ table-entry upper b n (ground (arith, lower)) (ground (arith, all))
]

whole_table : (upper : Bool) → table upper 256 ≡ true
unfolding table parse_byte strtoul16
whole_table true = refl
whole_table false = refl

reads_back_some :
    (o : Option ℕ) (b : ℕ) → (elim o [ some v ↦ v == b | none ↦ false ]) ≡ true → o ≡ some b
reads_back_some none b h = cc
reads_back_some (some v) b h = ap some ((==_iff v b).0 h)

parse_byte-hex :
    (upper : Bool) (b : ℕ)
    → b < 256
    → parse_byte (hex_digit upper (b / 16)) (hex_digit upper (b % 16)) ≡ some b
parse_byte-hex upper b h = reads_back_some _ b (table-entry upper b 256 h (whole_table upper))

parse_key-hex :
    (upper : Bool) (bs rest : List ℕ)
    → All IsByte bs
    → parse_key (length bs) (to_hex upper bs ++ rest) ≡ some bs
unfolding parse_key to_hex
parse_key-hex upper [] rest h = refl
parse_key-hex upper (b ∷ bs) rest h =
    rw (parse_byte-hex upper b h.0, parse_key-hex upper bs rest h.1, parse_key) refl

length-to_hex : (upper : Bool) (bs : List ℕ) → length (to_hex upper bs) ≡ 2 * length bs
unfolding to_hex
length-to_hex upper [] = refl
length-to_hex upper (b ∷ bs) = omega (arith, length-to_hex upper bs)

parse_byte-lt : (a b v : ℕ) → parse_byte a b ≡ some v → v < 256
unfolding parse_byte
parse_byte-lt a b v h = go (strtoul16 (a ∷ b ∷ [])).1 h
  where
    go :
        (rest : List ℕ)
        → (elim rest [ [] ↦ some (u8 (strtoul16 (a ∷ b ∷ [])).0) | _ ↦ none ]) ≡ some v
        → v < 256
    go [] q = omega (arith, some_eq q)
    go (c ∷ cs) q = absurd (cc)

cons_key :
    (n : ℕ) (o : Option ℕ) (r : Option (List ℕ)) (k : List ℕ)
    → ((v : ℕ) → o ≡ some v → v < 256)
    → ((bs : List ℕ) → r ≡ some bs → (length bs ≡ n) × All IsByte bs)
    → (elim o [ some v ↦ elim r [ some bs ↦ some (v ∷ bs) | none ↦ none ] | none ↦ none ]) ≡ some k
    → (length k ≡ suc n) × All IsByte k
cons_key n none r k small rest h = absurd (cc)
cons_key n (some v) none k small rest h = absurd (cc)
cons_key n (some v) (some bs) k small rest h =
    let (size, bytes) = rest bs refl in
    subst (λ k. (length k ≡ suc n) × All IsByte k) (some_eq h) (ap suc size, (small v refl, bytes))

-- A key that is parsed has as many bytes as were asked for.
pub parse_key-size :
    (n : ℕ) (cs k : List ℕ) → parse_key n cs ≡ some k → (length k ≡ n) × All IsByte k
unfolding parse_key
parse_key-size zero cs k h = subst (λ k. (length k ≡ 0) × All IsByte k) (some_eq h) (refl, tt)
parse_key-size (suc n) [] k h = absurd (cc)
parse_key-size (suc n) (a ∷ []) k h = absurd (cc)
parse_key-size (suc n) (a ∷ b ∷ cs) k h =
    cons_key n (parse_byte a b) (parse_key n cs) k (parse_byte-lt a b)
      (λ bs. parse_key-size n cs bs) h

hex_digit-blank : (upper : Bool) (v : ℕ) → (hex_digit upper v == b' ') ≡ false
hex_digit-blank upper v = ground arith

-- `n` blanks, which the parser skips.
abbrev pub blanks : ℕ → List ℕ → List ℕ
blanks zero cs = cs
blanks (suc n) cs = b' ' ∷ blanks n cs

skip_blanks-hex :
    (n : ℕ) (upper : Bool) (bs rest : List ℕ)
    → 0 < length bs
    → skip_blanks (blanks n (to_hex upper bs ++ rest)) ≡ to_hex upper bs ++ rest
unfolding skip_blanks to_hex
skip_blanks-hex zero upper [] rest h = absurd (omega arith)
skip_blanks-hex zero upper (b ∷ bs) rest h = rw (hex_digit-blank upper (b / 16)) refl
skip_blanks-hex (suc n) upper bs rest h = skip_blanks-hex n upper bs rest h

command_key :
    (n : ℕ) (hex : List ℕ)
    → parse_command (codes " key " ++ blanks n hex) ≡ key (skip_blanks (blanks n hex))
unfolding parse_command bytes_eq
command_key n hex = refl

module _ (d : FlashDevice) (m : Mbedtls) (e : Env) where
  run_key-hex :
      (upper : Bool) (k rest : List ℕ) (p : Pico d)
      → All IsByte k
      → length k ≡ 16
      → run_command d m e (key (to_hex upper k ++ rest)) p ≡ install_key d m e manual_id k p
  unfolding run_command run_key
  run_key-hex upper k rest p h l =
      let long : ltb (length (to_hex upper k ++ rest)) 32 ≡ false =
        ground (arith, length-append (to_hex upper k) rest, length-to_hex upper k) in
      let parsed : parse_key 16 (to_hex upper k ++ rest) ≡ some k =
        subst (λ n. parse_key n (to_hex upper k ++ rest) ≡ some k) l
          (parse_key-hex upper k rest h) in
      rw (long, parsed) refl

  -- The command "key", any blanks and the 32 hexadecimal digits of a key in capitals or small
  -- letters, whatever follows them, installs that key under the manual ID.
  pub handle_commands-key :
      (n : ℕ) (upper : Bool) (k rest : List ℕ) (p : Pico d)
      → All IsByte k
      → length k ≡ 16
      → handle_commands d m e (codes " key " ++ blanks n (to_hex upper k ++ rest)) p
        ≡ install_key d m e manual_id k p
  unfolding handle_commands
  handle_commands-key n upper k rest p h l =
      let hex : List ℕ = to_hex upper k ++ rest in
      let parsed : parse_command (codes " key " ++ blanks n hex) ≡ key hex =
        command_key n hex ∙ ap key (skip_blanks-hex n upper k rest (omega arith)) in
      ap (λ c. run_command d m e c p) parsed ∙ run_key-hex upper k rest p h l
