-- ===== src/Console/Bounds.antt =====
-- What a line from the console can be.
use lifi_auth.Common.{zero, suc, length-take}
use lifi_auth.Common.{
  ℕ, ◌-◌, ◌≤◌, ◌<◌, ◌≡◌, ◌⊎◌, inl, inr, refl, subst, arith, Bool, true, false, ◌&&◌, ◌||◌, Option,
  some, none,
}
use lifi_auth.Common.{
  List, [], ◌∷◌, All, All-append, length, length-append, take, ltb, leb, ◌==◌, if◌then◌else◌,
  Bool-cases,
}
use lifi_auth.Console.{is_break, is_printable, type_char, push, push_peeked, read_line}

abbrev pub IsText : ℕ → Type 0
IsText ch = (ch ≡ 10) ⊎ ((32 ≤ ch) × (ch < 127))

-- Room for the final NUL, and nothing but printable characters and line breaks.
pub record IsLine (line : List ℕ) : Type 0 where
  pub fits : length line ≤ 8191
  pub chars : All IsText line

push-IsLine : (ch : ℕ) (line : List ℕ) → IsText ch → IsLine line → IsLine (push ch line)
unfolding push
push-IsLine ch line text h = elim (Bool-cases (ltb (length line) 8191)) [
  | inl room ↦ rw room (record {
    fits = ground (arith, length-append line (ch ∷ []), room);
    chars = All-append IsText line (ch ∷ []) h.chars (text, tt);
  })
  | inr full ↦ rw full h
]

take-IsLine : (n : ℕ) (line : List ℕ) → IsLine line → IsLine (take n line)
take-IsLine n line h = record {
  fits = omega (arith, length-take n line, h.fits);
  chars = All-take n line h.chars;
}
  where
    All-take : (n : ℕ) (line : List ℕ) → All IsText line → All IsText (take n line)
    All-take zero line h = tt
    All-take (suc n) [] h = tt
    All-take (suc n) (ch ∷ line) h = (h.0, All-take n line h.1)

typed-IsLine : (ch : ℕ) (line : List ℕ) → IsLine line → IsLine (type_char ch line)
typed-IsLine ch line h = elim (Bool-cases (is_printable ch)) [
  | inl good ↦ rw good (push-IsLine ch line (inr (ground (arith, good))) h)
  | inr bad ↦ rw bad h
]

peeked-IsLine : (ch : ℕ) (line : List ℕ) → IsLine line → IsLine (push_peeked ch line)
unfolding push_peeked
peeked-IsLine ch line h = elim (Bool-cases (is_printable ch)) [
  | inl good ↦ rw good (push-IsLine ch line (inr (ground (arith, good))) h)
  | inr bad ↦ elim (Bool-cases (is_break ch)) [
    | inl newline ↦ rw (bad, newline) (push-IsLine 10 line (inl refl) h)
    | inr other ↦ rw (bad, other) h
  ]
]

-- A result under two tests is that of one of the branches.
one_of :
    (P : Option (List ℕ × List (Option ℕ)) → Type 0) (a b c : Bool)
    (w x y z : Option (List ℕ × List (Option ℕ)))
    → P w
    → P x
    → P y
    → P z
    → P (if a then w else if b then x else if c then y else z)
one_of P true b c w x y z p q r s = p
one_of P false true c w x y z p q r s = q
one_of P false false true w x y z p q r s = r
one_of P false false false w x y z p q r s = s

abbrev IsGood : Option (List ℕ × List (Option ℕ)) → Type 0
IsGood none = Unit
IsGood (some r) = IsLine r.0

read_line-IsGood :
    (buffer : List ℕ) (keys : List (Option ℕ)) → IsLine buffer → IsGood (read_line buffer keys)
unfolding read_line
read_line-IsGood buffer [] h = tt
read_line-IsGood buffer (none ∷ keys) h = read_line-IsGood buffer keys h
read_line-IsGood buffer (some ch ∷ []) h =
    one_of IsGood (is_break ch) (((ch == 127) || (ch == 8)) && ltb 0 (length buffer))
      (leb 8064 (length (type_char ch buffer))) none none (some (type_char ch buffer, [])) none tt
      tt (typed-IsLine ch buffer h) tt
read_line-IsGood buffer (some ch ∷ (none ∷ keys)) h =
    one_of IsGood (is_break ch) (((ch == 127) || (ch == 8)) && ltb 0 (length buffer))
      (leb 8064 (length (type_char ch buffer))) _ _ (some (type_char ch buffer, none ∷ keys)) _ h
      (read_line-IsGood (take (length buffer - 1) buffer) keys (take-IsLine _ buffer h))
      (typed-IsLine ch buffer h) (read_line-IsGood _ keys (typed-IsLine ch buffer h))
read_line-IsGood buffer (some ch ∷ (some next ∷ keys)) h =
    one_of IsGood (is_break ch) (((ch == 127) || (ch == 8)) && ltb 0 (length buffer))
      (leb 8064 (length (type_char ch buffer))) _ _ (some (type_char ch buffer, some next ∷ keys)) _
      (read_line-IsGood (push_peeked next (push 10 buffer)) keys
        (peeked-IsLine next (push 10 buffer) (push-IsLine 10 buffer (inl refl) h)))
      (read_line-IsGood (take (length buffer - 1) buffer) (some next ∷ keys)
        (take-IsLine _ buffer h))
      (typed-IsLine ch buffer h) (read_line-IsGood _ (some next ∷ keys) (typed-IsLine ch buffer h))

-- Whatever is typed, a line that is read leaves room in the buffer of 8192 bytes for the final
-- NUL, and holds printable characters and line breaks only.
pub read_line-IsLine :
    (keys : List (Option ℕ)) (line : List ℕ) (rest : List (Option ℕ))
    → read_line [] keys ≡ some (line, rest)
    → IsLine line
read_line-IsLine keys line rest h =
    subst IsGood h (read_line-IsGood [] keys (record { fits = omega arith; chars = tt }))
