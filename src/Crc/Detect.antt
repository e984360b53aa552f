-- ===== src/Crc/Detect.antt =====
-- Every change of one byte of a checked frame is detected: the register is a bijection of the
-- byte that enters it and of its own former value.
use lifi_auth.Common.{ℕ, zero, suc, ◌+◌, ◌-◌, ◌*◌, ◌/◌, ◌%◌, ◌^◌, ◌≤◌, ◌<◌, bit_and, bit_xor}
use lifi_auth.Common.{◌≡◌, refl, subst, ◌≢◌, ap, sym, ◌∙◌, inl, inr, arith, true, false}
use lifi_auth.Common.{List, [], ◌∷◌, All, IsByte, ◌==◌, length, take, get_or, set, of_be16}
use lifi_auth.Common.{if◌then◌else◌, Bool-cases, ==_iff, get_or-set_self, get_or-set_ne}
use native.Mathlib.Decide.{dec_lt}
use lifi_auth.Crc.{crc_bit, crc_bits, crc_byte, crc_loop, crc16_ccitt, crc16_validate}
use lifi_auth.Crc.Bits.{xor_cancel, xor_comm, xor_lt, halve, halve_xor, bit_and_pow, xor_low}
use lifi_auth.Crc.Laws.{crc16_validate-at, take-set_ge, All-take, crc_bit-lt, crc_byte-lt}

-- The inverse of `crc_bit`.
crc_unbit : ℕ → ℕ
crc_unbit r = if r % 2 == 1 then bit_xor 0x810 (2 ^ 15 + r / 2) else r / 2

-- A set top bit leaves an odd value behind, since the polynomial is odd.
crc_bit_low : (c : ℕ) → c < 2 ^ 15 → crc_bit c ≡ c * 2
unfolding crc_bit
crc_bit_low c h =
    let masked : bit_and c (2 ^ 15) ≡ 0 = omega (arith, bit_and_pow 15 c) in rw masked (omega arith)

-- The top bit survives the mask, so nothing else is lost by the cast.
top_bit : (c : ℕ) → 2 ^ 15 ≤ c → c < 2 ^ 16 → 2 ^ 15 ≤ bit_xor 0x810 c
top_bit c h k =
    let one : halve 15 c ≡ 1 = omega arith in
    let kept : halve 15 (bit_xor 0x810 c) ≡ 1 = halve_xor 15 0x810 c ∙ rw one refl in
    omega (arith, kept)

crc_bit_high : (c : ℕ) → 2 ^ 15 ≤ c → c < 2 ^ 16 → crc_bit c ≡ (bit_xor 0x810 c - 2 ^ 15) * 2 + 1
unfolding crc_bit
crc_bit_high c h k =
    let one : halve 15 c ≡ 1 = omega arith in
    let masked : bit_and c (2 ^ 15) ≡ 2 ^ 15 = omega (arith, bit_and_pow 15 c, one) in
    let half : c * 2 / 2 ≡ c = omega arith in
    let even : c * 2 % 2 ≡ 0 = omega arith in
    let shifted : bit_xor (c * 2) 0x1021 ≡ bit_xor 0x810 c * 2 + 1 =
      xor_low (c * 2) 0x1021 ∙ rw (half, even, xor_comm c 0x810) (omega arith) in
    rw (masked, shifted) (omega (arith, top_bit c h k, xor_lt 16 0x810 c (omega arith) k))

crc_unbit-bit : (c : ℕ) → c < 2 ^ 16 → crc_unbit (crc_bit c) ≡ c
unfolding crc_unbit
crc_unbit-bit c k = elim (dec_lt c (2 ^ 15)) [
  | yes h ↦ rw (crc_bit_low c h) (ground arith)
  | no h ↦
      let y : ℕ = bit_xor 0x810 c in
      let big : 2 ^ 15 ≤ y = top_bit c (omega arith) k in
      let odd : ((y - 2 ^ 15) * 2 + 1) % 2 ≡ 1 = omega arith in
      let back : 2 ^ 15 + ((y - 2 ^ 15) * 2 + 1) / 2 ≡ y = omega arith in
      rw (crc_bit_high c (omega arith) k, odd, back) (xor_cancel 0x810 c)
]

crc_bit-injective : (c d : ℕ) → c < 2 ^ 16 → d < 2 ^ 16 → crc_bit c ≡ crc_bit d → c ≡ d
crc_bit-injective c d p q e = sym (crc_unbit-bit c p) ∙ ap crc_unbit e ∙ crc_unbit-bit d q

crc_bits-injective : (n c d : ℕ) → c < 2 ^ 16 → d < 2 ^ 16 → crc_bits n c ≡ crc_bits n d → c ≡ d
unfolding crc_bits
crc_bits-injective zero c d p q e = e
crc_bits-injective (suc n) c d p q e =
    crc_bit-injective c d p q
      (crc_bits-injective n (crc_bit c) (crc_bit d) (crc_bit-lt c) (crc_bit-lt d) e)

xor-injective : (a b c : ℕ) → bit_xor a b ≡ bit_xor a c → b ≡ c
xor-injective a b c e = sym (xor_cancel a b) ∙ ap (bit_xor a) e ∙ xor_cancel a c

-- Two bytes that enter the same register leave different registers.
crc_byte-injective :
    (c a b : ℕ) → c < 2 ^ 16 → a < 256 → b < 256 → crc_byte c a ≡ crc_byte c b → a ≡ b
unfolding crc_byte
crc_byte-injective c a b p q r e =
    let entered =
      crc_bits-injective 8 (bit_xor c (a * 2 ^ 8)) (bit_xor c (b * 2 ^ 8))
        (xor_lt 16 c (a * 2 ^ 8) p (omega arith)) (xor_lt 16 c (b * 2 ^ 8) p (omega arith)) e in
    omega (arith, xor-injective c (a * 2 ^ 8) (b * 2 ^ 8) entered)

crc_byte-register :
    (c d b : ℕ) → c < 2 ^ 16 → d < 2 ^ 16 → b < 256 → crc_byte c b ≡ crc_byte d b → c ≡ d
unfolding crc_byte
crc_byte-register c d b p q r e =
    let entered =
      crc_bits-injective 8 (bit_xor c (b * 2 ^ 8)) (bit_xor d (b * 2 ^ 8))
        (xor_lt 16 c (b * 2 ^ 8) p (omega arith)) (xor_lt 16 d (b * 2 ^ 8) q (omega arith)) e in
    xor-injective (b * 2 ^ 8) c d (xor_comm (b * 2 ^ 8) c ∙ entered ∙ xor_comm d (b * 2 ^ 8))

crc_loop-register :
    (c d : ℕ) (bs : List ℕ)
    → c < 2 ^ 16
    → d < 2 ^ 16
    → All IsByte bs
    → crc_loop c bs ≡ crc_loop d bs
    → c ≡ d
unfolding crc_loop
crc_loop-register c d [] p q h e = e
crc_loop-register c d (b ∷ bs) p q h e = crc_byte-register c d b p q h.0 (
    crc_loop-register (crc_byte c b) (crc_byte d b) bs (crc_byte-lt c b p h.0)
      (crc_byte-lt d b q h.0) h.1 e)

-- A byte that is overwritten by another changes the register, whatever follows it.
crc_loop-set :
    (c : ℕ) (bs : List ℕ) (i v : ℕ)
    → c < 2 ^ 16
    → All IsByte bs
    → v < 256
    → i < length bs
    → crc_loop c (set bs i v) ≡ crc_loop c bs
    → v ≡ get_or bs i 0
unfolding crc_loop
crc_loop-set c [] i v p h q lt e = absurd (omega arith)
crc_loop-set c (b ∷ bs) zero v p h q lt e = crc_byte-injective c v b p q h.0 (
    crc_loop-register (crc_byte c v) (crc_byte c b) bs (crc_byte-lt c v p q) (crc_byte-lt c b p h.0)
      h.1 e)
crc_loop-set c (b ∷ bs) (suc i) v p h q lt e =
    crc_loop-set (crc_byte c b) bs i v (crc_byte-lt c b p h.0) h.1 q (omega arith) e

take-set_lt :
    (n i v : ℕ) (xs : List ℕ)
    → i < n
    → n ≤ length xs
    → (take n (set xs i v) ≡ set (take n xs) i v)
      × (get_or (take n xs) i 0 ≡ get_or xs i 0)
      × (i < length (take n xs))
take-set_lt zero i v xs h k = absurd (omega arith)
take-set_lt (suc n) i v [] h k = absurd (omega arith)
take-set_lt (suc n) zero v (x ∷ xs) h k = (refl, refl, omega arith)
take-set_lt (suc n) (suc i) v (x ∷ xs) h k =
    let (e, g, l) = take-set_lt n i v xs (omega arith) (omega arith) in
    (ap (λ t. x ∷ t) e, g, omega arith)

get_or-lt : (i : ℕ) (xs : List ℕ) → All IsByte xs → get_or xs i 0 < 256
get_or-lt i [] h = omega arith
get_or-lt zero (x ∷ xs) h = h.0
get_or-lt (suc i) (x ∷ xs) h = get_or-lt i xs h.1

-- A change in the data of a frame that was accepted.
data_change :
    (buf : List ℕ) (n i v : ℕ)
    → All IsByte buf
    → v < 256
    → i < n
    → n + 2 ≤ length buf
    → crc16_validate buf (n + 2) ≡ true
    → crc16_validate (set buf i v) (n + 2) ≡ true
    → v ≡ get_or buf i 0
data_change buf n i v bytes q lt room was is =
    let (taken, same, inside) = take-set_lt n i v buf lt (omega arith) in
    let hi = get_or-set_ne buf i n v 0 (omega arith) in
    let lo = get_or-set_ne buf i (n + 1) v 0 (omega arith) in
    let sum = of_be16 (get_or buf n 0) (get_or buf (n + 1) 0) in
    let before : crc16_ccitt (take n buf) ≡ sum =
      (==_iff (crc16_ccitt (take n buf)) sum).0 (sym (crc16_validate-at buf n) ∙ was) in
    let after : crc16_ccitt (take n (set buf i v)) ≡ sum =
      (==_iff (crc16_ccitt (take n (set buf i v))) sum).0
        (rw (← hi, ← lo) (sym (crc16_validate-at (set buf i v) n) ∙ is)) in
    let looped : crc_loop 0xFFFF (set (take n buf) i v) ≡ crc_loop 0xFFFF (take n buf) =
      unfold crc16_ccitt in rw (← taken) (after ∙ sym before) in
    crc_loop-set 0xFFFF (take n buf) i v (omega arith) (All-take n buf bytes) q inside looped ∙ same

-- A change in the checksum itself.
sum_change :
    (buf : List ℕ) (n i v : ℕ)
    → All IsByte buf
    → v < 256
    → n ≤ i
    → i < n + 2
    → n + 2 ≤ length buf
    → crc16_validate buf (n + 2) ≡ true
    → crc16_validate (set buf i v) (n + 2) ≡ true
    → v ≡ get_or buf i 0
sum_change buf n i v bytes q le lt room was is =
    let crc = crc16_ccitt (take n buf) in
    let sum = λ (b : List ℕ). of_be16 (get_or b n 0) (get_or b (n + 1) 0) in
    let before : crc ≡ sum buf = (==_iff crc (sum buf)).0 (sym (crc16_validate-at buf n) ∙ was) in
    let after : crc ≡ sum (set buf i v) =
      (==_iff crc (sum (set buf i v))).0
        (rw (← take-set_ge n i buf v le) (sym (crc16_validate-at (set buf i v) n) ∙ is)) in
    let self : get_or (set buf i v) i 0 ≡ v = get_or-set_self buf i v 0 (omega arith) in
    elim (dec_lt n i) [
      | yes h ↦
          let p : i ≡ n + 1 = omega arith in
          let lo : get_or (set buf i v) (n + 1) 0 ≡ v =
            subst (λ k. get_or (set buf i v) k 0 ≡ v) p self in
          let old : get_or buf (n + 1) 0 ≡ get_or buf i 0 = ap (λ k. get_or buf k 0) (sym p) in
          let hi = get_or-set_ne buf i n v 0 (omega arith) in
          omega (arith, before, after, lo, hi, old)
      | no h ↦
          let p : i ≡ n = omega arith in
          let hi : get_or (set buf i v) n 0 ≡ v =
            subst (λ k. get_or (set buf i v) k 0 ≡ v) p self in
          let old : get_or buf n 0 ≡ get_or buf i 0 = ap (λ k. get_or buf k 0) (sym p) in
          let lo = get_or-set_ne buf i (n + 1) v 0 (omega arith) in
          omega (arith, before, after, lo, hi, old)
    ]

-- One byte of an accepted frame of bytes, data or checksum, is replaced by another byte: the
-- frame is then rejected.
pub crc16_validate-set :
    (buf : List ℕ) (n i v : ℕ)
    → All IsByte buf
    → v < 256
    → i < n + 2
    → n + 2 ≤ length buf
    → v ≢ get_or buf i 0
    → crc16_validate buf (n + 2) ≡ true
    → crc16_validate (set buf i v) (n + 2) ≡ false
crc16_validate-set buf n i v bytes q lt room ne was =
    elim (Bool-cases (crc16_validate (set buf i v) (n + 2))) [
      | inr rejected ↦ rejected
      | inl is ↦ absurd (ne (unchanged is))
    ]
  where
    unchanged : crc16_validate (set buf i v) (n + 2) ≡ true → v ≡ get_or buf i 0
    unchanged is = elim (dec_lt i n) [
      | yes h ↦ data_change buf n i v bytes q h room was is
      | no h ↦ sum_change buf n i v bytes q (omega arith) lt room was is
    ]
