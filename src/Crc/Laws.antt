-- ===== src/Crc/Laws.antt =====
-- What `crc16_append` writes, `crc16_validate` accepts.
use lifi_auth.Common.{ℕ, zero, suc, ◌+◌, ◌-◌, ◌*◌, ◌/◌, ◌^◌, ◌≤◌, ◌<◌, u8, of_be16, bit_xor}
use lifi_auth.Common.{◌≡◌, refl, ap, arith, true, false, List, [], ◌∷◌, All, IsByte, ltb, ◌==◌}
use lifi_auth.Common.{length, take, set, get_or, length-set, get_or-set_self, get_or-set_ne}
use lifi_auth.Common.{of_be16-be16, ◌∙◌, ==_refl}
use lifi_auth.Crc.{crc_bit, crc_bits, crc_byte, crc_loop, crc16_ccitt, crc16_append, crc16_validate}
use lifi_auth.Crc.Bits.{xor_lt}

pub crc_bit-lt : (c : ℕ) → crc_bit c < 2 ^ 16
unfolding crc_bit
crc_bit-lt c = ground arith

pub crc_bits-lt : (n c : ℕ) → c < 2 ^ 16 → crc_bits n c < 2 ^ 16
unfolding crc_bits
crc_bits-lt zero c h = h
crc_bits-lt (suc n) c h = crc_bits-lt n (crc_bit c) (crc_bit-lt c)

pub crc_byte-lt : (c b : ℕ) → c < 2 ^ 16 → b < 256 → crc_byte c b < 2 ^ 16
unfolding crc_byte
crc_byte-lt c b p q =
    crc_bits-lt 8 (bit_xor c (b * 2 ^ 8)) (xor_lt 16 c (b * 2 ^ 8) p (omega arith))

pub crc_loop-lt : (c : ℕ) (bs : List ℕ) → c < 2 ^ 16 → All IsByte bs → crc_loop c bs < 2 ^ 16
unfolding crc_loop
crc_loop-lt c [] p q = p
crc_loop-lt c (b ∷ bs) p q = crc_loop-lt (crc_byte c b) bs (crc_byte-lt c b p q.0) q.1

pub crc16_ccitt-lt : (bs : List ℕ) → All IsByte bs → crc16_ccitt bs < 2 ^ 16
crc16_ccitt-lt bs h = unfold crc16_ccitt in crc_loop-lt 0xFFFF bs (omega arith) h

pub take-set_ge : (n i : ℕ) (xs : List ℕ) (v : ℕ) → n ≤ i → take n (set xs i v) ≡ take n xs
take-set_ge zero i xs v h = refl
take-set_ge (suc n) i [] v h = refl
take-set_ge (suc n) zero (x ∷ xs) v h = absurd (omega arith)
take-set_ge (suc n) (suc i) (x ∷ xs) v h = ap (λ t. x ∷ t) (take-set_ge n i xs v (omega arith))

pub All-take : (n : ℕ) (xs : List ℕ) → All IsByte xs → All IsByte (take n xs)
All-take zero xs h = tt
All-take (suc n) [] h = tt
All-take (suc n) (x ∷ xs) h = (h.0, All-take n xs h.1)

-- The checksum of a buffer is held against the two bytes behind its data.
pub crc16_validate-at :
    (buf : List ℕ) (n : ℕ)
    → crc16_validate buf (n + 2)
      ≡ (crc16_ccitt (take n buf) == of_be16 (get_or buf n 0) (get_or buf (n + 1) 0))
unfolding crc16_validate
crc16_validate-at buf n = rw (short, same) refl
  where
    short : ltb (n + 2) 2 ≡ false
    short = ground arith

    same : n + 2 - 2 ≡ n
    same = omega arith

-- A buffer of bytes with two places behind its data: the checksum that `crc16_append` writes
-- there is accepted by `crc16_validate`, and the data in front of it is unchanged.
pub crc16_validate-append :
    (buf : List ℕ) (n : ℕ)
    → All IsByte buf
    → n + 2 ≤ length buf
    → (crc16_validate (crc16_append buf n) (n + 2) ≡ true)
      × (take n (crc16_append buf n) ≡ take n buf)
crc16_validate-append buf n bytes room = (accepted, kept)
  where
    crc : ℕ
    crc = crc16_ccitt (take n buf)

    once : List ℕ
    once = set buf n (u8 (crc / 2 ^ 8))

    out : List ℕ
    out = set once (n + 1) (u8 crc)

    kept : take n (crc16_append buf n) ≡ take n buf
    kept =
        unfold crc16_append in
        take-set_ge n (n + 1) once (u8 crc) (omega arith)
        ∙ take-set_ge n n buf (u8 (crc / 2 ^ 8)) (omega arith)

    low : get_or out (n + 1) 0 ≡ u8 crc
    low =
        get_or-set_self once (n + 1) (u8 crc) 0 (omega (arith, length-set buf n (u8 (crc / 2 ^ 8))))

    high : get_or out n 0 ≡ u8 (crc / 2 ^ 8)
    high =
        get_or-set_ne once (n + 1) n (u8 crc) 0 (omega arith)
        ∙ get_or-set_self buf n (u8 (crc / 2 ^ 8)) 0 (omega arith)

    joined : of_be16 (get_or out n 0) (get_or out (n + 1) 0) ≡ crc
    joined = rw (high, low) (of_be16-be16 crc (crc16_ccitt-lt (take n buf) (All-take n buf bytes)))

    stored : of_be16 (get_or (crc16_append buf n) n 0) (get_or (crc16_append buf n) (n + 1) 0) ≡ crc
    stored = unfold crc16_append in joined

    accepted : crc16_validate (crc16_append buf n) (n + 2) ≡ true
    accepted = crc16_validate-at (crc16_append buf n) n ∙ rw (kept, stored) (==_refl crc)
