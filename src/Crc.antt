-- ===== src/Crc.antt =====
-- include/crc16.h: CRC-16-CCITT (polynomial 0x1021, initial value 0xFFFF).
-- A `uint16_t` is a number below 2 ^ 16; a cast to it is `u16`. A buffer is a list of bytes.
mod Bits
pub mod Laws
pub mod Detect
use lifi_auth.Common.{ℕ, zero, suc, ◌+◌, ◌-◌, ◌*◌, ◌/◌, ◌^◌, bit_and, bit_xor, u8, u16, of_be16}
use lifi_auth.Common.{Bool, false, List, [], ◌∷◌, ltb, ◌==◌, if◌then◌else◌, get_or, set, take}

-- The body of the inner loop: one bit is shifted out.
unfoldable pub crc_bit : ℕ → ℕ
crc_bit crc = if bit_and crc (2 ^ 15) == 0 then u16 (crc * 2) else u16 (bit_xor (crc * 2) 0x1021)

-- `for (j = 0; j < 8; j++)`, with the rounds left.
unfoldable pub crc_bits : ℕ → ℕ → ℕ
crc_bits zero crc = crc
crc_bits (suc left) crc = crc_bits left (crc_bit crc)

-- The body of the outer loop: one byte is mixed into the high half.
unfoldable pub crc_byte : ℕ → ℕ → ℕ
crc_byte crc b = crc_bits 8 (bit_xor crc (b * 2 ^ 8))

unfoldable pub crc_loop : ℕ → List ℕ → ℕ
crc_loop crc [] = crc
crc_loop crc (b ∷ bs) = crc_loop (crc_byte crc b) bs

unfoldable pub crc16_ccitt : List ℕ → ℕ
unfolding crc_bit crc_bits crc_byte crc_loop
crc16_ccitt bytes = crc_loop 0xFFFF bytes

-- Writes the two bytes behind the first `data_len` of `buf`.
unfoldable pub crc16_append : List ℕ → ℕ → List ℕ
unfolding crc16_ccitt
crc16_append buf data_len =
    let crc = crc16_ccitt (take data_len buf) in
    set (set buf data_len (u8 (crc / 2 ^ 8))) (data_len + 1) (u8 crc)

unfoldable pub crc16_validate : List ℕ → ℕ → Bool
unfolding crc16_ccitt
crc16_validate buf total_len =
    if ltb total_len 2
    then false
    else (let data_len = total_len - 2 in
        crc16_ccitt (take data_len buf)
        == of_be16 (get_or buf data_len 0) (get_or buf (data_len + 1) 0))
