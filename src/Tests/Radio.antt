-- ===== src/Tests/Radio.antt =====
-- The theorems on frames, nonces and received bytes at concrete inputs.
use lifi_auth.Common.{
  ℕ, ◌≡◌, refl, arith, true, false, ◌||◌, ◌&&◌, some, [], ◌∷◌, ◌++◌, List, IsByte, All,
}
use lifi_auth.Common.{zeros, ◌==◌, ltb, length, take, set, get_or, ◌+◌, ◌^◌, ◌≤◌, ◌≢◌, replicate}
use mathlib.Core.List.{reverse}
use lifi_auth.Crc.{crc_bit, crc_bits, crc_byte, crc_loop, crc16_ccitt, crc16_append, crc16_validate}
use lifi_auth.Crc.Laws.{crc16_validate-append}
use lifi_auth.Crc.Detect.{crc16_validate-set}
use lifi_auth.ReplayWindow.{replay_window_init, replay_window_seen}
use lifi_auth.ReplayWindow.Recent.{nonce_bytes, contains}
use lifi_auth.ReplayWindow.Laws.{add_all, seen-add_all}
use lifi_auth.Nonce.{NonceState}
use lifi_auth.Nonce.Laws.{IsDistinct, generate_all, numbered, pico_nonce_generate-IsDistinct}
use lifi_auth.Uart.{ready, idle, receive_new_key_with_timeout, uart_read_blocking_timeout}
use lifi_auth.Uart.Laws.{arriving, read-arriving, receive_new_key-arriving}
use lifi_auth.Tests.Platform.{id_1, key_1}

abbrev frame : List ℕ
frame = 7 ∷ 200 ∷ 0 ∷ 0 ∷ []

abbrev sealed : List ℕ
sealed = crc16_append frame 2

crc16_validate-append_example :
    (crc16_validate (crc16_append frame 2) (2 + 2) ≡ true)
    × (take 2 (crc16_append frame 2) ≡ take 2 frame)
crc16_validate-append_example = crc16_validate-append frame 2 (omega arith) (omega arith)

sealed-bytes : All IsByte sealed
unfolding crc16_append crc16_ccitt crc_loop crc_byte crc_bits crc_bit
sealed-bytes = omega arith

sealed-size : 2 + 2 ≤ length sealed
unfolding crc16_append
sealed-size = omega arith

sealed-first : 8 ≢ get_or sealed 0 0
unfolding crc16_append crc16_ccitt crc_loop crc_byte crc_bits crc_bit
sealed-first = omega arith

crc16_validate-set_example : crc16_validate (set sealed 0 8) (2 + 2) ≡ false
crc16_validate-set_example =
    crc16_validate-set sealed 2 0 8 sealed-bytes (omega arith) (omega arith) sealed-size
      sealed-first crc16_validate-append_example.0

abbrev nonce_7 : List ℕ
nonce_7 = 7 ∷ zeros 11

seen-add_all_example :
    replay_window_seen
      (add_all (replay_window_init (replicate 2 (zeros 12)) nonce_bytes 2) (nonce_7 ∷ []))
      nonce_7
    ≡ contains (take 2 (reverse (nonce_7 ∷ []) ++ replicate 2 (zeros nonce_bytes))) nonce_7
seen-add_all_example =
    seen-add_all (replicate 2 (zeros 12)) 2 (nonce_7 ∷ []) nonce_7 (refl, (refl, tt)) (omega arith)
      (omega arith) (refl, tt) refl

abbrev salted : NonceState
salted = record { boot_salt = id_1; msg_counter = 255; rebooting = false }

pico_nonce_generate-IsDistinct_example :
    IsDistinct (generate_all 3 salted).0
    × ((generate_all 3 salted).0 ≡ numbered salted.boot_salt salted.msg_counter 3)
    × ((generate_all 3 salted).1.rebooting
        ≡ (salted.rebooting || (ltb 0 3 && (salted.msg_counter + 3 == 2 ^ 32))))
pico_nonce_generate-IsDistinct_example =
    pico_nonce_generate-IsDistinct 3 salted (omega arith) (omega arith)

read-arriving_example :
    uart_read_blocking_timeout 20 (length id_1) (arriving id_1 ++ (ready 9 ∷ []))
    ≡ (some id_1, ready 9 ∷ [])
read-arriving_example = read-arriving 20 id_1 (ready 9 ∷ []) (omega arith)

receive_new_key-arriving_example :
    receive_new_key_with_timeout 30 (arriving (0xAB ∷ 0xCD ∷ (id_1 ++ key_1)) ++ (idle ∷ []))
    ≡ (some (id_1, key_1), idle ∷ [])
receive_new_key-arriving_example =
    receive_new_key-arriving 30 id_1 key_1 (idle ∷ []) refl refl (omega arith)
