-- ===== src/Handshake.antt =====
-- sender/src/lifi_session_sender.c: how `main` reads frames from the UART: steps 1 and 3 of the
-- handshake, and a key that the host provisions.
pub mod Auth
pub mod Provision
pub mod Drain
use lifi_auth.Common.{ℕ, zero, suc, ◌+◌, Bool, true, false, ◌&&◌, ◌||◌, Option, some, none}
use lifi_auth.Common.{
  List, ◌∷◌, ◌++◌, take, drop, slice, zeros, get_or, if◌then◌else◌, ◌==◌, ltb, bytes_eq, u8,
}
use lifi_auth.Common.{be16, of_be16, le32}
use lifi_auth.Crc.{crc16_ccitt}
use lifi_auth.Crypto.{
  Mbedtls, sst_hmac_sha256_ex, sst_aes_128_cbc_decrypt, sst_aes_128_cbc_encrypt_pkcs7,
}
use lifi_auth.Flash.{pico_write_key_to_slot, store_last_used_slot}
use lifi_auth.Flash.Device.{FlashDevice}
use lifi_auth.KeyRam.{keyram_set_with_id}
use lifi_auth.Nonce.{pico_nonce_on_key_change}
use lifi_auth.Pico.{Env, Pico, pico_reboot}
use lifi_auth.Sender.{lifi_send_byte, lifi_send_bytes, send_preamble}
use lifi_auth.Uart.{Poll, uart_read_blocking_timeout, flush}

-- The cases 0 to 3 of `challenge_state`: the next state after a byte.
unfoldable pub challenge_step : ℕ → ℕ → ℕ
challenge_step zero byte = if byte == 0xAB then 1 else 0
challenge_step (suc zero) byte = if byte == 0xCD then 2 else if byte == 0xAB then 1 else 0
challenge_step (suc (suc zero)) byte = if byte == 0xEF then 3 else if byte == 0xAB then 1 else 0
challenge_step (suc (suc (suc n))) byte = if byte == 0x12 then 4 else if byte == 0xAB then 1 else 0

module _ (d : FlashDevice) (m : Mbedtls) (e : Env) where
  -- So many bytes within so many microseconds.
  unfoldable pub read_uart : ℕ → ℕ → Pico d → Option (List ℕ) × Pico d
  read_uart len us p =
      let (got, rest) = uart_read_blocking_timeout (e.polls us) len p.uart in
      (got, record p { uart = rest })

  unfoldable pub flush_uart : Pico d → Pico d
  flush_uart p = record p { uart = flush p.uart }

  -- The code is computed and is the one that was received.
  unfoldable pub mac_ok : List ℕ → List ℕ → List ℕ → Bool
  mac_ok key covered received = elim (sst_hmac_sha256_ex m key 32 covered) [
    | some computed ↦ bytes_eq computed received
    | none ↦ false
  ]

  -- Steps 5 to 10: the answer to the nonce of the host.
  unfoldable pub send_hs2 : List ℕ → Pico d → Pico d
  send_hs2 entity_nonce p =
      let pico_nonce = le32 (e.rand_32 p.words) ++ le32 (e.rand_32 (p.words + 1)) in
      let iv2 =
        le32 (e.rand_32 (p.words + 2))
        ++ (le32 (e.rand_32 (p.words + 3))
            ++ (le32 (e.rand_32 (p.words + 4)) ++ le32 (e.rand_32 (p.words + 5)))) in
      let drawn = record p { words = p.words + 6 } in
      elim (sst_aes_128_cbc_encrypt_pkcs7 m p.session_key iv2 (2 ∷ (pico_nonce ++ entity_nonce))) [
        | none ↦ drawn
        | some ctext ↦ elim (sst_hmac_sha256_ex m p.session_mac_key 32 (iv2 ++ ctext)) [
          | none ↦ drawn
          | some mac ↦
              let blob = iv2 ++ (ctext ++ mac) in
              let crc = crc16_ccitt (0x09 ∷ (be16 80 ++ blob)) in
              let head = lifi_send_bytes (be16 80) (lifi_send_byte 0x09 (send_preamble drawn)) in
              record (lifi_send_bytes (be16 crc) (lifi_send_bytes blob head)) {
                saved_pico_nonce = pico_nonce;
              }
        ]
      ]

  -- Steps 1 to 4, on the 72 bytes of the payload.
  unfoldable pub check_hs1 : List ℕ → Pico d → Pico d
  check_hs1 hs1 p =
      let blob = drop 8 hs1 in
      if bytes_eq (take 8 hs1) p.session_key_id
        && mac_ok p.session_mac_key (take 32 blob) (slice 32 32 blob)
      then (elim (sst_aes_128_cbc_decrypt m p.session_key (take 16 blob) (slice 16 16 blob)) [
        | none ↦ p
        | some plain ↦
            let pad = get_or plain 15 0 in
            if ltb pad 1 || ltb 16 pad then p else send_hs2 (slice 1 8 plain) p
      ])
      else p

  -- Type `MSG_TYPE_SST_HS1`.
  unfoldable pub handle_hs1 : Pico d → Pico d
  handle_hs1 p =
      let (len_bytes, p₁) = read_uart 2 50000 p in
      elim len_bytes [
        | none ↦ flush_uart p₁
        | some len ↦
            let (payload, p₂) = read_uart 72 200000 p₁ in
            if of_be16 (get_or len 0 0) (get_or len 1 0) == 72
            then (elim payload [ some hs1 ↦ check_hs1 hs1 p₂ | none ↦ p₂ ])
            else flush_uart p₁
      ]

  -- The 80 bytes of the payload: the LED on GP25 is lit if the host echoes the nonce that was
  -- sent to it, and that nonce is forgotten.
  unfoldable pub check_hs3 : List ℕ → Pico d → Pico d
  check_hs3 hs3 p =
      let wiped = record p { saved_pico_nonce = zeros 8 } in
      if mac_ok p.session_mac_key (take 48 hs3) (slice 48 32 hs3)
      then (elim (sst_aes_128_cbc_decrypt m p.session_key (take 16 hs3) (slice 16 32 hs3)) [
        | none ↦ wiped
        | some plain ↦
            let pad = get_or plain 31 0 in
            let hs3_ok = (ltb 0 pad && ltb pad 17) && (get_or plain 0 0 == 3) in
            record wiped {
              auth_led =
                  if hs3_ok && bytes_eq (slice 9 8 plain) p.saved_pico_nonce
                  then true
                  else p.auth_led;
            }
      ])
      else wiped

  -- Type `MSG_TYPE_SST_HS3`.
  unfoldable pub handle_hs3 : Pico d → Pico d
  handle_hs3 p =
      let (len_bytes, p₁) = read_uart 2 50000 p in
      elim len_bytes [
        | none ↦ p₁
        | some len ↦
            let (payload, p₂) = read_uart 80 200000 p₁ in
            if of_be16 (get_or len 0 0) (get_or len 1 0) == 80
            then (elim payload [ some hs3 ↦ check_hs3 hs3 p₂ | none ↦ p₂ ])
            else p₁
      ]

  -- `pico_nonce_on_key_change` with the bytes of `get_random_bytes`: if there are none, the salt
  -- stays, and a reboot has been asked for.
  unfoldable pub renew_nonce : Pico d → Pico d
  renew_nonce p =
      let p' = record p { draws = p.draws + 1 } in
      elim (e.drbg p.draws 8) [
        | some random ↦ record p' { nonce = pico_nonce_on_key_change random p.nonce }
        | none ↦
            pico_reboot (record p' { nonce = pico_nonce_on_key_change p.nonce.boot_salt p.nonce })
      ]

  -- A key with its ID and its MAC key: it is written to the current slot, and becomes the
  -- effective key.
  unfoldable pub provision : List ℕ → List ℕ → List ℕ → Pico d → Pico d
  provision id key mac_key p =
      let (written, flash') = pico_write_key_to_slot d m p.flash p.current_slot id key in
      if written
      then renew_nonce (record p {
        flash = store_last_used_slot d flash' (u8 p.current_slot);
        keyram = keyram_set_with_id id key p.keyram;
        session_key = key;
        session_key_id = id;
        session_mac_key = mac_key;
      })
      else record p { flash = flash' }

  -- What follows the reads of length, ID, key and MAC key, each with the state after it: the
  -- first that timed out is the last that is made.
  unfoldable pub finish_key :
      Option (List ℕ) × Pico d
      → Option (List ℕ) × Pico d
      → Option (List ℕ) × Pico d
      → Option (List ℕ) × Pico d
      → Pico d
  finish_key (some len, p₁) (some id, p₂) (some key, p₃) (some mac_key, p₄) =
      provision id key mac_key p₄
  finish_key (some len, p₁) (some id, p₂) (some key, p₃) (none, p₄) = flush_uart p₄
  finish_key (some len, p₁) (some id, p₂) (none, p₃) _ = flush_uart p₃
  finish_key (some len, p₁) (none, p₂) _ _ = flush_uart p₂
  finish_key (none, p₁) _ _ _ = flush_uart p₁

  -- Type `MSG_TYPE_KEY`. The length is read and not looked at.
  unfoldable pub handle_key : Pico d → Pico d
  handle_key p =
      let len_bytes = read_uart 2 100000 p in
      let new_id = read_uart 8 100000 len_bytes.1 in
      let new_key = read_uart 16 100000 new_id.1 in
      finish_key len_bytes new_id new_key (read_uart 32 100000 new_key.1)

  -- One byte that is taken from the UART: the switch on `challenge_state`.
  unfoldable pub take_byte : ℕ → ℕ → Pico d → ℕ × Pico d
  take_byte (suc (suc (suc (suc n)))) byte p = (
    0,
    if byte == 0x08
        then handle_hs1 p
        else if byte == 0x0A
        then handle_hs3 p
        else if byte == 0x10
        then handle_key p
        else p,
  )
  take_byte state byte p = (challenge_step state byte, p)
