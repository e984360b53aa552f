-- ===== src/Sender.antt =====
-- sender/src/lifi_session_sender.c: how `main` sends a message or the key ID over light. The
-- bytes that the PIO is given are `lifi`; pauses between them are left out.
pub mod Compress
pub mod Laws
use lifi_auth.Common.{
  ℕ, zero, suc, ◌+◌, Option, some, none, List, [], ◌∷◌, ◌++◌, length, take, drop,
}
use lifi_auth.Common.{if◌then◌else◌, ltb, be16, ◌||◌}
use lifi_auth.Crc.{crc16_ccitt}
use lifi_auth.Crypto.{Mbedtls, sst_encrypt_gcm}
use lifi_auth.Flash.Device.{FlashDevice}
use lifi_auth.KeyRam.{is_key_zeroed}
use lifi_auth.Nonce.{pico_nonce_generate}
use lifi_auth.Pico.{Pico}
use Compress.{Encoder, auto_compress}

-- `MSG_TYPE_ENCRYPTED`, `MSG_TYPE_FILE` and `MSG_TYPE_KEY_ID_ONLY` of include/protocol.h.
abbrev pub msg_type_encrypted : ℕ
msg_type_encrypted = 0x02

abbrev pub msg_type_file : ℕ
msg_type_file = 0x06

abbrev pub msg_type_key_id_only : ℕ
msg_type_key_id_only = 0x07

module _ {d : FlashDevice} where
  unfoldable pub lifi_send_byte : ℕ → Pico d → Pico d
  lifi_send_byte byte p = record p { lifi = p.lifi ++ (byte ∷ []) }

  unfoldable pub lifi_send_bytes : List ℕ → Pico d → Pico d
  lifi_send_bytes [] p = p
  lifi_send_bytes (b ∷ bs) p = lifi_send_bytes bs (lifi_send_byte b p)

  -- `PREAMBLE_BYTE_1` to `PREAMBLE_BYTE_4`.
  unfoldable pub send_preamble : Pico d → Pico d
  send_preamble p =
      lifi_send_byte 0x12 (lifi_send_byte 0xEF (lifi_send_byte 0xCD (lifi_send_byte 0xAB p)))

  -- The loop over chunks of 256 bytes, with a bound on its rounds.
  unfoldable pub send_chunks : ℕ → List ℕ → Pico d → Pico d
  send_chunks zero bytes p = p
  send_chunks (suc rounds) [] p = p
  send_chunks (suc rounds) (b ∷ bs) p =
      send_chunks rounds (drop 256 (b ∷ bs)) (lifi_send_bytes (take 256 (b ∷ bs)) p)

  -- The key ID in plain text.
  unfoldable pub send_id : Pico d → Pico d
  send_id p =
      let payload = take 8 p.session_key_id in
      let len_bytes = be16 8 in
      let crc = crc16_ccitt (msg_type_key_id_only ∷ (len_bytes ++ payload)) in
      let head = lifi_send_byte msg_type_key_id_only (send_preamble p) in
      lifi_send_bytes (be16 crc) (lifi_send_bytes payload (lifi_send_bytes len_bytes head))

  -- The frame of a message whose ciphertext has `msg_len` bytes.
  unfoldable pub send_message : ℕ → ℕ → List ℕ → List ℕ → List ℕ → Pico d → Pico d
  send_message type msg_len nonce ciphertext tag p =
      let text = take msg_len ciphertext in
      let len_bytes = be16 (12 + msg_len + 16) in
      let crc = crc16_ccitt (type ∷ (len_bytes ++ (nonce ++ (text ++ tag)))) in
      let head = lifi_send_bytes len_bytes (lifi_send_byte type (send_preamble p)) in
      let body = send_chunks msg_len text (lifi_send_bytes nonce head) in
      lifi_send_bytes (be16 crc) (lifi_send_bytes tag body)

  module _ (m : Mbedtls) where
    -- From the test of the length to the end of the loop's body.
    unfoldable pub send_text : List ℕ → ℕ → Pico d → Pico d
    send_text message type p =
        let (nonce, state) = pico_nonce_generate p.nonce in
        if ltb 8192 (length message) || is_key_zeroed p.session_key
        then p
        else (elim (sst_encrypt_gcm m p.session_key nonce message) [
          | none ↦ record p { nonce = state }
          | some (ciphertext, tag) ↦
              send_message type (length message) nonce ciphertext tag (record p { nonce = state })
        ])

    -- A line that is no command. `none`: the loop that polls the compressor goes on for ever.
    unfoldable pub transmit : Encoder → List ℕ → Pico d → Option (Pico d)
    transmit c line p = elim (auto_compress c line) [
      | none ↦ none
      | some (message, type) ↦ some (send_text message type p)
    ]
