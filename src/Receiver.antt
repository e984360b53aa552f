-- ===== src/Receiver.antt =====
-- receiver/src/dash_receiver.c: how `main` finds a packet in the bytes of the serial port, and what
-- it does with a packet of type `MSG_TYPE_ENCRYPTED` or `MSG_TYPE_FILE` up to its plain text.
pub mod Laws
pub mod Delivery
pub mod Counts
use lifi_auth.Common.{u64}
use lifi_auth.Common.{
  ℕ, zero, suc, ◌+◌, ◌-◌, ◌/◌, Bool, true, false, ◌&&◌, ◌||◌, Option, some, none,
}
use lifi_auth.Common.{List, [], ◌∷◌, ◌++◌, length, if◌then◌else◌, ◌==◌, ltb, of_be16, get_or}
use lifi_auth.Crc.{crc16_ccitt}
use lifi_auth.Crypto.{Mbedtls, sst_decrypt_gcm}
use lifi_auth.ReplayWindow.{Window, replay_window_seen, replay_window_add}
use lifi_auth.Uart.{Poll, idle, ready, uart_read_blocking_timeout}

-- `stats`, as far as packets change it: counters of type `unsigned long`.
pub record Stats : Type 0 where
  pub total_pkts : ℕ
  pub decrypt_success : ℕ
  pub decrypt_fail : ℕ
  pub replay_blocked : ℕ

-- The variables of `main` that a packet of text touches, and what is left of the input.
pub record Receiver : Type 0 where
  pub cipher_key : List ℕ
  pub key_valid : Bool
  pub rwin : Window
  pub stats : Stats
  pub input : List Poll

-- What became of a packet.
pub data Outcome : Type 0 where
  length_timeout bad_length read_fail crc_mismatch nonce_replayed no_key decrypt_failed : Outcome
  -- The packet's type and its decrypted bytes.
  text : ℕ → List ℕ → Outcome

-- The cases 0 to 3 of `uart_state`: the next state after a byte.
unfoldable pub preamble_step : ℕ → ℕ → ℕ
preamble_step zero byte = if byte == 0xAB then 1 else 0
preamble_step (suc zero) byte = if byte == 0xCD then 2 else if byte == 0xAB then 1 else 0
preamble_step (suc (suc zero)) byte = if byte == 0xEF then 3 else if byte == 0xAB then 1 else 0
preamble_step (suc (suc (suc n))) byte = if byte == 0x12 then 4 else if byte == 0xAB then 1 else 0

-- The main loop from `uart_state` on, up to the type byte that follows a preamble, and the input
-- behind it.
unfoldable pub find_packet : ℕ → List Poll → Option (ℕ × List Poll)
find_packet state [] = none
find_packet state (idle ∷ ps) = find_packet state ps
find_packet zero (ready b ∷ ps) = find_packet (preamble_step 0 b) ps
find_packet (suc zero) (ready b ∷ ps) = find_packet (preamble_step 1 b) ps
find_packet (suc (suc zero)) (ready b ∷ ps) = find_packet (preamble_step 2 b) ps
find_packet (suc (suc (suc zero))) (ready b ∷ ps) = find_packet (preamble_step 3 b) ps
find_packet (suc (suc (suc (suc n)))) (ready b ∷ ps) = some (b, ps)

module _ (m : Mbedtls) (polls_ms : ℕ → ℕ) where
  -- So many bytes within so many milliseconds, in which the port is asked `polls_ms` times.
  unfoldable pub read_exact_timeout : ℕ → ℕ → List Poll → Option (List ℕ) × List Poll
  read_exact_timeout len timeout_ms ps = uart_read_blocking_timeout (polls_ms timeout_ms) len ps

  -- From the decryption on.
  unfoldable pub decrypt_packet : ℕ → List ℕ → List ℕ → List ℕ → Receiver → Outcome × Receiver
  decrypt_packet type nonce ciphertext tag r =
      elim (sst_decrypt_gcm m r.cipher_key nonce ciphertext tag) [
        | some plain ↦ (
          text type plain,
          record r {
            stats = record (r.stats) { decrypt_success = u64 (r.stats.decrypt_success + 1) };
          },
        )
        | none ↦ (
          decrypt_failed,
          record r { stats = record (r.stats) { decrypt_fail = u64 (r.stats.decrypt_fail + 1) } },
        )
      ]

  -- From the checksum on: the bytes of the length, the nonce, the ciphertext, the tag and the
  -- checksum that was received.
  unfoldable pub check_packet :
      ℕ → List ℕ → List ℕ → List ℕ → List ℕ → List ℕ → Receiver → Outcome × Receiver
  check_packet type len_bytes nonce ciphertext tag crc_bytes r =
      let computed = crc16_ccitt (type ∷ (len_bytes ++ (nonce ++ (ciphertext ++ tag)))) in
      let added = record r { rwin = replay_window_add r.rwin nonce } in
      if computed == of_be16 (get_or crc_bytes 0 0) (get_or crc_bytes 1 0)
      then if replay_window_seen r.rwin nonce
        then (
          nonce_replayed,
          record r {
            stats = record (r.stats) { replay_blocked = u64 (r.stats.replay_blocked + 1) };
          },
        )
        else if r.key_valid
        then decrypt_packet type nonce ciphertext tag added
        else (no_key, added)
      else (
        crc_mismatch,
        record r { stats = record (r.stats) { decrypt_fail = u64 (r.stats.decrypt_fail + 1) } },
      )

  unfoldable pub check_parts :
      ℕ
      → List ℕ
      → Option (List ℕ)
      → Option (List ℕ)
      → Option (List ℕ)
      → Option (List ℕ)
      → Receiver
      → Outcome × Receiver
  check_parts type len_bytes (some nonce) (some ciphertext) (some tag) (some crc_bytes) r =
      check_packet type len_bytes nonce ciphertext tag crc_bytes r
  check_parts type len_bytes _ _ _ _ r = (read_fail, r)

  -- The four reads behind the length, all made whether or not one of them fails.
  unfoldable pub read_parts : ℕ → List ℕ → ℕ → Receiver → Outcome × Receiver
  read_parts type len_bytes ctext_len r =
      let (nonce, ps₁) = read_exact_timeout 12 200 r.input in
      let (ciphertext, ps₂) = read_exact_timeout ctext_len (200 + ctext_len / 10) ps₁ in
      let (tag, ps₃) = read_exact_timeout 16 200 ps₂ in
      let (crc_bytes, ps₄) = read_exact_timeout 2 200 ps₃ in
      check_parts type len_bytes nonce ciphertext tag crc_bytes (record r { input = ps₄ })

  -- A packet of one of the two types, from the byte behind the type on.
  unfoldable pub receive_packet : ℕ → Receiver → Outcome × Receiver
  receive_packet type r =
      let (got, ps) = read_exact_timeout 2 100 r.input in
      let r' = record r {
        input = ps;
        stats = record (r.stats) { total_pkts = u64 (r.stats.total_pkts + 1) };
      } in
      elim got [
        | none ↦ (length_timeout, r')
        | some len_bytes ↦
            let payload_len = of_be16 (get_or len_bytes 0 0) (get_or len_bytes 1 0) in
            if ltb payload_len 28 || ltb 8192 payload_len
            then (bad_length, r')
            else read_parts type len_bytes (payload_len - 28) r'
      ]
