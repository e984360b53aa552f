-- ===== src/Host/Packets.antt =====
-- receiver/src/dash_receiver.c: packets with a key ID and with the second handshake message, and
-- the bytes behind a type that is none of the protocol's.
use lifi_auth.Common.{u64}
use lifi_auth.Common.{ℕ, zero, suc, ◌+◌, Bool, ◌&&◌, Option, some, none, List, ◌∷◌, ◌++◌}
use lifi_auth.Common.{take, get_or, of_be16, ◌==◌, ltb, if◌then◌else◌}
use lifi_auth.Crc.{crc16_ccitt}
use lifi_auth.Crypto.{Mbedtls}
use lifi_auth.Receiver.{read_exact_timeout}
use lifi_auth.Uart.{Poll}
use lifi_auth.Host.{Host, Sst, use_key, sync_reporter}
use lifi_auth.Host.Handshake.{is_idle, called, start_handshake, check_hs2}

abbrev pub take_input : List Poll → Host → Host
take_input ps h = record h { rx = record (h.rx) { input = ps } }

abbrev pub count_packet : Host → Host
count_packet h = record h {
  rx = record (h.rx) {
    stats = record (h.rx.stats) { total_pkts = u64 (h.rx.stats.total_pkts + 1) };
  };
}

-- The checksum over type, length and payload is the one that was received.
unfoldable pub crc_matches : ℕ → List ℕ → List ℕ → List ℕ → Bool
crc_matches type len_bytes payload crc_bytes =
    crc16_ccitt (type ∷ (len_bytes ++ payload))
    == of_be16 (get_or crc_bytes 0 0) (get_or crc_bytes 1 0)

module _ (m : Mbedtls) (polls_ms : ℕ → ℕ) where
  -- Length, payload and checksum of such a packet, if the length is one that is wanted, with the
  -- times that the payload is given. A read is made only if those before it were good.
  unfoldable pub read_packet : ℕ → (ℕ → Bool) → ℕ → List Poll → Option (List ℕ) × List Poll
  read_packet type wanted timeout_ms ps =
      let (len_bytes, ps₁) = read_exact_timeout m polls_ms 2 100 ps in
      elim len_bytes [
        | none ↦ (none, ps₁)
        | some len ↦
            let payload_len = of_be16 (get_or len 0 0) (get_or len 1 0) in
            let (payload, ps₂) = read_exact_timeout m polls_ms payload_len timeout_ms ps₁ in
            let (crc, ps₃) = read_exact_timeout m polls_ms 2 100 ps₂ in
            if wanted payload_len
            then (elim payload [
              | none ↦ (none, ps₂)
              | some bytes ↦ elim crc [
                | none ↦ (none, ps₃)
                | some crc_bytes ↦
                    (if crc_matches type len bytes crc_bytes then some bytes else none, ps₃)
              ]
            ])
            else (none, ps₁)
      ]

  -- The key of that ID, from the list or from Auth, is used and shown, and a handshake begins.
  -- `stack` is what lies behind the payload in memory: eight bytes are copied whatever its length.
  unfoldable pub connect : Sst → ℕ → List ℕ → List ℕ → Host → Host
  connect sst now stack payload h =
      let id = take 8 (payload ++ stack) in
      elim (sst.get_session_key_by_id h.calls id) [
        | none ↦ called h
        | some k ↦
            let h' = sync_reporter k (use_key k (called h)) in
            let started = start_handshake sst now h' in
            if h.port_open && is_idle h.state then started else h'
      ]

  -- Type `MSG_TYPE_KEY_ID_ONLY`.
  unfoldable pub handle_key_id : Sst → ℕ → List ℕ → Host → Host
  handle_key_id sst now stack h =
      let (got, ps) = read_packet 0x07 (λ len. ltb len 65) 100 h.rx.input in
      let h' = take_input ps (count_packet h) in
      elim got [ some payload ↦ connect sst now stack payload h' | none ↦ h' ]

  -- Type `MSG_TYPE_SST_HS2`.
  unfoldable pub handle_hs2 : Sst → Host → Host
  handle_hs2 sst h =
      let (got, ps) = read_packet 0x09 (λ len. len == 80) 200 h.rx.input in
      let h' = take_input ps (count_packet h) in
      elim got [ some payload ↦ check_hs2 sst payload h' | none ↦ h' ]

  -- Any other type: up to 15 more bytes are read, for the log.
  unfoldable pub skip_unknown : ℕ → List Poll → List Poll
  skip_unknown zero ps = ps
  skip_unknown (suc left) ps =
      let (got, rest) = read_exact_timeout m polls_ms 1 20 ps in
      let more = skip_unknown left rest in elim got [ some bytes ↦ more | none ↦ rest ]
