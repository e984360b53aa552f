-- ===== src/Host/Sound/Rounds.antt =====
-- A round of the host's loop keeps it sound, and so does every run of it.
use lifi_auth.Common.{◌<◌, ◌^◌, ℕ, zero, suc, ◌≤◌, ◌≡◌, ◌||◌, if_both, if◌then◌else◌}
use lifi_auth.Common.{some, List, [], ◌∷◌, ◌==◌, ltb, arith}
use lifi_auth.Common.{option_both, Option-cases, inl, inr}
use lifi_auth.Crypto.{Mbedtls}
use lifi_auth.Receiver.{Outcome, length_timeout, bad_length, read_fail, crc_mismatch}
use lifi_auth.Receiver.{nonce_replayed, no_key, decrypt_failed, text, receive_packet}
use lifi_auth.Receiver.Counts.{receive_packet-IsSoundRx}
use lifi_auth.Uart.{Poll, ready}
use lifi_auth.Host.{Host, Sst}
use lifi_auth.Host.Handshake.{check_hs2}
use lifi_auth.Host.Keyboard.{Key, press}
use lifi_auth.Host.Packets.{
  take_input, count_packet, read_packet, connect, handle_key_id, handle_hs2, skip_unknown,
}
use lifi_auth.Host.Step.{check_timeout, deliver, handle_type, host_byte, read_byte, host_step}
use lifi_auth.Host.Texts.{react}
use lifi_auth.Host.Sound.{IsSound, IsSound-more, IsSound-later}
use lifi_auth.Host.Sound.Parts.{check_hs2-IsSound}
use lifi_auth.Host.Sound.Reactions.{
  preamble_step-range, IsSoundIfAny, some-IsSound, expire-IsSound, react-IsSound, press-IsSound,
}
use lifi_auth.Host.Sound.Reactions.{connect-IsSound}

take_input-IsSound :
    (n now : ℕ) (ps : List Poll) (h : Host) → IsSound n now h → IsSound n now (take_input ps h)
take_input-IsSound n now ps h s = record {
  rx = record { window = s.rx.window; counts = s.rx.counts; within = s.rx.within; key = s.rx.key };
  preamble = s.preamble;
  wait = s.wait;
}

module _ (n now : ℕ) (few : suc n < 2 ^ 64) (sst : Sst) (m : Mbedtls) (polls_ms : ℕ → ℕ) where
  count_packet-IsSound : (h : Host) → IsSound n now h → IsSound (suc n) now (count_packet h)
  count_packet-IsSound h s = record {
    rx = record {
      window = s.rx.window;
      counts = omega (arith, few, s.rx.counts, s.rx.within);
      within = omega (arith, few, s.rx.within);
      key = s.rx.key;
    };
    preamble = s.preamble;
    wait = s.wait;
  }

  handle_key_id-IsSound :
      (stack : List ℕ) (h : Host)
      → IsSound n now h
      → IsSound (suc n) now (handle_key_id m polls_ms sst now stack h)
  unfolding handle_key_id
  handle_key_id-IsSound stack h s =
      let got = read_packet m polls_ms 0x07 (λ len. ltb len 65) 100 h.rx.input in
      let h' = take_input got.1 (count_packet h) in
      let t : IsSound (suc n) now h' =
        take_input-IsSound (suc n) now got.1 _ (count_packet-IsSound h s) in
      option_both (IsSound (suc n) now) got.0 h'
        (λ payload. connect m polls_ms sst now stack payload h') t
        (λ payload. connect-IsSound (suc n) now sst m polls_ms stack payload h' t)

  handle_hs2-IsSound :
      (h : Host) → IsSound n now h → IsSound (suc n) now (handle_hs2 m polls_ms sst h)
  unfolding handle_hs2
  handle_hs2-IsSound h s =
      let got = read_packet m polls_ms 0x09 (λ len. len == 80) 200 h.rx.input in
      let h' = take_input got.1 (count_packet h) in
      let t : IsSound (suc n) now h' =
        take_input-IsSound (suc n) now got.1 _ (count_packet-IsSound h s) in
      option_both (IsSound (suc n) now) got.0 h' (λ payload. check_hs2 sst payload h') t
        (λ payload. check_hs2-IsSound (suc n) now sst payload h' t)

  deliver-IsSound :
      (wall : ℕ) (o : Outcome) (h : Host)
      → IsSound (suc n) now h
      → IsSound (suc n) now (deliver m polls_ms sst now wall o h)
  unfolding deliver
  deliver-IsSound wall (text type plain) h s =
      if_both (IsSound (suc n) now) (type == 0x06) h (react sst now wall plain h) s
        (react-IsSound (suc n) now sst wall plain h s)
  deliver-IsSound wall length_timeout h s = s
  deliver-IsSound wall bad_length h s = s
  deliver-IsSound wall read_fail h s = s
  deliver-IsSound wall crc_mismatch h s = s
  deliver-IsSound wall nonce_replayed h s = s
  deliver-IsSound wall no_key h s = s
  deliver-IsSound wall decrypt_failed h s = s

  handle_type-IsSound :
      (wall : ℕ) (stack : List ℕ) (type : ℕ) (h : Host)
      → IsSound n now h
      → IsSound (suc n) now (handle_type m polls_ms sst now wall stack type h)
  unfolding handle_type
  handle_type-IsSound wall stack type h s =
      let packet = receive_packet m polls_ms type h.rx in
      let received : Host = record h { rx = packet.1 } in
      let read : Host = deliver m polls_ms sst now wall packet.0 received in
      let skipped : Host = take_input (skip_unknown m polls_ms 15 h.rx.input) h in
      let rest : Host = if (type == 0x02) || (type == 0x06) then read else skipped in
      let hs2 : Host = handle_hs2 m polls_ms sst h in
      if_both (IsSound (suc n) now) (type == 0x07) (handle_key_id m polls_ms sst now stack h)
        (if type == 0x09 then hs2 else rest) (handle_key_id-IsSound stack h s)
        (if_both (IsSound (suc n) now) (type == 0x09) hs2 rest (handle_hs2-IsSound h s) (
          if_both (IsSound (suc n) now) ((type == 0x02) || (type == 0x06)) read skipped
            (deliver-IsSound wall packet.0 received (record {
              rx = receive_packet-IsSoundRx m polls_ms h.rep_key_valid type n h.rx few s.rx;
              preamble = s.preamble;
              wait = s.wait;
            }))
            (take_input-IsSound (suc n) now (skip_unknown m polls_ms 15 h.rx.input) h
              (IsSound-more n now h s))))

  host_byte-IsSound :
      (wall : ℕ) (stack : List ℕ) (state byte : ℕ) (h : Host)
      → IsSound n now h
      → IsSound (suc n) now (host_byte m polls_ms sst now wall stack state byte h)
  unfolding host_byte
  host_byte-IsSound wall stack (suc (suc (suc (suc n)))) byte h s =
      let t = handle_type-IsSound wall stack byte h s in
      record { rx = t.rx; preamble = omega arith; wait = t.wait }
  host_byte-IsSound wall stack zero byte h s = record {
    rx = (IsSound-more n now h s).rx;
    preamble = preamble_step-range 0 byte;
    wait = s.wait;
  }
  host_byte-IsSound wall stack (suc zero) byte h s = record {
    rx = (IsSound-more n now h s).rx;
    preamble = preamble_step-range 1 byte;
    wait = s.wait;
  }
  host_byte-IsSound wall stack (suc (suc zero)) byte h s = record {
    rx = (IsSound-more n now h s).rx;
    preamble = preamble_step-range 2 byte;
    wait = s.wait;
  }
  host_byte-IsSound wall stack (suc (suc (suc zero))) byte h s = record {
    rx = (IsSound-more n now h s).rx;
    preamble = preamble_step-range 3 byte;
    wait = s.wait;
  }

  read_byte-IsSound :
      (wall : ℕ) (stack : List ℕ) (ps : List Poll) (h : Host)
      → IsSound n now h
      → IsSound (suc n) now (read_byte m polls_ms sst now wall stack ps h)
  unfolding read_byte
  read_byte-IsSound wall stack [] h s = IsSound-more n now h s
  read_byte-IsSound wall stack (Poll.idle ∷ ps) h s =
      take_input-IsSound (suc n) now ps h (IsSound-more n now h s)
  read_byte-IsSound wall stack (ready b ∷ ps) h s =
      host_byte-IsSound wall stack h.uart_state b (take_input ps h)
        (take_input-IsSound n now ps h s)

  host_step-IsSound :
      (wall : ℕ) (stack : List ℕ) (key : Key) (h : Host)
      → IsSound n now h
      → IsSoundIfAny (suc n) now (host_step m polls_ms sst now wall stack key h)
  unfolding host_step check_timeout
  host_step-IsSound wall stack key h s = elim (Option-cases (press sst now key h)) [
    | inl ended ↦ rw (ended, host_step) (λ h' done. cc)
    | inr (h₁, pressed) ↦
        let h₂ = check_timeout now h₁ in
        let t : IsSound n now h₂ =
          expire-IsSound n now h₁.state h₁ (press-IsSound n now sst key h s h₁ pressed) in
        rw (pressed, host_step)
          (some-IsSound (suc n) now _ (
            if_both (IsSound (suc n) now) h₂.port_open
              (read_byte m polls_ms sst now wall stack h₂.rx.input h₂) h₂
              (read_byte-IsSound wall stack h₂.rx.input h₂ t) (IsSound-more n now h₂ t)))
  ]

-- A run of the loop: so many rounds in a row, at times that do not go back, with any keys and any answers
-- of the wall clock.
pub data Run (m : Mbedtls) (polls_ms : ℕ → ℕ) (sst : Sst) (start : ℕ) (h : Host)
    : ℕ → ℕ → Host → Type 0 where
  begin : Run m polls_ms sst start h 0 start h
  round :
      {n last : ℕ} {h' h'' : Host} (now wall : ℕ) (stack : List ℕ) (key : Key)
      → Run m polls_ms sst start h n last h'
      → last ≤ now
      → host_step m polls_ms sst now wall stack key h' ≡ some h''
      → Run m polls_ms sst start h (suc n) now h''

module _ (m : Mbedtls) (polls_ms : ℕ → ℕ) (sst : Sst) where
  -- If the host is sound when its loop starts, then it is after fewer than 2 ^ 64 rounds, at times
  -- that do not go back and whatever is typed, arrives and is answered by Auth.
  pub Run-IsSound :
      (start : ℕ) (h : Host)
      → IsSound 0 start h
      → (n now : ℕ) (h' : Host) → n < 2 ^ 64
      → Run m polls_ms sst start h n now h'
      → IsSound n now h'
  Run-IsSound start h s n now h' few begin = s
  Run-IsSound start h s n now h' few
        (round {n = k} {last} {h' = before} _ wall stack key rounds order step) =
      let earlier : IsSound k last before =
        Run-IsSound start h s k last before (omega (arith, few)) rounds in
      host_step-IsSound k now few sst m polls_ms wall stack key before
        (IsSound-later k last now before order earlier) h' step
