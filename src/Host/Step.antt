-- ===== src/Host/Step.antt =====
-- receiver/src/dash_receiver.c: one round of the loop of `main`: a key, the deadline of the state,
-- and a byte.
use lifi_auth.Common.{u64}
use lifi_auth.Common.{ℕ, suc, ◌+◌, ◌||◌, Option, some, none, List, [], ◌∷◌}
use lifi_auth.Common.{if◌then◌else◌, ◌==◌, leb, zeros}
use lifi_auth.Crypto.{Mbedtls}
use lifi_auth.Receiver.{Outcome, length_timeout, bad_length, read_fail, crc_mismatch}
use lifi_auth.Receiver.{nonce_replayed, no_key, decrypt_failed, text, preamble_step, receive_packet}
use lifi_auth.Uart.{Poll, ready}
use lifi_auth.Host.{
  Host, HostState, idle, waiting_for_yes, waiting_for_ack, waiting_for_sst_hs2, Sst,
}
use lifi_auth.Host.Keyboard.{Key, press}
use lifi_auth.Host.Packets.{take_input, handle_key_id, handle_hs2, skip_unknown}
use lifi_auth.Host.Texts.{react}

-- What a state that is left by its deadline forgets.
unfoldable pub forget : HostState → Host → Host
forget idle h = h
forget waiting_for_yes h = h
forget waiting_for_ack h = record h { pending_key = zeros 32 }
forget waiting_for_sst_hs2 h = record h { timeouts = u64 (h.timeouts + 1); entity_nonce = zeros 8 }

-- The end of a wait. In the idle state the deadline says nothing.
unfoldable pub expire : HostState → ℕ → Host → Host
expire idle now h = h
expire waiting now h =
    let left = record (forget waiting h) { state = idle; state_deadline = 0 } in
    if leb h.state_deadline now then left else h

unfoldable pub check_timeout : ℕ → Host → Host
check_timeout now h = expire h.state now h

module _ (m : Mbedtls) (polls_ms : ℕ → ℕ) (sst : Sst) where
  -- A text reacts, a file is only written.
  unfoldable pub deliver : ℕ → ℕ → Outcome → Host → Host
  deliver now wall (text type plain) h = if type == 0x06 then h else react sst now wall plain h
  deliver now wall length_timeout h = h
  deliver now wall bad_length h = h
  deliver now wall read_fail h = h
  deliver now wall crc_mismatch h = h
  deliver now wall nonce_replayed h = h
  deliver now wall no_key h = h
  deliver now wall decrypt_failed h = h

  -- The byte behind a preamble: the type of a packet.
  unfoldable pub handle_type : ℕ → ℕ → List ℕ → ℕ → Host → Host
  handle_type now wall stack type h =
      if type == 0x07
      then handle_key_id m polls_ms sst now stack h
      else if type == 0x09
      then handle_hs2 m polls_ms sst h
      else if (type == 0x02) || (type == 0x06)
      then (let (outcome, rx') = receive_packet m polls_ms type h.rx in
          deliver now wall outcome (record h { rx = rx' }))
      else take_input (skip_unknown m polls_ms 15 h.rx.input) h

  -- `switch (uart_state)`.
  unfoldable pub host_byte : ℕ → ℕ → List ℕ → ℕ → ℕ → Host → Host
  host_byte now wall stack (suc (suc (suc (suc n)))) byte h =
      record (handle_type now wall stack byte h) { uart_state = 0 }
  host_byte now wall stack state byte h = record h { uart_state = preamble_step state byte }

  -- One byte, if there is one.
  unfoldable pub read_byte : ℕ → ℕ → List ℕ → List Poll → Host → Host
  read_byte now wall stack [] h = h
  read_byte now wall stack (Poll.idle ∷ ps) h = take_input ps h
  read_byte now wall stack (ready b ∷ ps) h =
      host_byte now wall stack h.uart_state b (take_input ps h)

  -- One round, with the times of the two clocks and the key that is pressed. `none`: the end.
  unfoldable pub host_step : ℕ → ℕ → List ℕ → Key → Host → Option Host
  host_step now wall stack key h = elim (press sst now key h) [
    | none ↦ none
    | some h₁ ↦
        let h₂ = check_timeout now h₁ in
        some (if h₂.port_open then read_byte now wall stack h₂.rx.input h₂ else h₂)
  ]
