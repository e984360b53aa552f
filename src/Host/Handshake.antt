-- ===== src/Host/Handshake.antt =====
-- receiver/src/dash_receiver.c: the host's side of the handshake.
use lifi_auth.Common.{
  ℕ, ◌+◌, Bool, true, false, some, none, List, length, zeros, ◌==◌, if◌then◌else◌,
}
use lifi_auth.Host.{
  Host, HostState, idle, waiting_for_yes, waiting_for_ack, waiting_for_sst_hs2, Sst, s_key,
}
use lifi_auth.Host.{wait_time}
use lifi_auth.Host.Port.{header, write_both, port_write}

abbrev pub is_idle : HostState → Bool
is_idle idle = true
is_idle waiting_for_yes = false
is_idle waiting_for_ack = false
is_idle waiting_for_sst_hs2 = false

abbrev pub is_waiting_for_ack : HostState → Bool
is_waiting_for_ack idle = false
is_waiting_for_ack waiting_for_yes = false
is_waiting_for_ack waiting_for_ack = true
is_waiting_for_ack waiting_for_sst_hs2 = false

abbrev pub is_waiting_for_hs2 : HostState → Bool
is_waiting_for_hs2 idle = false
is_waiting_for_hs2 waiting_for_yes = false
is_waiting_for_hs2 waiting_for_ack = false
is_waiting_for_hs2 waiting_for_sst_hs2 = true

abbrev pub called : Host → Host
called h = record h { calls = h.calls + 1 }

-- The first message is made and written, and the wait for the second begins.
unfoldable pub send_hs1 : ℕ → List ℕ → List ℕ → Host → Host
send_hs1 now nonce hs1 h =
    let (ok, h') = write_both (header 0x08 72) hs1 (record h { entity_nonce = nonce }) in
    if length hs1 == 72
    then if ok
      then record h' { state = waiting_for_sst_hs2; state_deadline = now + wait_time }
      else record h' { entity_nonce = zeros 8 }
    else record h { entity_nonce = nonce }

unfoldable pub start_handshake : Sst → ℕ → Host → Host
start_handshake sst now h = elim (sst.parse_handshake_1 h.calls (s_key h)) [
  | none ↦ called h
  | some (nonce, hs1) ↦ send_hs1 now nonce hs1 (called h)
]

-- The third message, if it has its length; whether it could be written is not looked at.
unfoldable pub send_hs3 : List ℕ → Host → Host
send_hs3 hs3 h =
    let h' = (port_write hs3 (port_write (header 0x0A 80) h).1).1 in
    if length hs3 == 80 then h' else h

-- The nonce is forgotten, and the wait is over.
abbrev pub end_handshake : Host → Host
end_handshake h = record h { entity_nonce = zeros 8; state = idle; state_deadline = 0 }

-- A second message whose checksum is right.
unfoldable pub check_hs2 : Sst → List ℕ → Host → Host
check_hs2 sst payload h =
    let answer = sst.check_handshake_2_send_handshake_3 h.calls payload h.entity_nonce (s_key h) in
    let checked : Host = elim answer [ some hs3 ↦ send_hs3 hs3 (called h) | none ↦ called h ] in
    if is_waiting_for_hs2 h.state then end_handshake checked else h
