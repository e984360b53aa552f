-- ===== src/Host/Sound.antt =====
-- What holds of the host after every round of its loop.
pub mod Parts
pub mod Reactions
pub mod Rounds
use lifi_auth.Common.{
  suc, ℕ, ◌+◌, ◌≤◌, ◌≡◌, Bool, true, false, if_both, if◌then◌else◌, List, take, length, ◌==◌, zeros,
  arith,
}
use lifi_auth.Receiver.Counts.{IsSoundRx}
use lifi_auth.Host.{Host, HostState, SessionKey, wait_time, waiting_for_sst_hs2}
use lifi_auth.Host.Handshake.{is_idle, send_hs1, send_hs3}
use lifi_auth.Host.Port.{header, write_both, port_write, send_key, send_key_blindly}

-- After `n` rounds, at a time of the monotonic clock: the receiver is sound and has counted at
-- most `n` packets, the search is in one of its five states, and a wait ends at most five seconds
-- later.
pub record IsSound (n now : ℕ) (h : Host) : Type 0 where
  pub rx : IsSoundRx h.rep_key_valid n 0 h.rx
  pub preamble : h.uart_state ≤ 4
  pub wait : is_idle h.state ≡ false → h.state_deadline ≤ now + wait_time

-- Later it is still so.
pub IsSound-later : (n now later : ℕ) (h : Host) → now ≤ later → IsSound n now h → IsSound n later h
IsSound-later n now later h order s = record {
  rx = s.rx;
  preamble = s.preamble;
  wait = λ busy. (let bound : h.state_deadline ≤ now + wait_time = s.wait busy in omega arith);
}

-- A round in which no packet is counted.
pub IsSound-more : (n now : ℕ) (h : Host) → IsSound n now h → IsSound (suc n) now h
IsSound-more n now h s = record {
  rx = record {
    window = s.rx.window;
    counts = s.rx.counts;
    within = omega (arith, s.rx.within);
    key = s.rx.key;
  };
  preamble = s.preamble;
  wait = s.wait;
}

module _ (n now : ℕ) where
  pub port_write-IsSound :
      (bytes : List ℕ) (h : Host) → IsSound n now h → IsSound n now (port_write bytes h).1
  unfolding port_write
  port_write-IsSound bytes h s = record { rx = s.rx; preamble = s.preamble; wait = s.wait }

  pub write_both-IsSound :
      (first second : List ℕ) (h : Host)
      → IsSound n now h
      → IsSound n now (write_both first second h).1
  unfolding write_both
  write_both-IsSound first second h s =
      let h' = (port_write first h).1 in
      let written = port_write-IsSound first h s in
      if_both (λ (r : Bool × Host). IsSound n now r.1) (port_write first h).0 (port_write second h')
        (false, h') (port_write-IsSound second h' written) written

  pub send_key-IsSound :
      (k : SessionKey) (h : Host) → IsSound n now h → IsSound n now (send_key k h).1
  unfolding send_key
  send_key-IsSound k h s =
      let head = write_both (header 0x10 56) (take 8 k.key_id) h in
      let written = write_both-IsSound (header 0x10 56) (take 8 k.key_id) h s in
      if_both (λ (r : Bool × Host). IsSound n now r.1) head.0
        (write_both (take 16 k.cipher_key) (take 32 k.mac_key) head.1) (false, head.1)
        (write_both-IsSound (take 16 k.cipher_key) (take 32 k.mac_key) head.1 written) written

  pub send_key_blindly-IsSound :
      (k : SessionKey) (h : Host) → IsSound n now h → IsSound n now (send_key_blindly k h)
  unfolding send_key_blindly
  send_key_blindly-IsSound k h s = port_write-IsSound (take 32 k.mac_key) _ (
      port_write-IsSound (take 16 k.cipher_key) _
        (port_write-IsSound (take 8 k.key_id) _ (port_write-IsSound (header 0x10 56) h s)))

  pub send_hs1-IsSound :
      (nonce hs1 : List ℕ) (h : Host) → IsSound n now h → IsSound n now (send_hs1 now nonce hs1 h)
  unfolding send_hs1
  send_hs1-IsSound nonce hs1 h s =
      let kept : Host = record h { entity_nonce = nonce } in
      let kept_sound : IsSound n now kept = record {
        rx = s.rx;
        preamble = s.preamble;
        wait = s.wait;
      } in
      let write = write_both (header 0x08 72) hs1 kept in
      let w : IsSound n now write.1 = write_both-IsSound (header 0x08 72) hs1 kept kept_sound in
      let waiting : Host = record (write.1) {
        state = waiting_for_sst_hs2;
        state_deadline = now + wait_time;
      } in
      let wiped : Host = record (write.1) { entity_nonce = zeros 8 } in
      if_both (IsSound n now) (length hs1 == 72) (if write.0 then waiting else wiped) kept
        (if_both (IsSound n now) write.0 waiting wiped
          (record { rx = w.rx; preamble = w.preamble; wait = λ busy. omega arith })
          (record { rx = w.rx; preamble = w.preamble; wait = w.wait }))
        kept_sound

  pub send_hs3-IsSound :
      (hs3 : List ℕ) (h : Host) → IsSound n now h → IsSound n now (send_hs3 hs3 h)
  unfolding send_hs3
  send_hs3-IsSound hs3 h s =
      let h' = (port_write hs3 (port_write (header 0x0A 80) h).1).1 in
      if_both (IsSound n now) (length hs3 == 80) h' h
        (port_write-IsSound hs3 _ (port_write-IsSound (header 0x0A 80) h s)) s
