-- ===== src/Mutual/Receiver.antt =====
-- The host's steps of the handshake, with a port that takes what is written whole.
use lifi_auth.Common.{u64}
use lifi_auth.Common.{ℕ, suc, ◌+◌, ◌≤◌, ◌<◌, ◌≡◌, refl, sym, ap, ◌∙◌, arith, Bool, true, ◌^◌, ◌/◌}
use lifi_auth.Common.{
  some, List, [], ◌∷◌, ◌++◌, length, drop, be16, of_be16, of_be16-be16, zeros, u8,
}
use lifi_auth.Common.{take_all, drop_all, append-nil, append_assoc, All, IsByte, ◌==◌}
use lifi_auth.Crc.{crc16_ccitt}
use lifi_auth.Crypto.{Mbedtls}
use lifi_auth.Host.{Host, Sst, WriteResult, wrote, idle, waiting_for_sst_hs2, s_key, wait_time}
use lifi_auth.Host.Handshake.{start_handshake, send_hs1, send_hs3, check_hs2, is_waiting_for_hs2}
use lifi_auth.Host.Packets.{crc_matches, read_packet, handle_hs2}
use lifi_auth.Host.Port.{write_all, port_write, write_both, header}
use lifi_auth.Receiver.{read_exact_timeout}
use lifi_auth.Receiver.Laws.{read-part, check_packet-same}
use lifi_auth.Sender.Laws.{frame, body}
use lifi_auth.Uart.{Poll}
use lifi_auth.Uart.Laws.{arriving}

write_all_whole :
    (n : ℕ) (bytes : List ℕ) (rest : List WriteResult)
    → length bytes ≡ suc n
    → write_all (wrote (suc n) ∷ rest) bytes ≡ (true, bytes, rest)
unfolding write_all
write_all_whole n [] rest h = absurd (omega arith)
write_all_whole n (b ∷ bytes) rest h =
    rw (drop_all n bytes (omega arith), take_all n bytes (omega arith), append-nil bytes, write_all)
      refl

-- What has been written.
abbrev pub written : List ℕ → List WriteResult → Host → Host
written bytes rest h = record h { sent = h.sent ++ bytes; writes = rest }

port_write_whole :
    (n : ℕ) (bytes : List ℕ) (rest : List WriteResult) (h : Host)
    → length bytes ≡ suc n
    → h.writes ≡ wrote (suc n) ∷ rest
    → port_write bytes h ≡ (true, written bytes rest h)
unfolding port_write
port_write_whole n bytes rest h size e =
    ap (λ (r : Bool × List ℕ × List WriteResult). (r.0, written r.1 r.2 h))
      (ap (λ ws. write_all ws bytes) e ∙ write_all_whole n bytes rest size)

write_both_whole :
    (a b : ℕ) (first second : List ℕ) (rest : List WriteResult) (h : Host)
    → length first ≡ suc a
    → length second ≡ suc b
    → h.writes ≡ wrote (suc a) ∷ wrote (suc b) ∷ rest
    → write_both first second h ≡ (true, written (first ++ second) rest h)
unfolding write_both
write_both_whole a b first second rest h size_a size_b e =
    let one : port_write first h ≡ (true, written first (wrote (suc b) ∷ rest) h) =
      port_write_whole a first (wrote (suc b) ∷ rest) h size_a e in
    let two : port_write second (written first (wrote (suc b) ∷ rest) h)
        ≡ (true, written second rest (written first (wrote (suc b) ∷ rest) h)) =
      port_write_whole b second rest (written first (wrote (suc b) ∷ rest) h) size_b refl in
    rw (one, two, write_both)
      (λ i. (true, record h { sent = append_assoc h.sent first second i; writes = rest }))

-- The first message has gone out, and the second is waited for.
abbrev pub asked : ℕ → List ℕ → List ℕ → List WriteResult → Host → Host
asked now nonce hs1 rest h = record h {
  calls = h.calls + 1;
  entity_nonce = nonce;
  sent = h.sent ++ (header 0x08 72 ++ hs1);
  writes = rest;
  state = waiting_for_sst_hs2;
  state_deadline = now + wait_time;
}

pub start_handshake-asked :
    (sst : Sst) (now : ℕ) (nonce hs1 : List ℕ) (rest : List WriteResult) (h : Host)
    → sst.parse_handshake_1 h.calls (s_key h) ≡ some (nonce, hs1)
    → length hs1 ≡ 72
    → h.writes ≡ wrote 7 ∷ wrote 72 ∷ rest
    → start_handshake sst now h ≡ asked now nonce hs1 rest h
unfolding start_handshake send_hs1
start_handshake-asked sst now nonce hs1 rest h made size e =
    rw
      (
        made,
        start_handshake,
        write_both_whole 6 71 (header 0x08 72) hs1 rest
            (record h { calls = h.calls + 1; entity_nonce = nonce }) refl size e,
        size,
      )
      refl

module _ (m : Mbedtls) (polls_ms : ℕ → ℕ) where
  -- A frame of the kind is read whole, and what comes behind it stays.
  read_packet-arriving :
      (type n timeout_ms : ℕ) (wanted : ℕ → Bool) (payload : List ℕ) (ps : List Poll)
      → type < 256
      → All IsByte payload
      → length payload ≡ n
      → n < 2 ^ 16
      → wanted n ≡ true
      → 2 ≤ polls_ms 100
      → n ≤ polls_ms timeout_ms
      → read_packet m polls_ms type wanted timeout_ms (arriving (drop 5 (frame type payload)) ++ ps)
        ≡ (some payload, ps)
  unfolding read_packet crc_matches
  read_packet-arriving type n timeout_ms wanted payload ps byte bytes size small want short long =
      let len : List ℕ = be16 (length payload) in
      let crc : List ℕ = be16 (crc16_ccitt (body type payload)) in
      let read_len : read_exact_timeout m polls_ms 2 100 (arriving (len ++ (payload ++ crc)) ++ ps)
          ≡ (some len, arriving (payload ++ crc) ++ ps) =
        read-part m polls_ms 2 100 len (payload ++ crc) ps refl short in
      let value : of_be16 (u8 (length payload / 2 ^ 8)) (u8 (length payload)) ≡ n =
        of_be16-be16 (length payload) (omega (arith, size, small)) ∙ size in
      let read_payload : read_exact_timeout m polls_ms n timeout_ms
            (arriving (payload ++ crc) ++ ps)
          ≡ (some payload, arriving crc ++ ps) =
        read-part m polls_ms n timeout_ms payload crc ps size long in
      let read_crc : read_exact_timeout m polls_ms 2 100 (arriving crc ++ ps) ≡ (some crc, ps) =
        ap (λ bs. read_exact_timeout m polls_ms 2 100 (arriving bs ++ ps)) (sym (append-nil crc))
        ∙ read-part m polls_ms 2 100 crc [] ps refl short in
      rw
        (
          ap (λ t. t.0) read_len,
          ap (λ t. t.1) read_len,
          read_packet,
          value,
          ap (λ t. t.0) read_payload,
          ap (λ t. t.1) read_len,
          value,
          ap (λ t. t.1) read_payload,
          ap (λ t. t.0) read_crc,
          ap (λ t. t.1) read_len,
          value,
          ap (λ t. t.1) read_payload,
          ap (λ t. t.1) read_crc,
          want,
          crc_matches,
          check_packet-same m polls_ms type payload byte bytes,
        )
        refl

  send_hs3-written :
      (hs3 : List ℕ) (rest : List WriteResult) (h : Host)
      → length hs3 ≡ 80
      → h.writes ≡ wrote 7 ∷ wrote 80 ∷ rest
      → send_hs3 hs3 h ≡ written (header 0x0A 80 ++ hs3) rest h
  unfolding send_hs3
  send_hs3-written hs3 rest h size e =
      let one : port_write (header 0x0A 80) h
          ≡ (true, written (header 0x0A 80) (wrote 80 ∷ rest) h) =
        port_write_whole 6 (header 0x0A 80) (wrote 80 ∷ rest) h refl e in
      let h' = written (header 0x0A 80) (wrote 80 ∷ rest) h in
      rw (size, send_hs3)
        (ap (λ (r : Bool × Host). (port_write hs3 r.1).1) one
          ∙ ap (λ (r : Bool × Host). r.1) (port_write_whole 79 hs3 rest h' size refl)
          ∙ (λ i. record h { sent = append_assoc h.sent (header 0x0A 80) hs3 i; writes = rest }))

  -- The second message has been checked, the third has gone out, and the nonce is forgotten.
  abbrev pub closed : List ℕ → List Poll → List WriteResult → Host → Host
  closed hs3 ps rest h = record h {
    rx = record (h.rx) {
      input = ps;
      stats = record (h.rx.stats) { total_pkts = u64 (h.rx.stats.total_pkts + 1) };
    };
    calls = h.calls + 1;
    sent = h.sent ++ (header 0x0A 80 ++ hs3);
    writes = rest;
    entity_nonce = zeros 8;
    state = idle;
    state_deadline = 0;
  }

  pub handle_hs2-closed :
      (sst : Sst) (blob hs3 : List ℕ) (ps : List Poll) (rest : List WriteResult) (h : Host)
      → h.rx.input ≡ arriving (drop 5 (frame 0x09 blob)) ++ ps
      → length blob ≡ 80
      → All IsByte blob
      → 2 ≤ polls_ms 100
      → 80 ≤ polls_ms 200
      → is_waiting_for_hs2 h.state ≡ true
      → sst.check_handshake_2_send_handshake_3 h.calls blob h.entity_nonce (s_key h) ≡ some hs3
      → length hs3 ≡ 80
      → h.writes ≡ wrote 7 ∷ wrote 80 ∷ rest
      → handle_hs2 m polls_ms sst h ≡ closed hs3 ps rest h
  unfolding handle_hs2 check_hs2
  handle_hs2-closed sst blob hs3 ps rest h input size bytes short long waiting answer size_3 e =
      let read : read_packet m polls_ms 0x09 (λ len. len == 80) 200 h.rx.input ≡ (some blob, ps) =
        ap (read_packet m polls_ms 0x09 (λ len. len == 80) 200) input
        ∙ read_packet-arriving 0x09 80 200 (λ len. len == 80) blob ps (omega arith) bytes size
            (omega arith) refl short long in
      let h' : Host = record h {
        rx = record (h.rx) {
          input = ps;
          stats = record (h.rx.stats) { total_pkts = u64 (h.rx.stats.total_pkts + 1) };
        };
      } in
      rw
        (
          ap (λ t. t.0) read,
          ap (λ t. t.1) read,
          handle_hs2,
          answer,
          check_hs2,
          waiting,
          ap (λ t. t.1) read,
          send_hs3-written hs3 rest (record h' { calls = h.calls + 1 }) size_3 e,
        )
        refl
