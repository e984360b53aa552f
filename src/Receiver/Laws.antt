-- ===== src/Receiver/Laws.antt =====
-- What the receiver makes of a frame.
use lifi_auth.Common.{u64}
use lifi_auth.Common.{
  ℕ, zero, suc, ◌+◌, ◌-◌, ◌/◌, ◌≤◌, ◌<◌, ◌≡◌, refl, ap, ◌∙◌, arith, true, false, some,
}
use lifi_auth.Common.{
  List, [], ◌∷◌, ◌++◌, length, be16, of_be16, length-append, append_assoc, ==_refl,
}
use lifi_auth.Common.{of_be16-be16, drop, All, IsByte, u8, ◌^◌, ltb}
use mathlib.Core.List.{map-append}
use lifi_auth.Crc.{crc16_ccitt}
use lifi_auth.Crc.Laws.{crc16_ccitt-lt}
use lifi_auth.Crypto.{Mbedtls, sst_decrypt_gcm}
use lifi_auth.Common.{◌==◌}
use lifi_auth.ReplayWindow.{replay_window_seen, replay_window_add}
use lifi_auth.ReplayWindow.Recent.{IsValid, recent, contains}
use lifi_auth.ReplayWindow.Seen.{seen-recent}
use lifi_auth.Receiver.{nonce_replayed, text, decrypt_packet}
use lifi_auth.Uart.{Poll, ready}
use lifi_auth.Uart.Laws.{arriving, read-arriving}
use lifi_auth.Sender.Laws.{body, frame}
use lifi_auth.Receiver.{Receiver, preamble_step, find_packet, read_exact_timeout, check_packet}
use lifi_auth.Receiver.{check_parts, read_parts, receive_packet}

-- Whatever the bytes before have led to, a preamble is found, and the type behind it.
pub find_packet-arriving :
    (state type : ℕ) (bs : List ℕ) (ps : List Poll)
    → state < 4
    → find_packet state (arriving (0xAB ∷ 0xCD ∷ 0xEF ∷ 0x12 ∷ type ∷ bs) ++ ps)
      ≡ some (type, arriving bs ++ ps)
unfolding find_packet preamble_step
find_packet-arriving zero type bs ps h = refl
find_packet-arriving (suc zero) type bs ps h = refl
find_packet-arriving (suc (suc zero)) type bs ps h = refl
find_packet-arriving (suc (suc (suc zero))) type bs ps h = refl
find_packet-arriving (suc (suc (suc (suc n)))) type bs ps h = absurd (omega arith)

pub arriving-append :
    (xs ys : List ℕ) (ps : List Poll)
    → arriving (xs ++ ys) ++ ps ≡ arriving xs ++ (arriving ys ++ ps)
arriving-append xs ys ps =
    ap (λ t. t ++ ps) (map-append ready xs ys) ∙ append_assoc (arriving xs) (arriving ys) ps

-- The reads of the receiver are made often enough to take in a frame without pauses.
pub record IsFast (polls_ms : ℕ → ℕ) (ctext_len : ℕ) : Type 0 where
  pub header : 2 ≤ polls_ms 100
  pub part : 16 ≤ polls_ms 200
  pub text : ctext_len ≤ polls_ms (200 + ctext_len / 10)

-- A packet of a type that is read has been counted, and its bytes have been taken.
abbrev pub counted : Receiver → List Poll → Receiver
counted r ps = record r {
  input = ps;
  stats = record (r.stats) { total_pkts = u64 (r.stats.total_pkts + 1) };
}

module _ (m : Mbedtls) (polls_ms : ℕ → ℕ) where
  pub read-part :
      (n ms : ℕ) (xs ys : List ℕ) (ps : List Poll)
      → length xs ≡ n
      → n ≤ polls_ms ms
      → read_exact_timeout m polls_ms n ms (arriving (xs ++ ys) ++ ps)
        ≡ (some xs, arriving ys ++ ps)
  unfolding read_exact_timeout
  read-part n ms xs ys ps h k =
      rw (arriving-append xs ys ps, ← h)
        (read-arriving (polls_ms ms) xs (arriving ys ++ ps) (omega (arith, h)))

  read_parts-arriving :
      (type : ℕ) (len nonce c tag crc : List ℕ) (r : Receiver) (ps : List Poll)
      → length nonce ≡ 12
      → length tag ≡ 16
      → length crc ≡ 2
      → IsFast polls_ms (length c)
      → r.input ≡ arriving (nonce ++ (c ++ (tag ++ (crc ++ [])))) ++ ps
      → read_parts m polls_ms type len (length c) r
        ≡ check_packet m polls_ms type len nonce c tag crc (record r { input = ps })
  unfolding read_parts check_parts
  read_parts-arriving type len nonce c tag crc r ps a b e fast q =
      rw
        (
          q,
          read-part 12 200 nonce (c ++ (tag ++ (crc ++ []))) ps a (omega (arith, fast.part)),
          read-part (length c) (200 + length c / 10) c (tag ++ (crc ++ [])) ps refl fast.text,
          read-part 16 200 tag (crc ++ []) ps b fast.part,
          read-part 2 200 crc [] ps e (omega (arith, fast.part)),
        )
        refl

  receive_packet-arriving :
      (type : ℕ) (nonce c tag : List ℕ) (r : Receiver) (ps : List Poll)
      → type < 256
      → All IsByte (nonce ++ (c ++ tag))
      → length nonce ≡ 12
      → length tag ≡ 16
      → length c + 28 ≤ 8192
      → IsFast polls_ms (length c)
      → r.input ≡ arriving (drop 5 (frame type (nonce ++ (c ++ tag)))) ++ ps
      → receive_packet m polls_ms type r
        ≡ check_packet m polls_ms type
            (be16 (length (nonce ++ (c ++ tag))))
            nonce
            c
            tag
            (be16 (crc16_ccitt (body type (nonce ++ (c ++ tag)))))
            (counted r ps)
  unfolding receive_packet
  receive_packet-arriving type nonce c tag r ps byte bytes a b room fast q =
      let payload : List ℕ = nonce ++ (c ++ tag) in
      let len : List ℕ = be16 (length payload) in
      let crc : List ℕ = be16 (crc16_ccitt (body type payload)) in
      let size : length payload ≡ length c + 28 =
        omega (arith, length-append nonce (c ++ tag), length-append c tag, a, b) in
      let parts : payload ++ crc ≡ nonce ++ (c ++ (tag ++ (crc ++ []))) =
        append_assoc nonce (c ++ tag) crc ∙ ap (λ t. nonce ++ t) (append_assoc c tag crc) in
      let read_len : read_exact_timeout m polls_ms 2 100 r.input
          ≡ (some len, arriving (payload ++ crc) ++ ps) =
        ap (read_exact_timeout m polls_ms 2 100) q
        ∙ read-part 2 100 len (payload ++ crc) ps refl fast.header in
      let value : of_be16 (u8 (length payload / 2 ^ 8)) (u8 (length payload)) ≡ length c + 28 =
        of_be16-be16 (length payload) (omega (arith, size)) ∙ size in
      let short : ltb (length c + 28) 28 ≡ false = ground arith in
      let long : ltb 8192 (length c + 28) ≡ false = ground (arith, room) in
      let rest : length c + 28 - 28 ≡ length c = omega arith in
      rw (ap (λ t. t.0) read_len, ap (λ t. t.1) read_len, receive_packet, value, short, long, rest)
        (read_parts-arriving type len nonce c tag crc _ ps a b refl fast
          (ap (λ t. arriving t ++ ps) parts))

  -- The checksum of a frame of bytes is the one that is computed.
  pub check_packet-same :
      (type : ℕ) (payload : List ℕ)
      → type < 256
      → All IsByte payload
      → (crc16_ccitt (body type payload)
          == of_be16
              (u8 (crc16_ccitt (body type payload) / 2 ^ 8))
              (u8 (crc16_ccitt (body type payload))))
        ≡ true
  check_packet-same type payload byte bytes =
      let crc = crc16_ccitt (body type payload) in
      let small : crc < 2 ^ 16 =
        crc16_ccitt-lt (body type payload) (byte, (omega arith, (omega arith, bytes))) in
      rw (of_be16-be16 crc small) (==_refl crc)

  -- A frame of bytes whose nonce is in the window: it is refused, and nothing but the input and
  -- the two counters changes.
  pub receive_packet-replayed :
      (type : ℕ) (nonce c tag : List ℕ) (r : Receiver) (ps : List Poll)
      → type < 256
      → All IsByte (nonce ++ (c ++ tag))
      → length nonce ≡ 12
      → length tag ≡ 16
      → length c + 28 ≤ 8192
      → IsFast polls_ms (length c)
      → IsValid r.rwin
      → contains (recent r.rwin) nonce ≡ true
      → receive_packet m polls_ms type
          (record r { input = arriving (drop 5 (frame type (nonce ++ (c ++ tag)))) ++ ps })
        ≡ (
          nonce_replayed,
          record r {
            input = ps;
            stats = record (r.stats) {
              total_pkts = u64 (r.stats.total_pkts + 1);
              replay_blocked = u64 (r.stats.replay_blocked + 1);
            };
          },
        )
  unfolding check_packet
  receive_packet-replayed type nonce c tag r ps byte bytes a b room fast valid old =
      let q = arriving (drop 5 (frame type (nonce ++ (c ++ tag)))) ++ ps in
      let seen : replay_window_seen r.rwin nonce ≡ true = seen-recent r.rwin nonce valid a ∙ old in
      receive_packet-arriving type nonce c tag (record r { input = q }) ps byte bytes a b room fast
        refl
      ∙ rw (check_packet-same type (nonce ++ (c ++ tag)) byte bytes, seen) refl

  -- A frame of bytes with a nonce that is not in the window, a valid key, and a tag that the
  -- decryption accepts: the plain text is delivered, and the nonce is in the window.
  pub receive_packet-text :
      (type : ℕ) (nonce c tag plain : List ℕ) (r : Receiver) (ps : List Poll)
      → type < 256
      → All IsByte (nonce ++ (c ++ tag))
      → length nonce ≡ 12
      → length tag ≡ 16
      → length c + 28 ≤ 8192
      → IsFast polls_ms (length c)
      → replay_window_seen r.rwin nonce ≡ false
      → r.key_valid ≡ true
      → sst_decrypt_gcm m r.cipher_key nonce c tag ≡ some plain
      → receive_packet m polls_ms type
          (record r { input = arriving (drop 5 (frame type (nonce ++ (c ++ tag)))) ++ ps })
        ≡ (
          text type plain,
          record r {
            rwin = replay_window_add r.rwin nonce;
            input = ps;
            stats = record (r.stats) {
              total_pkts = u64 (r.stats.total_pkts + 1);
              decrypt_success = u64 (r.stats.decrypt_success + 1);
            };
          },
        )
  unfolding check_packet decrypt_packet
  receive_packet-text type nonce c tag plain r ps byte bytes a b room fast fresh key opened =
      let q = arriving (drop 5 (frame type (nonce ++ (c ++ tag)))) ++ ps in
      receive_packet-arriving type nonce c tag (record r { input = q }) ps byte bytes a b room fast
        refl
      ∙ rw
          (
            check_packet-same type (nonce ++ (c ++ tag)) byte bytes,
            fresh,
            key,
            opened,
            decrypt_packet,
          )
          (λ i. (
            text type plain,
            record r {
              key_valid = key i;
              rwin = replay_window_add r.rwin nonce;
              input = ps;
              stats = record (r.stats) {
                total_pkts = u64 (r.stats.total_pkts + 1);
                decrypt_success = u64 (r.stats.decrypt_success + 1);
              };
            },
          ))
