-- ===== src/Receiver/Counts.antt =====
-- What a packet leaves true of the receiver: its window, its counters, and its key.
use lifi_auth.Common.{u64}
use lifi_auth.Common.{◌<◌, ◌^◌, suc, ℕ, ◌+◌, ◌≤◌, ◌≡◌, refl, arith, Bool, true}
use lifi_auth.Common.{Option, some, none, List, ◌∷◌, ◌++◌, length, Option-cases, inl, inr}
use lifi_auth.Common.{if_both, if◌then◌else◌, ◌==◌, ◌-◌, of_be16, get_or, ltb, ◌||◌}
use lifi_auth.Crc.{crc16_ccitt}
use lifi_auth.Crypto.{Mbedtls, sst_decrypt_gcm}
use lifi_auth.ReplayWindow.{Window, replay_window_seen, replay_window_add}
use lifi_auth.ReplayWindow.Recent.{IsValid}
use lifi_auth.ReplayWindow.Push.{add-IsValid}
use lifi_auth.Receiver.{
  Receiver, Stats, Outcome, read_exact_timeout, decrypt_packet, check_packet, check_parts,
  nonce_replayed, crc_mismatch, no_key, bad_length,
}
use lifi_auth.Receiver.{read_parts, receive_packet}
use lifi_auth.Uart.Laws.{read-size}

-- The replay window is valid, no packet has been counted twice, as at most one of the counters of
-- successes, failures and replays went up for each packet, at most `n` packets have been counted,
-- and the key is valid if it is `shown` as such.
pub record IsCounted (w : Window) (s : Stats) (n slack : ℕ) (shown key_valid : Bool) : Type 0 where
  pub window : IsValid w
  pub counts : s.decrypt_success + s.decrypt_fail + s.replay_blocked + slack ≤ s.total_pkts
  pub within : s.total_pkts ≤ n
  pub key : shown ≡ true → key_valid ≡ true

abbrev pub IsSoundRx : Bool → ℕ → ℕ → Receiver → Type 0
IsSoundRx shown n slack r = IsCounted r.rwin r.stats n slack shown r.key_valid

loosen : (shown : Bool) (n : ℕ) (r : Receiver) → IsSoundRx shown n 1 r → IsSoundRx shown n 0 r
loosen shown n r h = record {
  window = h.window;
  counts = omega (arith, h.counts);
  within = h.within;
  key = h.key;
}

module _ (m : Mbedtls) (polls_ms : ℕ → ℕ) (shown : Bool) (n : ℕ) (few : n < 2 ^ 64) where
  decrypt_packet-IsSoundRx :
      (type : ℕ) (nonce c tag : List ℕ) (r : Receiver)
      → IsSoundRx shown n 1 r
      → IsSoundRx shown n 0 (decrypt_packet m polls_ms type nonce c tag r).1
  unfolding decrypt_packet
  decrypt_packet-IsSoundRx type nonce c tag r h =
      elim (Option-cases (sst_decrypt_gcm m r.cipher_key nonce c tag)) [
        | inl bad ↦
            rw (bad, decrypt_packet)
              (record {
                window = h.window;
                counts = omega (arith, few, h.counts, h.within);
                within = h.within;
                key = h.key;
              })
        | inr (plain, good) ↦
            rw (good, decrypt_packet)
              (record {
                window = h.window;
                counts = omega (arith, few, h.counts, h.within);
                within = h.within;
                key = h.key;
              })
      ]

  check_packet-IsSoundRx :
      (type : ℕ) (len nonce c tag crc : List ℕ) (r : Receiver)
      → length nonce ≡ 12
      → IsSoundRx shown n 1 r
      → IsSoundRx shown n 0 (check_packet m polls_ms type len nonce c tag crc r).1
  unfolding check_packet
  check_packet-IsSoundRx type len nonce c tag crc r size h =
      let computed = crc16_ccitt (type ∷ (len ++ (nonce ++ (c ++ tag)))) in
      let added : Receiver = record r { rwin = replay_window_add r.rwin nonce } in
      let valid : IsSoundRx shown n 1 added = record {
        window = add-IsValid r.rwin nonce h.window size;
        counts = h.counts;
        within = h.within;
        key = h.key;
      } in
      let failed : Receiver = record r {
        stats = record (r.stats) { decrypt_fail = u64 (r.stats.decrypt_fail + 1) };
      } in
      let replayed : Receiver = record r {
        stats = record (r.stats) { replay_blocked = u64 (r.stats.replay_blocked + 1) };
      } in
      let opened : Outcome × Receiver =
        if r.key_valid then decrypt_packet m polls_ms type nonce c tag added else (no_key, added) in
      let P = (λ (o : Outcome × Receiver). IsSoundRx shown n 0 o.1) in
      if_both P (computed == of_be16 (get_or crc 0 0) (get_or crc 1 0))
        (if replay_window_seen r.rwin nonce then (nonce_replayed, replayed) else opened)
        (crc_mismatch, failed)
        (if_both P (replay_window_seen r.rwin nonce) (nonce_replayed, replayed) opened
          (record {
            window = h.window;
            counts = omega (arith, few, h.counts, h.within);
            within = h.within;
            key = h.key;
          })
          (if_both P r.key_valid (decrypt_packet m polls_ms type nonce c tag added) (no_key, added)
            (decrypt_packet-IsSoundRx type nonce c tag added valid) (loosen shown n added valid)))
        (record {
          window = h.window;
          counts = omega (arith, few, h.counts, h.within);
          within = h.within;
          key = h.key;
        })

  check_parts-IsSoundRx :
      (type : ℕ) (len : List ℕ) (nonce c tag crc : Option (List ℕ)) (r : Receiver)
      → ((bs : List ℕ) → nonce ≡ some bs → length bs ≡ 12)
      → IsSoundRx shown n 1 r
      → IsSoundRx shown n 0 (check_parts m polls_ms type len nonce c tag crc r).1
  unfolding check_parts
  check_parts-IsSoundRx type len (some bs) (some c) (some tag) (some crc) r size h =
      check_packet-IsSoundRx type len bs c tag crc r (size bs refl) h
  check_parts-IsSoundRx type len none c tag crc r size h = loosen shown n r h
  check_parts-IsSoundRx type len (some bs) none tag crc r size h = loosen shown n r h
  check_parts-IsSoundRx type len (some bs) (some c) none crc r size h = loosen shown n r h
  check_parts-IsSoundRx type len (some bs) (some c) (some tag) none r size h = loosen shown n r h

  read_parts-IsSoundRx :
      (type : ℕ) (len : List ℕ) (size : ℕ) (r : Receiver)
      → IsSoundRx shown n 1 r
      → IsSoundRx shown n 0 (read_parts m polls_ms type len size r).1
  unfolding read_parts read_exact_timeout
  read_parts-IsSoundRx type len size r h =
      check_parts-IsSoundRx type len _ _ _ _ _
        (λ nonce got. read-size (polls_ms 200) 12 r.input got)
        (record { window = h.window; counts = h.counts; within = h.within; key = h.key })

module _ (m : Mbedtls) (polls_ms : ℕ → ℕ) (shown : Bool) where
  -- If the window is valid, the counters of successes, failures and replays add up to no more than
  -- that of packets, this is at most a number below 2 ^ 64 - 1, and the key is valid if it is shown
  -- as such, then all of this is so, with a number that is one larger, after a packet of text or of
  -- a file, whatever the input brings and whatever becomes of the packet.
  pub receive_packet-IsSoundRx :
      (type n : ℕ) (r : Receiver)
      → suc n < 2 ^ 64
      → IsSoundRx shown n 0 r
      → IsSoundRx shown (suc n) 0 (receive_packet m polls_ms type r).1
  unfolding receive_packet
  receive_packet-IsSoundRx type n r few h =
      let read = read_exact_timeout m polls_ms 2 100 r.input in
      let r' : Receiver = record r {
        input = read.1;
        stats = record (r.stats) { total_pkts = u64 (r.stats.total_pkts + 1) };
      } in
      let counted : IsSoundRx shown (suc n) 1 r' = record {
        window = h.window;
        counts = omega (arith, few, h.counts, h.within);
        within = omega (arith, few, h.within);
        key = h.key;
      } in
      let P = (λ (o : Outcome × Receiver). IsSoundRx shown (suc n) 0 o.1) in
      elim (Option-cases read.0) [
        | inl none_read ↦ rw (none_read, receive_packet) (loosen shown (suc n) r' counted)
        | inr (len, got) ↦
            let size = of_be16 (get_or len 0 0) (get_or len 1 0) in
            rw (got, receive_packet)
              (if_both P (ltb size 28 || ltb 8192 size) (bad_length, r')
                (read_parts m polls_ms type len (size - 28) r') (loosen shown (suc n) r' counted)
                (read_parts-IsSoundRx m polls_ms shown (suc n) few type len (size - 28) r' counted))
      ]
