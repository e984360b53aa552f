-- ===== src/Host/Sound/Parts.antt =====
-- The operations of the host's loop keep it sound.
use lifi_auth.Common.{u64}
use lifi_auth.Common.{ℕ, ◌+◌, ◌-◌, refl, true, if_both}
use lifi_auth.Common.{List, ◌∷◌, take, length, ltb, arith}
use lifi_auth.Common.{list_both, option_both, Option-cases, inl, inr}
use lifi_auth.Host.{Host, SessionKey, Sst, ForceRequest, blind, by_id, pushed, s_key, use_key}
use lifi_auth.Host.{sync_reporter, wait_time, waiting_for_ack, waiting_for_yes}
use lifi_auth.Host.Handshake.{is_waiting_for_hs2, called, start_handshake}
use lifi_auth.Host.Handshake.{send_hs3, check_hs2, end_handshake}
use lifi_auth.Host.Keyboard.{rotate_key, adopt_key, force_key, clear_stats}
use lifi_auth.Host.Packets.{}
use lifi_auth.Host.Port.{send_key, send_key_blindly}
use lifi_auth.Host.Texts.{keys_of, request_key, ask_for_yes, finish_key}
use lifi_auth.Host.Sound.{
  IsSound, send_key-IsSound, send_key_blindly-IsSound, send_hs1-IsSound, send_hs3-IsSound,
}

module _ (n now : ℕ) where
  pub called-IsSound : (h : Host) → IsSound n now h → IsSound n now (called h)
  called-IsSound h s = record { rx = s.rx; preamble = s.preamble; wait = s.wait }

  pub start_handshake-IsSound :
      (sst : Sst) (h : Host) → IsSound n now h → IsSound n now (start_handshake sst now h)
  unfolding start_handshake
  start_handshake-IsSound sst h s = elim (Option-cases (sst.parse_handshake_1 h.calls (s_key h))) [
    | inl refused ↦ rw (refused, start_handshake) (called-IsSound h s)
    | inr ((nonce, hs1), made) ↦
        rw (made, start_handshake)
          (send_hs1-IsSound n now nonce hs1 (called h) (called-IsSound h s))
  ]

  pub check_hs2-IsSound :
      (sst : Sst) (payload : List ℕ) (h : Host)
      → IsSound n now h
      → IsSound n now (check_hs2 sst payload h)
  unfolding check_hs2
  check_hs2-IsSound sst payload h s =
      let answer =
        sst.check_handshake_2_send_handshake_3 h.calls payload h.entity_nonce (s_key h) in
      let sound = called-IsSound h s in
      elim (Option-cases answer) [
        | inl refused ↦
            rw (refused, check_hs2)
              (if_both (IsSound n now) (is_waiting_for_hs2 h.state) (end_handshake (called h)) h
                (record { rx = s.rx; preamble = s.preamble; wait = λ busy. cc }) s)
        | inr (hs3, made) ↦
            let h' = send_hs3 hs3 (called h) in
            let t : IsSound n now h' = send_hs3-IsSound n now hs3 (called h) sound in
            rw (made, check_hs2)
              (if_both (IsSound n now) (is_waiting_for_hs2 h.state) (end_handshake h') h
                (record { rx = t.rx; preamble = t.preamble; wait = λ busy. cc }) s)
      ]

  -- A key is used and shown.
  pub use_key-IsSound :
      (k : SessionKey) (h : Host) → IsSound n now h → IsSound n now (sync_reporter k (use_key k h))
  use_key-IsSound k h s = record {
    rx = record {
      window = s.rx.window;
      counts = s.rx.counts;
      within = s.rx.within;
      key = λ v. refl;
    };
    preamble = s.preamble;
    wait = s.wait;
  }

  pub request_key-IsSound :
      (sst : Sst) (h : Host) → IsSound n now h → IsSound n now (request_key sst now h)
  unfolding request_key
  request_key-IsSound sst h s =
      let fetched : Host = record (called h) { key_list = keys_of (sst.get_session_key h.calls) } in
      let fresh : SessionKey → Host = λ k. record fetched {
        pending_key = take 32 k.cipher_key;
        keys_consumed = u64 (h.keys_consumed + 1);
        rx = record (h.rx) { key_valid = true };
      } in
      list_both (IsSound n now) (keys_of (sst.get_session_key h.calls)) fetched
        (λ k ks. record (send_key_blindly k (fresh k)) {
          state = waiting_for_ack;
          state_deadline = now + wait_time;
        })
        (record { rx = s.rx; preamble = s.preamble; wait = s.wait })
        (λ k ks.
          (let t : IsSound n now (send_key_blindly k (fresh k)) =
              send_key_blindly-IsSound n now k (fresh k) (record {
                rx = record {
                  window = s.rx.window;
                  counts = s.rx.counts;
                  within = s.rx.within;
                  key = λ v. refl;
                };
                preamble = s.preamble;
                wait = s.wait;
              }) in
            record { rx = t.rx; preamble = t.preamble; wait = λ busy. omega arith }))

  pub ask_for_yes-IsSound :
      (wall : ℕ) (h : Host) → IsSound n now h → IsSound n now (ask_for_yes now wall h)
  unfolding ask_for_yes
  ask_for_yes-IsSound wall h s =
      if_both (IsSound n now) (ltb (wall - h.last_key_req_time) 15) h
        (record h {
          last_key_req_time = wall;
          state = waiting_for_yes;
          state_deadline = now + wait_time;
        })
        s (record { rx = s.rx; preamble = s.preamble; wait = λ busy. omega arith })

  pub finish_key-IsSound : (h : Host) → IsSound n now h → IsSound n now (finish_key h)
  unfolding finish_key
  finish_key-IsSound h s = record {
    rx = record {
      window = s.rx.window;
      counts = s.rx.counts;
      within = s.rx.within;
      key = s.rx.key;
    };
    preamble = s.preamble;
    wait = λ busy. cc;
  }

  pub rotate_key-IsSound : (h : Host) → IsSound n now h → IsSound n now (rotate_key h)
  unfolding rotate_key
  rotate_key-IsSound h s =
      if_both (IsSound n now) (ltb 1 (length h.key_list)) _ h
        (record {
          rx = record {
            window = s.rx.window;
            counts = s.rx.counts;
            within = s.rx.within;
            key = s.rx.key;
          };
          preamble = s.preamble;
          wait = s.wait;
        })
        s

  pub adopt_key-IsSound :
      (k : SessionKey) (h : Host) → IsSound n now h → IsSound n now (adopt_key k h)
  unfolding adopt_key
  adopt_key-IsSound k h s =
      let one_more : Host = record h { keys_consumed = u64 (h.keys_consumed + 1) } in
      let h' = sync_reporter k (use_key k one_more) in
      let t : IsSound n now h' =
        use_key-IsSound k one_more (record { rx = s.rx; preamble = s.preamble; wait = s.wait }) in
      if_both (IsSound n now) h.port_open (send_key k h').1 h' (send_key-IsSound n now k h' t) t

  pub force_key-IsSound :
      (sst : Sst) (request : ForceRequest) (h : Host)
      → IsSound n now h
      → IsSound n now (force_key sst request h)
  unfolding force_key
  force_key-IsSound sst (pushed k) h s = adopt_key-IsSound k h s
  force_key-IsSound sst (by_id id) h s =
      let asked : Host = record h { calls = h.calls + 2 } in
      let t : IsSound n now asked = record { rx = s.rx; preamble = s.preamble; wait = s.wait } in
      option_both (IsSound n now) (sst.get_session_key_by_id (h.calls + 1) id) asked
        (λ k. adopt_key k asked) t (λ k. adopt_key-IsSound k asked t)
  force_key-IsSound sst blind h s =
      list_both (IsSound n now) (keys_of (sst.get_session_key h.calls)) (called h)
        (λ k ks. adopt_key k (record (called h) { key_list = k ∷ ks })) (called-IsSound h s)
        (λ k ks.
          adopt_key-IsSound k (record (called h) { key_list = k ∷ ks })
            (record { rx = s.rx; preamble = s.preamble; wait = s.wait }))

  pub clear_stats-IsSound : (h : Host) → IsSound n now h → IsSound n now (clear_stats h)
  unfolding clear_stats
  clear_stats-IsSound h s = record {
    rx = record {
      window = s.rx.window;
      counts = omega arith;
      within = omega arith;
      key = s.rx.key;
    };
    preamble = s.preamble;
    wait = s.wait;
  }
