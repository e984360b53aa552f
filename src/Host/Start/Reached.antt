-- ===== src/Host/Start/Reached.antt =====
-- What holds of every host that the program can reach, and how its waits end.
use lifi_auth.Common.{
  ◌<◌, ◌^◌, ℕ, ◌+◌, ◌≤◌, ◌≡◌, refl, true, false, if_both, list_both, if◌then◌else◌, Option,
}
use lifi_auth.Common.{List, ◌∷◌, length, zeros, arith, leb}
use lifi_auth.Crypto.{Mbedtls}
use lifi_auth.ReplayWindow.Laws.{init-IsValid}
use lifi_auth.ReplayWindow.Recent.{IsNonce}
use lifi_auth.Common.{All}
use lifi_auth.Uart.{Poll}
use lifi_auth.Host.{
  WriteResult, Host, HostState, idle, waiting_for_yes, waiting_for_ack, waiting_for_sst_hs2,
}
use lifi_auth.Host.{Sst, SessionKey, use_key, sync_reporter, wait_time}
use lifi_auth.Host.Handshake.{is_idle, is_waiting_for_ack, is_waiting_for_hs2}
use lifi_auth.Host.Port.{send_key}
use lifi_auth.Host.Sound.{IsSound, send_key-IsSound}
use lifi_auth.Host.Sound.Parts.{use_key-IsSound}
use lifi_auth.Host.Sound.Rounds.{Run, Run-IsSound}
use lifi_auth.Host.Start.{declared, host_start}
use lifi_auth.Host.Step.{forget, expire, check_timeout}
use lifi_auth.Host.Texts.{keys_of}

module _ (sst : Sst) (old : List (List ℕ)) (size : 64 ≤ length old) (rows : All IsNonce old)
    (port : Option (List Poll)) (writes : List WriteResult) where
  declared-IsSound : (start : ℕ) → IsSound 0 start (declared old port writes)
  unfolding declared
  declared-IsSound start = record {
    rx = record {
      window = (init-IsValid old 64 rows (omega arith) size).0;
      counts = omega arith;
      within = omega arith;
      key = λ shown. cc;
    };
    preamble = omega arith;
    wait = λ busy. cc;
  }

  pub host_start-IsSound : (start : ℕ) → IsSound 0 start (host_start sst old port writes)
  unfolding host_start
  host_start-IsSound start =
      let h = declared old port writes in
      let s : IsSound 0 start h = declared-IsSound start in
      let first : SessionKey → List SessionKey → Host =
        λ k ks. sync_reporter k (use_key k (record h { key_list = k ∷ ks })) in
      let sound : (k : SessionKey) (ks : List SessionKey) → IsSound 0 start (first k ks) = λ k ks.
        use_key-IsSound 0 start k (record h { key_list = k ∷ ks })
          (record { rx = s.rx; preamble = s.preamble; wait = s.wait }) in
      list_both (IsSound 0 start) (keys_of (sst.get_session_key 0)) h
        (λ k ks. if h.port_open then (send_key k (first k ks)).1 else first k ks) s
        (λ k ks.
          if_both (IsSound 0 start) h.port_open (send_key k (first k ks)).1 (first k ks)
            (send_key-IsSound 0 start k (first k ks) (sound k ks)) (sound k ks))

  module _ (m : Mbedtls) (polls_ms : ℕ → ℕ) where
    -- After fewer than 2 ^ 64 rounds of the loop from the start of the program, at times that do not
    -- go back, whatever is typed, arrives, can be written and is answered by Auth: the replay window
    -- is valid, successes, failures and replays add up to no more than the packets, and these to no
    -- more than the rounds, a key that the dashboard is shown as valid is valid, the search for a
    -- preamble is in one of its five states, and the end of a wait is at most five seconds ahead.
    pub reached-IsSound :
        (start n now : ℕ) (h : Host)
        → n < 2 ^ 64
        → Run m polls_ms sst start (host_start sst old port writes) n now h
        → IsSound n now h
    reached-IsSound start n now h few run =
        Run-IsSound m polls_ms sst start (host_start sst old port writes) (host_start-IsSound start)
          n now h few run

-- The host is idle, and has forgotten what it waited with: the pending key, or its nonce.
pub record IsOver (before after : Host) : Type 0 where
  pub idle_again : is_idle after.state ≡ true
  pub no_key : is_waiting_for_ack before.state ≡ true → after.pending_key ≡ zeros 32
  pub no_nonce : is_waiting_for_hs2 before.state ≡ true → after.entity_nonce ≡ zeros 8

expire-IsOver :
    (state : HostState) (now : ℕ) (h : Host)
    → h.state ≡ state
    → (is_idle h.state ≡ false → leb h.state_deadline now ≡ true)
    → IsOver h (expire state now h)
unfolding expire forget
expire-IsOver idle now h e late = record {
  idle_again = rw e refl;
  no_key = λ a. cc;
  no_nonce = λ a. cc;
}
expire-IsOver waiting_for_yes now h e late =
    rw (late (rw e refl)) (record { idle_again = refl; no_key = λ a. cc; no_nonce = λ a. cc })
expire-IsOver waiting_for_ack now h e late =
    rw (late (rw e refl)) (record { idle_again = refl; no_key = λ a. refl; no_nonce = λ a. cc })
expire-IsOver waiting_for_sst_hs2 now h e late =
    rw (late (rw e refl)) (record { idle_again = refl; no_key = λ a. cc; no_nonce = λ a. refl })

-- Five seconds after a time at which the host was sound, the next look at the deadline makes it
-- idle: it no longer waits for anything, a pending key is wiped if it waited for its
-- acknowledgement, and its nonce if it waited for the second message of a handshake.
pub check_timeout-IsOver :
    (n last now : ℕ) (h : Host)
    → IsSound n last h
    → last + wait_time ≤ now
    → IsOver h (check_timeout now h)
unfolding check_timeout
check_timeout-IsOver n last now h s late =
    expire-IsOver h.state now h refl
      (λ busy. (let bound : h.state_deadline ≤ last + wait_time = s.wait busy in ground arith))
