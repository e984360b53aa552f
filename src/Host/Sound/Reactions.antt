-- ===== src/Host/Sound/Reactions.antt =====
-- Single reactions of the host keep it sound: keys of the keyboard, texts, deadlines.
use lifi_auth.Common.{ℕ, zero, suc, ◌≤◌, ◌≡◌, subst, ◌&&◌, if_both, if◌then◌else◌}
use lifi_auth.Common.{Option, some, none, List, ◌++◌, take, ◌==◌, leb, arith, codes, bytes_eq}
use lifi_auth.Common.{option_both}
use mathlib.Core.Option.{some-injective}
use lifi_auth.Crypto.{Mbedtls}
use lifi_auth.Receiver.{preamble_step}
use lifi_auth.Host.{
  Host, HostState, idle, waiting_for_yes, waiting_for_ack, waiting_for_sst_hs2, Sst,
}
use lifi_auth.Host.{SessionKey, s_key, use_key, sync_reporter}
use lifi_auth.Host.Handshake.{is_idle, is_waiting_for_ack, called, start_handshake}
use lifi_auth.Host.Keyboard.{
  Key, press, rotate, provision, force, verify, clear, reconnect, quit, other,
}
use lifi_auth.Host.Packets.{connect}
use lifi_auth.Host.Port.{send_key}
use lifi_auth.Host.Step.{forget, expire}
use lifi_auth.Host.Texts.{c_string, request_key, ask_for_yes, finish_key, react}
use lifi_auth.Host.Sound.{IsSound, send_key-IsSound}
use lifi_auth.Host.Sound.Parts.{called-IsSound, use_key-IsSound, start_handshake-IsSound}
use lifi_auth.Host.Sound.Parts.{request_key-IsSound, ask_for_yes-IsSound, finish_key-IsSound}
use lifi_auth.Host.Sound.Parts.{rotate_key-IsSound, force_key-IsSound, clear_stats-IsSound}

pub preamble_step-range : (state byte : ℕ) → preamble_step state byte ≤ 4
unfolding preamble_step
preamble_step-range zero byte = if_both (λ n. n ≤ 4) (byte == 0xAB) 1 0 (omega arith) (omega arith)
preamble_step-range (suc zero) byte =
    if_both (λ n. n ≤ 4) (byte == 0xCD) 2 (if byte == 0xAB then 1 else 0) (omega arith)
      (if_both (λ n. n ≤ 4) (byte == 0xAB) 1 0 (omega arith) (omega arith))
preamble_step-range (suc (suc zero)) byte =
    if_both (λ n. n ≤ 4) (byte == 0xEF) 3 (if byte == 0xAB then 1 else 0) (omega arith)
      (if_both (λ n. n ≤ 4) (byte == 0xAB) 1 0 (omega arith) (omega arith))
preamble_step-range (suc (suc (suc n))) byte =
    if_both (λ n. n ≤ 4) (byte == 0x12) 4 (if byte == 0xAB then 1 else 0) (omega arith)
      (if_both (λ n. n ≤ 4) (byte == 0xAB) 1 0 (omega arith) (omega arith))

-- What an optional host is like, if there is one.
abbrev pub IsSoundIfAny : ℕ → ℕ → Option Host → Type 0
IsSoundIfAny n now o = (h : Host) → o ≡ some h → IsSound n now h

pub some-IsSound : (n now : ℕ) (h : Host) → IsSound n now h → IsSoundIfAny n now (some h)
some-IsSound n now h s h' same = subst (IsSound n now) (some-injective h h' same) s

module _ (n now : ℕ) where
  pub expire-IsSound :
      (state : HostState) (h : Host) → IsSound n now h → IsSound n now (expire state now h)
  unfolding expire forget
  expire-IsSound idle h s = s
  expire-IsSound waiting_for_yes h s =
      if_both (IsSound n now) (leb h.state_deadline now) _ h
        (record { rx = s.rx; preamble = s.preamble; wait = λ busy. cc }) s
  expire-IsSound waiting_for_ack h s =
      if_both (IsSound n now) (leb h.state_deadline now) _ h
        (record { rx = s.rx; preamble = s.preamble; wait = λ busy. cc }) s
  expire-IsSound waiting_for_sst_hs2 h s =
      if_both (IsSound n now) (leb h.state_deadline now) _ h
        (record { rx = s.rx; preamble = s.preamble; wait = λ busy. cc }) s

  module _ (sst : Sst) where
    pub react-IsSound :
        (wall : ℕ) (plain : List ℕ) (h : Host)
        → IsSound n now h
        → IsSound n now (react sst now wall plain h)
    unfolding react
    react-IsSound wall plain h s =
        let text = c_string plain in
        let started : Host = start_handshake sst now h in
        let verified : Host =
          if bytes_eq text (codes "verify key")
            && (h.port_open && (h.rx.key_valid && is_idle h.state))
          then started
          else h in
        let acked : Host =
          if is_waiting_for_ack h.state && bytes_eq text (codes "ACK")
          then finish_key h
          else verified in
        let asked : Host =
          if bytes_eq text (codes "new key") then ask_for_yes now wall h else acked in
        let forced : Host =
          if bytes_eq text (codes "new key -f") then request_key sst now h else asked in
        if_both (IsSound n now) (bytes_eq text (codes "I have the key")) h forced s (
          if_both (IsSound n now) (bytes_eq text (codes "new key -f")) (request_key sst now h) asked
            (request_key-IsSound n now sst h s)
            (if_both (IsSound n now) (bytes_eq text (codes "new key")) (ask_for_yes now wall h)
              acked (ask_for_yes-IsSound n now wall h s)
              (if_both (IsSound n now) (is_waiting_for_ack h.state && bytes_eq text (codes "ACK"))
                (finish_key h) verified (finish_key-IsSound n now h s)
                (if_both (IsSound n now)
                  (bytes_eq text (codes "verify key")
                    && (h.port_open && (h.rx.key_valid && is_idle h.state)))
                  started h (start_handshake-IsSound n now sst h s) s))))

    pub press-IsSound :
        (key : Key) (h : Host) → IsSound n now h → IsSoundIfAny n now (press sst now key h)
    unfolding press
    press-IsSound rotate h s = some-IsSound n now _ (rotate_key-IsSound n now h s)
    press-IsSound provision h s = some-IsSound n now _ (
        if_both (IsSound n now) (h.port_open && h.rx.key_valid) (send_key (s_key h) h).1 h
          (send_key-IsSound n now (s_key h) h s) s)
    press-IsSound (force request) h s =
        some-IsSound n now _ (force_key-IsSound n now sst request h s)
    press-IsSound verify h s = some-IsSound n now _ (
        if_both (IsSound n now) (h.port_open && h.rx.key_valid) (start_handshake sst now h) h
          (start_handshake-IsSound n now sst h s) s)
    press-IsSound clear h s = some-IsSound n now _ (clear_stats-IsSound n now h s)
    press-IsSound (reconnect none) h s =
        some-IsSound n now _ (record { rx = s.rx; preamble = s.preamble; wait = s.wait })
    press-IsSound (reconnect (some ps)) h s = some-IsSound n now _ (record {
      rx = record {
        window = s.rx.window;
        counts = s.rx.counts;
        within = s.rx.within;
        key = s.rx.key;
      };
      preamble = s.preamble;
      wait = s.wait;
    })
    press-IsSound quit h s = λ h' ended. cc
    press-IsSound other h s = some-IsSound n now h s

    pub connect-IsSound :
        (m : Mbedtls) (polls_ms : ℕ → ℕ) (stack payload : List ℕ) (h : Host)
        → IsSound n now h
        → IsSound n now (connect m polls_ms sst now stack payload h)
    unfolding connect
    connect-IsSound m polls_ms stack payload h s =
        let next : SessionKey → Host = λ k. sync_reporter k (use_key k (called h)) in
        let sound : (k : SessionKey) → IsSound n now (next k) =
          λ k. use_key-IsSound n now k (called h) (called-IsSound n now h s) in
        option_both (IsSound n now) (sst.get_session_key_by_id h.calls (take 8 (payload ++ stack)))
          (called h)
          (λ k. if h.port_open && is_idle h.state then start_handshake sst now (next k) else next k)
          (called-IsSound n now h s)
          (λ k.
            if_both (IsSound n now) (h.port_open && is_idle h.state)
              (start_handshake sst now (next k)) (next k)
              (start_handshake-IsSound n now sst (next k) (sound k)) (sound k))
