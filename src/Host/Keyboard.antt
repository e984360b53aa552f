-- ===== src/Host/Keyboard.antt =====
-- receiver/src/dash_receiver.c: the keys of the keyboard, and the requests of the dashboard that
-- stand for one. What only prints ("s", "p") is `other`.
use lifi_auth.Common.{u64}
use lifi_auth.Common.{
  ℕ, ◌+◌, ◌%◌, true, false, ◌&&◌, Option, some, none, List, [], ◌∷◌, length, get_or, ltb,
}
use lifi_auth.Common.{if◌then◌else◌}
use lifi_auth.Uart.{Poll}
use lifi_auth.Host.{
  Host, Sst, SessionKey, ForceRequest, blind, by_id, pushed, s_key, use_key, sync_reporter,
}
use lifi_auth.Host.Handshake.{called, start_handshake}
use lifi_auth.Host.Port.{send_key}
use lifi_auth.Host.Texts.{keys_of}

-- "n", "1", "f", "2", "c", "r" with the input of the port if it opens, and "q".
pub data Key : Type 0 where
  rotate provision verify clear quit other : Key
  force : ForceRequest → Key
  reconnect : Option (List Poll) → Key

-- The next key of the list, if there is more than one.
unfoldable pub rotate_key : Host → Host
rotate_key h =
    let n = length h.key_list in
    let idx = (h.current_key_idx + 1) % n in
    let k = get_or h.key_list idx (s_key h) in
    if ltb 1 n
    then record h {
      current_key_idx = idx;
      key_id = k.key_id;
      mac_key = k.mac_key;
      rx = record (h.rx) { cipher_key = k.cipher_key };
    }
    else h

-- The part that the three ways of "f" share: the key is used, counted, shown, and sent to the
-- Pico if the port is open.
unfoldable pub adopt_key : SessionKey → Host → Host
adopt_key k h =
    let h' = sync_reporter k (use_key k (record h { keys_consumed = u64 (h.keys_consumed + 1) })) in
    let told = (send_key k h').1 in if h.port_open then told else h'

unfoldable pub force_key : Sst → ForceRequest → Host → Host
force_key sst (pushed k) h = adopt_key k h
force_key sst (by_id id) h = elim (sst.get_session_key_by_id (h.calls + 1) id) [
  | none ↦ record h { calls = h.calls + 2 }
  | some k ↦ adopt_key k (record h { calls = h.calls + 2 })
]
force_key sst blind h = elim (keys_of (sst.get_session_key h.calls)) [
  | [] ↦ called h
  | k ∷ ks ↦ adopt_key k (record (called h) { key_list = k ∷ ks })
]

-- All counters but that of the keys.
unfoldable pub clear_stats : Host → Host
clear_stats h = record h {
  rx = record (h.rx) {
    stats = record { total_pkts = 0; decrypt_success = 0; decrypt_fail = 0; replay_blocked = 0 };
  };
  timeouts = 0;
}

-- `none`: the program ends.
unfoldable pub press : Sst → ℕ → Key → Host → Option Host
press sst now rotate h = some (rotate_key h)
press sst now provision h =
    some (if h.port_open && h.rx.key_valid then (send_key (s_key h) h).1 else h)
press sst now (force request) h = some (force_key sst request h)
press sst now verify h =
    some (if h.port_open && h.rx.key_valid then start_handshake sst now h else h)
press sst now clear h = some (clear_stats h)
press sst now (reconnect none) h = some (record h { port_open = false })
press sst now (reconnect (some ps)) h =
    some (record h { port_open = true; rx = record (h.rx) { input = ps } })
press sst now quit h = none
press sst now other h = some h
