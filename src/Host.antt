-- ===== src/Host.antt =====
-- receiver/src/dash_receiver.c: the variables of `main`, its serial port, and the library SST,
-- which talks to Auth.
pub mod Port
pub mod Handshake
pub mod Packets
pub mod Texts
pub mod Keyboard
pub mod Step
pub mod Sound
pub mod Start
use lifi_auth.Common.{ℕ, Bool, true, Option, List, ◌*◌, ◌^◌}
use lifi_auth.Receiver.{Receiver}

-- `session_key_t` of SST, as far as the program uses it.
pub record SessionKey : Type 0 where
  pub key_id : List ℕ
  pub cipher_key : List ℕ
  pub mac_key : List ℕ

-- `receiver_state_t` of receiver/include/key_exchange.h, without the state that only the older
-- receivers enter.
pub data HostState : Type 0 where
  idle waiting_for_yes waiting_for_ack waiting_for_sst_hs2 : HostState

-- The result of one call of `write`: an interrupted call, an error, or so many bytes.
pub data WriteResult : Type 0 where
  interrupted failed : WriteResult
  wrote : ℕ → WriteResult

-- The calls of SST, each by the number of the call, since Auth answers anew every time.
-- `get_session_key` returns a list or `NULL`, `get_session_key_by_ID` a key or `NULL`;
-- `parse_handshake_1` makes a nonce and the first message, and
-- `check_handshake_2_send_handshake_3` checks the second against the nonce and makes the third.
pub record Sst : Type 0 where
  pub get_session_key : ℕ → Option (List SessionKey)
  pub get_session_key_by_id : ℕ → List ℕ → Option SessionKey
  pub parse_handshake_1 : ℕ → SessionKey → Option (List ℕ × List ℕ)
  pub check_handshake_2_send_handshake_3 : ℕ → List ℕ → List ℕ → SessionKey → Option (List ℕ)

-- What a dashboard request, or the key "f" by itself, asks for: any new key, the key of an ID, or
-- the key that came with the request.
pub data ForceRequest : Type 0 where
  blind : ForceRequest
  by_id : List ℕ → ForceRequest
  pushed : SessionKey → ForceRequest

-- The variables of `main`. The session key in use, `s_key`, is `rx.cipher_key`, `key_id` and
-- `mac_key`; `rep_…` are the copies that the threads of the dashboard read; `sent` is what has been
-- written to the port.
pub record Host : Type 0 where
  pub rx : Receiver
  pub key_id : List ℕ
  pub mac_key : List ℕ
  pub key_list : List SessionKey
  pub current_key_idx : ℕ
  pub state : HostState
  -- In nanoseconds of the monotonic clock.
  pub state_deadline : ℕ
  pub entity_nonce : List ℕ
  pub pending_key : List ℕ
  -- In seconds of the wall clock.
  pub last_key_req_time : ℕ
  pub timeouts : ℕ
  pub keys_consumed : ℕ
  pub rep_mac_key : List ℕ
  pub rep_key_valid : Bool
  pub rep_key_id : List ℕ
  pub uart_state : ℕ
  pub port_open : Bool
  pub writes : List WriteResult
  pub sent : List ℕ
  -- Calls of SST made so far.
  pub calls : ℕ

-- Five seconds.
abbrev pub wait_time : ℕ
wait_time = 5 * 10 ^ 9

abbrev pub s_key : Host → SessionKey
s_key h = record { key_id = h.key_id; cipher_key = h.rx.cipher_key; mac_key = h.mac_key }

-- `s_key = k; key_valid = true`.
abbrev pub use_key : SessionKey → Host → Host
use_key k h = record h {
  rx = record (h.rx) { cipher_key = k.cipher_key; key_valid = true };
  key_id = k.key_id;
  mac_key = k.mac_key;
}

-- The copies for the dashboard: `g_rep_mac_key`, `g_rep_key_valid` and `set_current_key_id`.
abbrev pub sync_reporter : SessionKey → Host → Host
sync_reporter k h = record h {
  rep_mac_key = k.mac_key;
  rep_key_valid = true;
  rep_key_id = k.key_id;
}
