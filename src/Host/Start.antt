-- ===== src/Host/Start.antt =====
-- receiver/src/dash_receiver.c: the start of `main`, from the first call of `get_session_key` to
-- the loop.
pub mod Reached
use lifi_auth.Common.{
  ℕ, Bool, true, false, ◌&&◌, Option, some, none, List, [], ◌∷◌, zeros, if◌then◌else◌,
}
use lifi_auth.ReplayWindow.{replay_window_init}
use lifi_auth.Uart.{Poll}
use lifi_auth.Host.{WriteResult, Host, Sst, SessionKey, idle, s_key, use_key, sync_reporter}
use lifi_auth.Host.Port.{send_key}
use lifi_auth.Host.Texts.{keys_of}

-- The variables as they are declared. The old contents of the replay window's buffer are an
-- argument, and so is the input of the port, if it opens, from the flush on.
unfoldable pub declared : List (List ℕ) → Option (List Poll) → List WriteResult → Host
declared old port writes = record {
  rx = record {
    cipher_key = zeros 32;
    key_valid = false;
    rwin = replay_window_init old 12 64;
    stats = record { total_pkts = 0; decrypt_success = 0; decrypt_fail = 0; replay_blocked = 0 };
    input = elim port [ none ↦ [] | some ps ↦ ps ];
  };
  key_id = zeros 8;
  mac_key = zeros 32;
  key_list = [];
  current_key_idx = 0;
  state = idle;
  state_deadline = 0;
  entity_nonce = zeros 8;
  pending_key = zeros 32;
  last_key_req_time = 0;
  timeouts = 0;
  keys_consumed = 0;
  rep_mac_key = zeros 32;
  rep_key_valid = false;
  rep_key_id = [];
  uart_state = 0;
  port_open = elim port [ none ↦ false | some ps ↦ true ];
  writes = writes;
  sent = [];
  calls = 1;
}

-- The first key of the list that Auth gives, if any, is used and shown, and sent if the port is
-- open.
unfoldable pub host_start : Sst → List (List ℕ) → Option (List Poll) → List WriteResult → Host
host_start sst old port writes =
    let h = declared old port writes in
    elim (keys_of (sst.get_session_key 0)) [
      | [] ↦ h
      | k ∷ ks ↦
          let h' = sync_reporter k (use_key k (record h { key_list = k ∷ ks })) in
          let told = (send_key k h').1 in if h.port_open then told else h'
    ]
