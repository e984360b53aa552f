-- ===== src/Host/Texts.antt =====
-- receiver/src/dash_receiver.c: what a decrypted text makes the host do.
use lifi_auth.Common.{u64}
use lifi_auth.Common.{ℕ, ◌+◌, ◌-◌, true, ◌&&◌, Option, some, none, List, [], ◌∷◌, codes}
use lifi_auth.Common.{take, zeros, ltb, if◌then◌else◌, bytes_eq, ◌==◌}
use lifi_auth.Host.{Host, idle, waiting_for_yes, waiting_for_ack, Sst, SessionKey, wait_time}
use lifi_auth.Host.Handshake.{is_idle, is_waiting_for_ack, called, start_handshake}
use lifi_auth.Host.Port.{send_key_blindly}

-- The characters up to the first NUL.
unfoldable pub c_string : List ℕ → List ℕ
c_string [] = []
c_string (b ∷ bs) = if b == 0 then [] else b ∷ c_string bs

abbrev pub keys_of : Option (List SessionKey) → List SessionKey
keys_of none = []
keys_of (some ks) = ks

-- "new key -f": the old list is given up, and the first key of a new one is sent, to be used once
-- it is acknowledged.
unfoldable pub request_key : Sst → ℕ → Host → Host
request_key sst now h =
    let fetched = record (called h) { key_list = keys_of (sst.get_session_key h.calls) } in
    elim (keys_of (sst.get_session_key h.calls)) [
      | [] ↦ fetched
      | k ∷ ks ↦
          record (send_key_blindly k (record fetched {
            pending_key = take 32 k.cipher_key;
            keys_consumed = u64 (h.keys_consumed + 1);
            rx = record (h.rx) { key_valid = true };
          })) { state = waiting_for_ack; state_deadline = now + wait_time }
    ]

-- "new key": at most once in `KEY_UPDATE_COOLDOWN_S` seconds of the wall clock.
unfoldable pub ask_for_yes : ℕ → ℕ → Host → Host
ask_for_yes now wall h = if ltb (wall - h.last_key_req_time) 15 then h else record h {
  last_key_req_time = wall;
  state = waiting_for_yes;
  state_deadline = now + wait_time;
}

-- "ACK": the pending key is used, with the ID of the first key of the list.
unfoldable pub finish_key : Host → Host
finish_key h = record h {
  rx = record (h.rx) { cipher_key = h.pending_key };
  key_id = elim h.key_list [ [] ↦ h.key_id | k ∷ ks ↦ k.key_id ];
  pending_key = zeros 32;
  state = idle;
}

-- The chain of comparisons. "I have the key" is only shown.
unfoldable pub react : Sst → ℕ → ℕ → List ℕ → Host → Host
react sst now wall plain h =
    let text = c_string plain in
    if bytes_eq text (codes "I have the key")
    then h
    else if bytes_eq text (codes "new key -f")
    then request_key sst now h
    else if bytes_eq text (codes "new key")
    then ask_for_yes now wall h
    else if is_waiting_for_ack h.state && bytes_eq text (codes "ACK")
    then finish_key h
    else if bytes_eq text (codes "verify key")
        && (h.port_open && (h.rx.key_valid && is_idle h.state))
    then start_handshake sst now h
    else h
