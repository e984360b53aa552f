-- ===== src/KeyManager.antt =====
-- receiver/src/keys_receiver.c: the program that only fetches session keys and sends them to the
-- Pico. Its `write_all` is, line by line, that of dash_receiver.c, which is modelled in Host/Port.
-- What it prints and draws is left out.
pub mod Current
pub mod Mismatch
use lifi_auth.Common.{u64}
use lifi_auth.Common.{ℕ, ◌+◌, ◌%◌, Bool, true, false, ◌&&◌, Option, some, none, List, [], ◌∷◌, ◌++◌}
use lifi_auth.Common.{length, take, zeros, get_or, ltb, if◌then◌else◌}
use lifi_auth.Host.{WriteResult, SessionKey, Sst}
use lifi_auth.Host.Texts.{keys_of}
use lifi_auth.Host.Port.{write_all, header}

-- The variables of `main`. `sent` is what has been written to the port, `writes` the results that
-- `write` is going to have.
pub record KeyManager : Type 0 where
  pub key_list : List SessionKey
  pub current_key_idx : ℕ
  pub s_key : SessionKey
  pub key_valid : Bool
  pub keys_consumed : ℕ
  pub total_pkts : ℕ
  pub port_open : Bool
  pub writes : List WriteResult
  pub sent : List ℕ
  -- Calls of SST made so far.
  pub calls : ℕ

-- "n", "1", "f", "c", "r" with whether the port opens, and "q".
pub data Shortcut : Type 0 where
  rotate provision force clear quit other : Shortcut
  reconnect : Bool → Shortcut

-- Writes one after the other, until one is not complete.
unfoldable pub write_parts : List (List ℕ) → KeyManager → Bool × KeyManager
write_parts [] p = (true, p)
write_parts (part ∷ parts) p =
    let (ok, written, results) = write_all p.writes part in
    let p' = record p { sent = p.sent ++ written; writes = results } in
    let rest = write_parts parts p' in if ok then rest else (false, p')

-- The header, the ID of 8 bytes, a cipher key of `SESSION_KEY_SIZE` = 32 bytes, and the MAC key of
-- 32 bytes.
abbrev pub key_parts : SessionKey → List (List ℕ)
key_parts k = header 0x10 72 ∷ take 8 k.key_id ∷ take 32 k.cipher_key ∷ take 32 k.mac_key ∷ []

unfoldable pub send_session_key : KeyManager → Bool × KeyManager
send_session_key p = write_parts (key_parts p.s_key) p

-- The next key of the list, if there is more than one.
unfoldable pub next_key : KeyManager → KeyManager
next_key p =
    let n = length p.key_list in
    let idx = (p.current_key_idx + 1) % n in
    if ltb 1 n then record p { current_key_idx = idx; s_key = get_or p.key_list idx p.s_key } else p

-- The first key of a list is used, and sent if the port is open.
unfoldable pub use_keys : SessionKey → List SessionKey → KeyManager → KeyManager
use_keys k ks p =
    let p' = record p { key_list = k ∷ ks; s_key = k; key_valid = true } in
    let told = (send_session_key p').1 in if p.port_open then told else p'

-- A new list, if there is one, of which the first key is used. The index stays.
unfoldable pub fetch_keys : Sst → KeyManager → KeyManager
fetch_keys sst p =
    let p₁ = record p { calls = p.calls + 1 } in
    elim (keys_of (sst.get_session_key p.calls)) [
      | [] ↦ p₁
      | k ∷ ks ↦ use_keys k ks (record p₁ { keys_consumed = u64 (p.keys_consumed + 1) })
    ]

-- `none`: the program ends.
unfoldable pub handle_shortcut : Sst → Shortcut → KeyManager → Option KeyManager
handle_shortcut sst rotate p = some (next_key p)
handle_shortcut sst provision p =
    let told = (send_session_key p).1 in some (if p.port_open && p.key_valid then told else p)
handle_shortcut sst force p = some (fetch_keys sst p)
handle_shortcut sst clear p = some (record p { total_pkts = 0 })
handle_shortcut sst (reconnect opened) p = some (record p { port_open = opened })
handle_shortcut sst quit p = none
handle_shortcut sst other p = some p

-- `session_key_t s_key = {0}`.
abbrev pub unset_key : SessionKey
unset_key = record { key_id = zeros 8; cipher_key = zeros 32; mac_key = zeros 32 }

-- The variables before the first key is there.
abbrev pub no_keys : Bool → List WriteResult → KeyManager
no_keys port_open writes = record {
  key_list = [];
  current_key_idx = 0;
  s_key = unset_key;
  key_valid = false;
  keys_consumed = 0;
  total_pkts = 0;
  port_open = port_open;
  writes = writes;
  sent = [];
  calls = 1;
}

-- The list that SST answers first, or an empty one, and its first key.
unfoldable pub start : Sst → Bool → List WriteResult → KeyManager
start sst port_open writes =
    let none_yet = no_keys port_open writes in
    elim (keys_of (sst.get_session_key 0)) [ [] ↦ none_yet | k ∷ ks ↦ use_keys k ks none_yet ]

-- The keys that are pressed, one after the other.
unfoldable pub press_all : Sst → List Shortcut → KeyManager → Option KeyManager
press_all sst [] p = some p
press_all sst (key ∷ keys) p = elim (handle_shortcut sst key p) [
  | none ↦ none
  | some p' ↦ press_all sst keys p'
]
