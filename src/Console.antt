-- ===== src/Console.antt =====
-- sender/src/lifi_session_sender.c: how `main` reads a line from the USB console and acts on it.
-- The console is the list of what the calls of `getchar_timeout_us` return, `none` for a timeout.
pub mod Bounds
use lifi_auth.Common.{
  ℕ, zero, suc, Bool, true, false, ◌&&◌, ◌||◌, Option, some, none, List, [], ◌∷◌, ◌++◌, codes,
}
use lifi_auth.Common.{◌-◌, length, take, drop, if◌then◌else◌, ◌==◌, ltb, leb, bytes_eq}
use lifi_auth.Commands.{skip_blanks, handle_commands}
use lifi_auth.Crypto.{Mbedtls}
use lifi_auth.Flash.{pico_read_key_pair_from_slot}
use lifi_auth.Flash.Device.{FlashDevice}
use lifi_auth.Handshake.{renew_nonce}
use lifi_auth.Pico.{Env, Pico}
use lifi_auth.Sender.{send_id, transmit}
use lifi_auth.Sender.Compress.{Encoder}

abbrev pub is_break : ℕ → Bool
is_break ch = (ch == 13) || (ch == 10)

abbrev pub is_printable : ℕ → Bool
is_printable ch = leb 32 ch && ltb ch 127

-- `message_buffer[msg_len++] = ch`, if the buffer has room for it and the final NUL.
unfoldable pub push : ℕ → List ℕ → List ℕ
push ch buffer = if ltb (length buffer) 8191 then buffer ++ (ch ∷ []) else buffer

-- The character that came within 2 ms of a line break.
unfoldable pub push_peeked : ℕ → List ℕ → List ℕ
push_peeked ch buffer =
    if is_printable ch then push ch buffer else if is_break ch then push 10 buffer else buffer

-- A character that is no line break.
abbrev pub type_char : ℕ → List ℕ → List ℕ
type_char ch buffer = if is_printable ch then push ch buffer else buffer

-- `for (;;)` up to its `break`: the line and what is left of the input; `none` while the line is
-- not complete.
unfoldable pub read_line : List ℕ → List (Option ℕ) → Option (List ℕ × List (Option ℕ))
read_line buffer [] = none
read_line buffer (none ∷ keys) = read_line buffer keys
read_line buffer (some ch ∷ []) =
    if is_break ch
    then none
    else if ((ch == 127) || (ch == 8)) && ltb 0 (length buffer)
    then none
    else (let typed = type_char ch buffer in
        if leb 8064 (length typed) then some (typed, []) else none)
read_line buffer (some ch ∷ (none ∷ keys)) =
    let shorter = read_line (take (length buffer - 1) buffer) keys in
    let typed = type_char ch buffer in
    let longer = read_line typed keys in
    if is_break ch
    then some (buffer, keys)
    else if ((ch == 127) || (ch == 8)) && ltb 0 (length buffer)
    then shorter
    else if leb 8064 (length typed)
    then some (typed, none ∷ keys)
    else longer
read_line buffer (some ch ∷ (some next ∷ keys)) =
    let burst = read_line (push_peeked next (push 10 buffer)) keys in
    let shorter = read_line (take (length buffer - 1) buffer) (some next ∷ keys) in
    let typed = type_char ch buffer in
    let longer = read_line typed (some next ∷ keys) in
    if is_break ch
    then burst
    else if ((ch == 127) || (ch == 8)) && ltb 0 (length buffer)
    then shorter
    else if leb 8064 (length typed)
    then some (typed, some next ∷ keys)
    else longer

module _ (d : FlashDevice) (m : Mbedtls) (e : Env) where
  -- After a command that changed the key: new nonces, and the pair of the current slot.
  unfoldable pub reload_key : Pico d → Pico d
  reload_key p =
      let p' = renew_nonce d m e p in
      if (p.current_slot == 0) || (p.current_slot == 1)
      then (elim (pico_read_key_pair_from_slot d m p.flash p.current_slot) [
        | some (id, k) ↦ record p' { session_key_id = id; session_key = k }
        | none ↦ p'
      ])
      else p'

  -- A line behind "CMD:".
  unfoldable pub run_line : List ℕ → Pico d → Pico d
  run_line cmd p =
      let (key_changed, p') = handle_commands d m e cmd p in
      if bytes_eq (take 7 (skip_blanks cmd)) (codes "send_id")
      then send_id p
      else if key_changed
      then reload_key p'
      else p'

  unfoldable pub process_line : Encoder → List ℕ → Pico d → Option (Pico d)
  process_line c line p =
      if bytes_eq (take 4 line) (codes "CMD:")
      then some (run_line (drop 4 line) p)
      else transmit m c line p
