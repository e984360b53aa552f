-- ===== src/Commands.antt =====
-- src/cmd_handler.c: the text commands that manage the key slots. `handle_commands` is a chain
-- of string comparisons; here `parse_command` makes the comparisons, in the same order, and
-- `run_command` holds the bodies. What only prints is left out.
pub mod Strtoul
pub mod Hex
pub mod Coherent
pub mod Sound
use lifi_auth.Common.{
  ℕ, zero, suc, ◌*◌, Bool, true, false, Option, some, none, List, [], ◌∷◌, ◌==◌, ltb, u8,
}
use lifi_auth.Common.{if◌then◌else◌, bytes_eq, codes, length, take, drop, zeros, not}
use lifi_auth.Crypto.{Mbedtls}
use lifi_auth.Flash.{pico_clear_slot_verify, pico_read_key_pair_from_slot, pico_read_key_from_slot}
use lifi_auth.Flash.{pico_write_key_to_slot, store_last_used_slot}
use lifi_auth.Flash.Device.{FlashDevice}
use lifi_auth.KeyRam.{keyram_clear, keyram_set_with_id}
use lifi_auth.Pico.{Env, Pico, set_led_mask, pico_reboot}
use lifi_auth.Uart.{receive_new_key_with_timeout}
use Strtoul.{strtoul16}

pub data Command : Type 0 where
  print_slot_key slot_status clear_slot_a clear_slot_b clear_slots switch_slot : Command
  use_slot_a use_slot_b new_key_forced new_key print_slot_keys reboot : Command
  key : List ℕ → Command
  leds : List ℕ → Command
  help unknown : Command

-- `while (*hex_str == ' ') hex_str++`.
unfoldable pub skip_blanks : List ℕ → List ℕ
skip_blanks [] = []
skip_blanks (c ∷ cs) = let rest = skip_blanks cs in if c == b' ' then rest else c ∷ cs

unfoldable pub parse_command : List ℕ → Command
parse_command cmd =
    if bytes_eq cmd (codes " print slot key")
    then print_slot_key
    else if bytes_eq cmd (codes " slot status")
    then slot_status
    else if bytes_eq cmd (codes " clear slot A")
    then clear_slot_a
    else if bytes_eq cmd (codes " clear slot B")
    then clear_slot_b
    else if bytes_eq cmd (codes " clear slot *")
    then clear_slots
    else if bytes_eq cmd (codes " switch slot")
    then switch_slot
    else if bytes_eq cmd (codes " use slot A")
    then use_slot_a
    else if bytes_eq cmd (codes " use slot B")
    then use_slot_b
    else if bytes_eq cmd (codes " new key -f")
    then new_key_forced
    else if bytes_eq cmd (codes " new key")
    then new_key
    else if bytes_eq cmd (codes " print slot key *")
    then print_slot_keys
    else if bytes_eq cmd (codes " reboot")
    then reboot
    else if bytes_eq (take 5 cmd) (codes " key ")
    then key (skip_blanks (drop 5 cmd))
    else if bytes_eq (take 6 cmd) (codes " leds ")
    then leds (skip_blanks (drop 6 cmd))
    else if bytes_eq cmd (codes " help")
    then help
    else unknown

-- One round of the loop: the two characters have to be used up.
unfoldable pub parse_byte : ℕ → ℕ → Option ℕ
parse_byte a b = let (v, rest) = strtoul16 (a ∷ b ∷ []) in elim rest [ [] ↦ some (u8 v) | _ ↦ none ]

-- The loop over the bytes of the key that are left.
unfoldable pub parse_key : ℕ → List ℕ → Option (List ℕ)
parse_key (suc left) (a ∷ b ∷ cs) = elim (parse_byte a b) [
  | some v ↦ elim (parse_key left cs) [ some bs ↦ some (v ∷ bs) | none ↦ none ]
  | none ↦ none
]
parse_key (suc left) cs = none
parse_key zero cs = some []

-- The ID of a key that is typed in.
abbrev pub manual_id : List ℕ
manual_id = 0xAA ∷ 0xBB ∷ 0xCC ∷ 0xDD ∷ 0xEE ∷ 0xFF ∷ 0x00 ∷ 0x01 ∷ []

module _ (d : FlashDevice) (m : Mbedtls) (e : Env) where
  -- The effective key becomes none: RAM and the caller's buffer are zeroed.
  unfoldable pub drop_key : Pico d → Pico d
  drop_key p = record p { keyram = keyram_clear p.keyram; session_key = zeros 16 }

  -- "clear slot A" and "clear slot B".
  unfoldable pub clear_slot : ℕ → Pico d → Bool × Pico d
  clear_slot slot p =
      let p' = record p { flash = (pico_clear_slot_verify d p.flash slot).1 } in
      if p.current_slot == slot then (true, drop_key p') else (false, p')

  -- The part that "switch slot", "use slot A" and "use slot B" share: the slot becomes the
  -- current one, and its key, or none, the effective key.
  unfoldable pub activate_slot : ℕ → Pico d → Pico d
  activate_slot slot p =
      let stored = store_last_used_slot d p.flash (u8 slot) in
      let p' = record p { current_slot = slot; flash = stored } in
      elim (pico_read_key_pair_from_slot d m p.flash slot) [
        | some (id, k) ↦ record p' {
          keyram = keyram_set_with_id id k p.keyram;
          session_key = take 16 k;
        }
        | none ↦ drop_key p'
      ]

  unfoldable pub use_slot : ℕ → Pico d → Bool × Pico d
  use_slot slot p = if p.current_slot == slot then (false, p) else (true, activate_slot slot p)

  -- The part that "new key", "new key -f" and "key" share: the pair is written to the current
  -- slot and becomes the effective key.
  unfoldable pub install_key : List ℕ → List ℕ → Pico d → Bool × Pico d
  install_key id k p =
      let (written, flash') = pico_write_key_to_slot d m p.flash p.current_slot id k in
      if written
      then (
        true,
        record p {
          flash = store_last_used_slot d flash' (u8 p.current_slot);
          keyram = keyram_set_with_id id k p.keyram;
          session_key = take 16 k;
        },
      )
      else (false, record p { flash = flash' })

  -- "new key -f", and "new key" once the current slot is known to be empty.
  unfoldable pub receive_key : Pico d → Bool × Pico d
  receive_key p =
      let (got, rest) = receive_new_key_with_timeout (e.polls 3000000) p.uart in
      let p' = record p { uart = rest } in
      elim got [ some (id, k) ↦ install_key id k p' | none ↦ (false, p') ]

  unfoldable pub run_key : List ℕ → Pico d → Bool × Pico d
  run_key hex p =
      if ltb (length hex) 32
      then (false, p)
      else (elim (parse_key 16 hex) [ some k ↦ install_key manual_id k p | none ↦ (false, p) ])

  unfoldable pub run_command : Command → Pico d → Bool × Pico d
  run_command print_slot_key p = (false, p)
  run_command slot_status p = (false, p)
  run_command clear_slot_a p = clear_slot 0 p
  run_command clear_slot_b p = clear_slot 1 p
  run_command clear_slots p =
      let f' = (pico_clear_slot_verify d p.flash 0).1 in
      (true, drop_key (record p { flash = (pico_clear_slot_verify d f' 1).1 }))
  run_command switch_slot p = (true, activate_slot (if p.current_slot == 0 then 1 else 0) p)
  run_command use_slot_a p = use_slot 0 p
  run_command use_slot_b p = use_slot 1 p
  run_command new_key_forced p = receive_key p
  run_command new_key p = elim (pico_read_key_from_slot d m p.flash p.current_slot) [
    | some k ↦ (false, p)
    | none ↦ receive_key p
  ]
  run_command print_slot_keys p = (false, p)
  run_command reboot p = (false, pico_reboot p)
  run_command (key hex) p = run_key hex p
  run_command (leds hex) p = (false, set_led_mask (u8 (strtoul16 hex).0) p)
  run_command help p = (false, p)
  run_command unknown p = (false, p)

  -- True if the effective session key was set, replaced or cleared.
  unfoldable pub handle_commands : List ℕ → Pico d → Bool × Pico d
  handle_commands cmd p = run_command (parse_command cmd) p
