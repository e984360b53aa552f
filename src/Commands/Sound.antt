-- ===== src/Commands/Sound.antt =====
-- What `handle_commands` keeps, command by command.
use lifi_auth.Common.{ℕ, zero, suc, ◌<◌, ◌≡◌, inl, inr, refl, ap, subst, ◌∙◌, sym, arith}
use mathlib.Core.Bool.{false≢true}
use lifi_auth.Common.{Bool, true, false, ◌||◌, Option, some, none, List, All, length}
use lifi_auth.Common.{◌==◌, ==_iff, if◌then◌else◌, Bool-cases, ltb}
use lifi_auth.Crypto.{Mbedtls, IsLawful}
use lifi_auth.Flash.{pico_clear_slot_verify, pico_read_key_from_slot}
use lifi_auth.Flash.{}
use lifi_auth.Flash.Device.{FlashDevice}
use lifi_auth.Flash.Slots.{IsKeyPair}
use lifi_auth.Flash.Store.{StoreView, view, put_slot, view-clear_verify}
use lifi_auth.Pico.{Env, Pico, set_led_mask, pico_reboot}
use lifi_auth.Uart.{Poll, receive_new_key_with_timeout}
use lifi_auth.Uart.Laws.{IsBytePoll, receive_new_key-size}
use lifi_auth.Commands.{
  Command, print_slot_key, slot_status, clear_slot_a, clear_slot_b, clear_slots, switch_slot,
  use_slot_a, use_slot_b, new_key_forced, new_key, print_slot_keys, reboot, key, leds, help,
  unknown, parse_command, run_command, handle_commands, drop_key, clear_slot,
}
use lifi_auth.Commands.{
  activate_slot, use_slot, install_key, receive_key, run_key, parse_key, manual_id,
}
use lifi_auth.Commands.Coherent.{slot_of, IsCoherent, slot-put_self}
use lifi_auth.Commands.Coherent.{slot-put_other, drop_key-IsCoherent, activate_slot-IsCoherent}
use lifi_auth.Commands.Coherent.{install_key-IsCoherent}
use lifi_auth.Commands.Hex.{parse_key-size}

module _ (d : FlashDevice) (m : Mbedtls) (e : Env) where
  -- A command leaves a coherent state; if it answers that the effective key did not change, the
  -- caller's key buffer and the key in RAM are as before.
  abbrev pub IsSound : Pico d → Bool × Pico d → Type 0
  IsSound p r =
      IsCoherent d m e r.1
      × (r.0 ≡ false → (r.1.session_key ≡ p.session_key) × (r.1.keyram ≡ p.keyram))

  same-IsSound : (p : Pico d) → IsCoherent d m e p → IsSound p (false, p)
  same-IsSound p h = (h, (λ no. (refl, refl)))

  changed-IsSound :
      (p : Pico d) (r : Bool × Pico d) → r.0 ≡ true → IsCoherent d m e r.1 → IsSound p r
  changed-IsSound p r q h = (h, (λ no. absurd (false≢true (sym no ∙ q))))

  clear_slot-IsSound :
      (slot : ℕ) (p : Pico d) → slot < 2 → IsCoherent d m e p → IsSound p (clear_slot d m e slot p)
  unfolding clear_slot
  clear_slot-IsSound slot p range h = elim (Bool-cases (p.current_slot == slot)) [
    | inl same ↦
        let here : p.current_slot ≡ slot = (==_iff p.current_slot slot).0 same in
        rw same (
          changed-IsSound p (true, drop_key d m e (record p { flash = f' })) refl
            (drop_key-IsCoherent d m e (record p { flash = f' }) h.slot_range
              (ap (λ s. slot_of s (view d m f')) here
                ∙ ap (slot_of slot) cleared
                ∙ slot-put_self d m e slot none (view d m p.flash))))
    | inr other ↦ rw other (
      record {
        slot_range = h.slot_range;
        ram =
            h.ram
            ∙ sym (
                ap (slot_of p.current_slot) cleared
                ∙ slot-put_other d m e p.current_slot slot none (view d m p.flash) h.slot_range
                    range (λ q. false≢true (sym other ∙ (==_iff p.current_slot slot).1 q)));
        buffer = h.buffer;
      },
      (λ no. (refl, refl)),
    )
  ]
    where
      f' : d.Flash
      f' = (pico_clear_slot_verify d p.flash slot).1

      valid : ((slot == 0) || (slot == 1)) ≡ true
      valid = ground arith

      cleared : view d m f' ≡ put_slot slot none (view d m p.flash)
      cleared = (view-clear_verify d m p.flash slot).1 ∙ rw valid refl

  clear_slots-IsCoherent :
      (p : Pico d) → p.current_slot < 2 → IsCoherent d m e (run_command d m e clear_slots p).1
  unfolding run_command
  clear_slots-IsCoherent p range =
      drop_key-IsCoherent d m e (record p { flash = (pico_clear_slot_verify d f' 1).1 }) range
        (ap (slot_of p.current_slot) (
            (view-clear_verify d m f' 1).1
            ∙ ap (put_slot 1 none) (view-clear_verify d m p.flash 0).1)
          ∙ both p.current_slot range (view d m p.flash))
    where
      f' : d.Flash
      f' = (pico_clear_slot_verify d p.flash 0).1

      both :
          (s : ℕ) → s < 2 → (v : StoreView) → slot_of s (put_slot 1 none (put_slot 0 none v)) ≡ none
      both zero h v = refl
      both (suc zero) h v = refl
      both (suc (suc s)) h v = absurd (omega arith)

  use_slot-IsSound :
      (slot : ℕ) (p : Pico d) → slot < 2 → IsCoherent d m e p → IsSound p (use_slot d m e slot p)
  unfolding use_slot
  use_slot-IsSound slot p range h = elim (Bool-cases (p.current_slot == slot)) [
    | inl same ↦ rw same (same-IsSound p h)
    | inr other ↦ rw other (
        changed-IsSound p (true, activate_slot d m e slot p) refl
          (activate_slot-IsCoherent d m e slot p range))
  ]

  receive_some :
      (p : Pico d) (id k : List ℕ) (rest : List Poll)
      → receive_new_key_with_timeout (e.polls 3000000) p.uart ≡ (some (id, k), rest)
      → receive_key d m e p ≡ install_key d m e id k (record p { uart = rest })
  unfolding receive_key
  receive_some p id k rest q = rw (ap (λ r. r.0) q, ap (λ r. r.1) q, receive_key) refl

  receive_none :
      (p : Pico d) (rest : List Poll)
      → receive_new_key_with_timeout (e.polls 3000000) p.uart ≡ (none, rest)
      → receive_key d m e p ≡ (false, record p { uart = rest })
  unfolding receive_key
  receive_none p rest q = rw (ap (λ r. r.0) q, ap (λ r. r.1) q, receive_key) refl

  module _ (lawful : IsLawful m) where
    install_key-IsSound :
        (id k : List ℕ) (p q : Pico d)
        → IsKeyPair id k
        → p.current_slot < 2
        → IsSound q (install_key d m e id k p)
    install_key-IsSound id k p q pair range =
        let (ok, after) = install_key-IsCoherent d m e id k p lawful pair range in
        changed-IsSound q (install_key d m e id k p) ok after

    receive_key-IsSound :
        (p : Pico d) → All IsBytePoll p.uart → IsCoherent d m e p → IsSound p (receive_key d m e p)
    receive_key-IsSound p bytes h = go (receive_new_key_with_timeout (e.polls 3000000) p.uart) refl
      where
        go :
            (r : Option (List ℕ × List ℕ) × List Poll)
            → receive_new_key_with_timeout (e.polls 3000000) p.uart ≡ r
            → IsSound p (receive_key d m e p)
        go (some (id, k), rest) q =
            let (a, b, c, f) =
              receive_new_key-size (e.polls 3000000) p.uart {id = id} {key = k} bytes
                (ap (λ r. r.0) q) in
            subst (IsSound p) (sym (receive_some p id k rest q)) (
              install_key-IsSound id k (record p { uart = rest }) p
                (record { id_size = a; key_size = b; id_bytes = c; key_bytes = f }) h.slot_range)
        go (none, rest) q = subst (IsSound p) (sym (receive_none p rest q)) (
          record { slot_range = h.slot_range; ram = h.ram; buffer = h.buffer },
          (λ no. (refl, refl)),
        )

    run_key-IsSound :
        (hex : List ℕ) (p : Pico d) → IsCoherent d m e p → IsSound p (run_key d m e hex p)
    unfolding run_key
    run_key-IsSound hex p h = elim (Bool-cases (ltb (length hex) 32)) [
      | inl short ↦ rw short (same-IsSound p h)
      | inr long ↦ rw long (go (parse_key 16 hex) refl)
    ]
      where
        go :
            (o : Option (List ℕ))
            → parse_key 16 hex ≡ o
            → IsSound p (elim o [ some k ↦ install_key d m e manual_id k p | none ↦ (false, p) ])
        go none q = same-IsSound p h
        go (some k) q =
            let (size, bytes) = parse_key-size 16 hex k q in
            install_key-IsSound manual_id k p p
              (record {
                id_size = refl;
                key_size = size;
                id_bytes = omega arith;
                key_bytes = bytes;
              })
              h.slot_range

    run_command-IsSound :
        (c : Command) (p : Pico d)
        → All IsBytePoll p.uart
        → IsCoherent d m e p
        → IsSound p (run_command d m e c p)
    unfolding run_command
    run_command-IsSound print_slot_key p b h = same-IsSound p h
    run_command-IsSound slot_status p b h = same-IsSound p h
    run_command-IsSound clear_slot_a p b h = clear_slot-IsSound 0 p (omega arith) h
    run_command-IsSound clear_slot_b p b h = clear_slot-IsSound 1 p (omega arith) h
    run_command-IsSound clear_slots p b h =
        changed-IsSound p (run_command d m e clear_slots p) refl
          (clear_slots-IsCoherent p h.slot_range)
    run_command-IsSound switch_slot p b h =
        changed-IsSound p (run_command d m e switch_slot p) refl
          (activate_slot-IsCoherent d m e (if p.current_slot == 0 then 1 else 0) p (ground arith))
    run_command-IsSound use_slot_a p b h = use_slot-IsSound 0 p (omega arith) h
    run_command-IsSound use_slot_b p b h = use_slot-IsSound 1 p (omega arith) h
    run_command-IsSound new_key_forced p b h = receive_key-IsSound p b h
    run_command-IsSound new_key p b h = go (pico_read_key_from_slot d m p.flash p.current_slot)
      where
        go :
            (o : Option (List ℕ))
            → IsSound p (elim o [ some k ↦ (false, p) | none ↦ receive_key d m e p ])
        go none = receive_key-IsSound p b h
        go (some k) = same-IsSound p h
    run_command-IsSound print_slot_keys p b h = same-IsSound p h
    run_command-IsSound reboot p b h =
        unfold pico_reboot in
        (record { slot_range = h.slot_range; ram = h.ram; buffer = h.buffer }, (λ no. (refl, refl)))
    run_command-IsSound (key hex) p b h = run_key-IsSound hex p h
    run_command-IsSound (leds hex) p b h =
        unfold set_led_mask in
        (record { slot_range = h.slot_range; ram = h.ram; buffer = h.buffer }, (λ no. (refl, refl)))
    run_command-IsSound help p b h = same-IsSound p h
    run_command-IsSound unknown p b h = same-IsSound p h

    -- Whatever text the command is, and whatever bytes the UART brings: if before it the current
    -- slot is A or B, RAM holds exactly that slot's key pair, or none where the slot is empty,
    -- and the caller's buffer holds that key, or zeros, then so it is afterwards; and an answer
    -- that the effective key did not change leaves the buffer and the key in RAM as they were.
    pub handle_commands-IsSound :
        (cmd : List ℕ) (p : Pico d)
        → All IsBytePoll p.uart
        → IsCoherent d m e p
        → IsSound p (handle_commands d m e cmd p)
    unfolding handle_commands
    handle_commands-IsSound cmd p b h = run_command-IsSound (parse_command cmd) p b h
