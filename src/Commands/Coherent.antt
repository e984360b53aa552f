-- ===== src/Commands/Coherent.antt =====
-- The effective key, the key in RAM and the current slot say the same, after any command.
use lifi_auth.Common.{ℕ, zero, suc, ◌<◌, ◌≡◌, ◌≢◌, inl, inr, refl, ap, subst, ◌∙◌, sym, arith}
use lifi_auth.Common.{true, Option, some, none, List, length, take, take_all}
use lifi_auth.Common.{◌==◌, if◌then◌else◌, Bool-cases, u8, zeros}
use lifi_auth.Crypto.{Mbedtls, IsLawful}
use lifi_auth.Flash.{pico_read_key_pair_from_slot}
use lifi_auth.Flash.{pico_write_key_to_slot, store_last_used_slot, slot_to_sector_offset}
use lifi_auth.Flash.Device.{FlashDevice}
use lifi_auth.Flash.Slots.{IsKeyPair, read_key-size}
use lifi_auth.Flash.Store.{StoreView, view, put_slot, view-store_last_used}
use lifi_auth.Flash.Load.{view-write}
use lifi_auth.KeyRam.{KeyRam, keyram_clear, keyram_set_with_id}
use lifi_auth.Pico.{Env, Pico}
use lifi_auth.Commands.{drop_key}
use lifi_auth.Commands.{activate_slot, install_key}

abbrev pub slot_of : ℕ → StoreView → Option (List ℕ × List ℕ)
slot_of slot v = if slot == 0 then v.slot_a else v.slot_b

-- The key that encrypts, as RAM has it.
abbrev pub active : KeyRam → Option (List ℕ × List ℕ)
active r = if r.key_valid then some (r.session_key_id, r.session_key) else none

abbrev pub key_or_zeros : Option (List ℕ × List ℕ) → List ℕ
key_or_zeros (some (id, k)) = k
key_or_zeros none = zeros 16

module _ (d : FlashDevice) (m : Mbedtls) (e : Env) where
  -- The current slot is A or B; RAM holds its key pair, or none where the slot is empty; and the
  -- caller's buffer holds that key, or zeros.
  pub record IsCoherent (p : Pico d) : Type 0 where
    pub slot_range : p.current_slot < 2
    pub ram : active p.keyram ≡ slot_of p.current_slot (view d m p.flash)
    pub buffer : p.session_key ≡ key_or_zeros (active p.keyram)

  pub slot-put_self :
      (s : ℕ) (k : Option (List ℕ × List ℕ)) (v : StoreView) → slot_of s (put_slot s k v) ≡ k
  slot-put_self s k v = elim (Bool-cases (s == 0)) [ inl h ↦ rw h refl | inr h ↦ rw h refl ]

  pub slot-put_other :
      (s t : ℕ) (k : Option (List ℕ × List ℕ)) (v : StoreView)
      → s < 2
      → t < 2
      → s ≢ t
      → slot_of s (put_slot t k v) ≡ slot_of s v
  slot-put_other zero zero k v a b ne = absurd (ne refl)
  slot-put_other zero (suc zero) k v a b ne = refl
  slot-put_other (suc zero) zero k v a b ne = refl
  slot-put_other (suc zero) (suc zero) k v a b ne = absurd (ne refl)
  slot-put_other (suc (suc s)) t k v a b ne = absurd (omega arith)
  slot-put_other zero (suc (suc t)) k v a b ne = absurd (omega arith)
  slot-put_other (suc zero) (suc (suc t)) k v a b ne = absurd (omega arith)

  pub slot-store_last_used :
      (s t : ℕ) (f : d.Flash)
      → t < 256
      → slot_of s (view d m (store_last_used_slot d f t)) ≡ slot_of s (view d m f)
  slot-store_last_used s t f h = ap (slot_of s) (view-store_last_used d m f t h)

  pub read_pair-slot :
      (f : d.Flash) (s : ℕ) → pico_read_key_pair_from_slot d m f s ≡ slot_of s (view d m f)
  unfolding pico_read_key_pair_from_slot view
  read_pair-slot f s = elim (Bool-cases (s == 0)) [ inl h ↦ rw h refl | inr h ↦ rw h refl ]

  pub read_pair-size :
      (f : d.Flash) (s : ℕ) {id key : List ℕ}
      → pico_read_key_pair_from_slot d m f s ≡ some (id, key)
      → (length id ≡ 8) × (length key ≡ 16)
  unfolding pico_read_key_pair_from_slot
  read_pair-size f s h = read_key-size d m f (slot_to_sector_offset d s) h

  pub drop_key-IsCoherent :
      (p : Pico d)
      → p.current_slot < 2
      → slot_of p.current_slot (view d m p.flash) ≡ none
      → IsCoherent (drop_key d m e p)
  unfolding drop_key keyram_clear
  drop_key-IsCoherent p range empty = record { slot_range = range; ram = sym empty; buffer = refl }

  -- RAM after `keyram_set_with_id` with buffers of the right sizes.
  active-set :
      (id k : List ℕ) (r : KeyRam)
      → length id ≡ 8
      → length k ≡ 16
      → active (keyram_set_with_id id k r) ≡ some (id, k)
  unfolding keyram_set_with_id
  active-set id k r a b = rw (take_all 8 id a, take_all 16 k b) refl

  -- The state once a pair of the current slot has been taken into use.
  abbrev with_pair : List ℕ → List ℕ → ℕ → d.Flash → Pico d → Pico d
  with_pair id k slot f p = record p {
    current_slot = slot;
    flash = store_last_used_slot d f (u8 slot);
    keyram = keyram_set_with_id id k p.keyram;
    session_key = take 16 k;
  }

  with_pair-IsCoherent :
      (id k : List ℕ) (slot : ℕ) (f : d.Flash) (p : Pico d)
      → length id ≡ 8
      → length k ≡ 16
      → slot < 2
      → slot_of slot (view d m f) ≡ some (id, k)
      → IsCoherent (with_pair id k slot f p)
  with_pair-IsCoherent id k slot f p a b range here = record {
    slot_range = range;
    ram =
        active-set id k p.keyram a b
        ∙ sym here
        ∙ sym (slot-store_last_used slot (u8 slot) f (omega arith));
    buffer = take_all 16 k b ∙ ap key_or_zeros (sym (active-set id k p.keyram a b));
  }

  activate_some :
      (slot : ℕ) (p : Pico d) (id k : List ℕ)
      → pico_read_key_pair_from_slot d m p.flash slot ≡ some (id, k)
      → activate_slot d m e slot p ≡ with_pair id k slot p.flash p
  unfolding activate_slot store_last_used_slot keyram_set_with_id
  activate_some slot p id k h = rw (h, activate_slot) refl

  activate_none :
      (slot : ℕ) (p : Pico d)
      → pico_read_key_pair_from_slot d m p.flash slot ≡ none
      → activate_slot d m e slot p
        ≡ drop_key d m e
            (record p { current_slot = slot; flash = store_last_used_slot d p.flash (u8 slot) })
  unfolding activate_slot
  activate_none slot p h = rw (h, activate_slot) refl

  install_written :
      (id k : List ℕ) (p : Pico d)
      → (pico_write_key_to_slot d m p.flash p.current_slot id k).0 ≡ true
      → install_key d m e id k p ≡ (
        true,
        with_pair id k p.current_slot (pico_write_key_to_slot d m p.flash p.current_slot id k).1 p,
      )
  unfolding install_key
  install_written id k p h = rw (h, install_key) refl

  pub activate_slot-IsCoherent :
      (slot : ℕ) (p : Pico d) → slot < 2 → IsCoherent (activate_slot d m e slot p)
  activate_slot-IsCoherent slot p range = go (pico_read_key_pair_from_slot d m p.flash slot) refl
    where
      stored : d.Flash
      stored = store_last_used_slot d p.flash (u8 slot)

      go :
          (o : Option (List ℕ × List ℕ))
          → pico_read_key_pair_from_slot d m p.flash slot ≡ o
          → IsCoherent (activate_slot d m e slot p)
      go (some (id, k)) h =
          let (a, b) = read_pair-size p.flash slot h in
          let same : activate_slot d m e slot p ≡ with_pair id k slot p.flash p =
            activate_some slot p id k h in
          subst IsCoherent (sym same) (
            with_pair-IsCoherent id k slot p.flash p a b range
              (sym (read_pair-slot p.flash slot) ∙ h))
      go none h = subst IsCoherent (sym (activate_none slot p h)) (
          drop_key-IsCoherent (record p { current_slot = slot; flash = stored }) range
            (slot-store_last_used slot (u8 slot) p.flash (omega arith)
              ∙ sym (read_pair-slot p.flash slot)
              ∙ h))

  pub install_key-IsCoherent :
      (id k : List ℕ) (p : Pico d)
      → IsLawful m
      → IsKeyPair id k
      → p.current_slot < 2
      → ((install_key d m e id k p).0 ≡ true) × IsCoherent (install_key d m e id k p).1
  install_key-IsCoherent id k p lawful pair range =
      let (ok, wrote) = view-write d m lawful p.flash p.current_slot id k pair in
      let f' = (pico_write_key_to_slot d m p.flash p.current_slot id k).1 in
      let same = install_written id k p ok in
      (
        ap (λ r. r.0) same,
        subst (λ r. IsCoherent r.1) (sym same)
            (with_pair-IsCoherent id k p.current_slot f' p pair.id_size pair.key_size range (
              ap (slot_of p.current_slot) wrote
              ∙ slot-put_self p.current_slot (some (id, k)) (view d m p.flash))),
      )
