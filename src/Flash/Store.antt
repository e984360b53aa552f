-- ===== src/Flash/Store.antt =====
-- The key store as a whole: what each operation makes of the two slots and the index page.
use lifi_auth.Common.{ℕ, ◌+◌, ◌≤◌, ◌<◌, ◌≡◌, ◌⊎◌, inl, inr, refl, ap, ◌∙◌, sym, arith}
use lifi_auth.Common.{List, [], ◌∷◌, length, zeros, some, none, Option}
use lifi_auth.Common.{◌==◌, Bool-cases, if◌then◌else◌, replicate, get_or}
use lifi_auth.Common.{◌||◌}
use lifi_auth.Crypto.{Mbedtls}
use lifi_auth.Flash.{block_size, flash_sector_size, slot_index_magic}
use lifi_auth.Flash.{slot_a_offset, slot_b_offset, index_offset, read_bytes}
use lifi_auth.Flash.{read_key_from_slot, slot_to_sector_offset, erase_all_key_slots}
use lifi_auth.Flash.{pico_clear_slot, pico_clear_slot_verify}
use lifi_auth.Flash.{store_last_used_slot, load_last_used_slot}
use lifi_auth.Flash.Device.{FlashDevice}
use lifi_auth.Flash.Read.{read_bytes-erase_out, read_bytes-erase_in, read_bytes-program_in}
use lifi_auth.Flash.Read.{read_bytes-program_out, all_erased-replicate}
use lifi_auth.Flash.Slots.{IsOutside, slots_apart, index_apart}
use lifi_auth.Flash.Slots.{a_ne_b, read_key-same, All-zeros}

-- The two slots and the index page as the operations see them.
pub record StoreView : Type 0 where
  pub slot_a : Option (List ℕ × List ℕ)
  pub slot_b : Option (List ℕ × List ℕ)
  pub last_used : Option ℕ

-- The specification: a store of two optional keys and an optional slot number.
abbrev pub put_slot : ℕ → Option (List ℕ × List ℕ) → StoreView → StoreView
put_slot slot k v = if slot == 0 then record v { slot_a = k } else record v { slot_b = k }

module _ (d : FlashDevice) (m : Mbedtls) where
  unfoldable pub view : d.Flash → StoreView
  view f = record {
    slot_a = read_key_from_slot d m f (slot_a_offset d);
    slot_b = read_key_from_slot d m f (slot_b_offset d);
    last_used = load_last_used_slot d f;
  }

  load_last-same :
      (f g : d.Flash)
      → read_bytes d f (index_offset d) 2 ≡ read_bytes d g (index_offset d) 2
      → load_last_used_slot d f ≡ load_last_used_slot d g
  unfolding load_last_used_slot
  load_last-same f g e =
      let first = ap (λ l. get_or l 0 0) e in
      let second = ap (λ l. get_or l 1 0) e in rw (first, second) refl

  -- An erased block carries no magic number.
  erased_invalid :
      (f : d.Flash) (at : ℕ)
      → read_bytes d f at block_size ≡ replicate block_size 0xFF
      → read_key_from_slot d m f at ≡ none
  unfolding read_key_from_slot
  erased_invalid f at e = rw e refl

  -- An operation that changes the sector of one slot at most.
  abbrev pub IsLocal : d.Flash → d.Flash → ℕ → Type 0
  IsLocal f g at =
      (other n : ℕ) → IsOutside d at other n → read_bytes d g other n ≡ read_bytes d f other n

  view-change_a :
      (f g : d.Flash) (k : Option (List ℕ × List ℕ))
      → IsLocal f g (slot_a_offset d)
      → read_key_from_slot d m g (slot_a_offset d) ≡ k
      → view g ≡ record (view f) { slot_a = k }
  unfolding view
  view-change_a f g k same here = λ i. record {
    slot_a = here i;
    slot_b =
        read_key-same d m g f (slot_b_offset d)
          (same (slot_b_offset d) block_size
            (slots_apart d (slot_a_offset d) (slot_b_offset d) (inl refl) (inr refl) (a_ne_b d)))
          i;
    last_used =
        load_last-same g f (same (index_offset d) 2 (index_apart d (slot_a_offset d) (inl refl))) i;
  }

  view-change_b :
      (f g : d.Flash) (k : Option (List ℕ × List ℕ))
      → IsLocal f g (slot_b_offset d)
      → read_key_from_slot d m g (slot_b_offset d) ≡ k
      → view g ≡ record (view f) { slot_b = k }
  unfolding view
  view-change_b f g k same here = λ i. record {
    slot_a =
        read_key-same d m g f (slot_a_offset d)
          (same (slot_a_offset d) block_size (
            slots_apart d (slot_b_offset d) (slot_a_offset d) (inr refl) (inl refl)
              (λ e. a_ne_b d (sym e))))
          i;
    slot_b = here i;
    last_used =
        load_last-same g f (same (index_offset d) 2 (index_apart d (slot_b_offset d) (inr refl))) i;
  }

  pub view-change :
      (f g : d.Flash) (slot : ℕ) (k : Option (List ℕ × List ℕ))
      → IsLocal f g (slot_to_sector_offset d slot)
      → read_key_from_slot d m g (slot_to_sector_offset d slot) ≡ k
      → view g ≡ put_slot slot k (view f)
  view-change f g slot k same here = elim (Bool-cases (slot == 0)) [
    | inl e ↦ rw e (view-change_a f g k (rw e at same) (rw e at here))
    | inr e ↦ rw e (view-change_b f g k (rw e at same) (rw e at here))
  ]

  -- Clearing a slot empties it and leaves the other slot and the index page as they were.
  pub view-clear :
      (f : d.Flash) (slot : ℕ) → view (pico_clear_slot d f slot) ≡ put_slot slot none (view f)
  unfolding pico_clear_slot
  view-clear f slot =
      view-change f (d.erase f (slot_to_sector_offset d slot) flash_sector_size) slot none
        (λ other n h. read_bytes-erase_out d f (slot_to_sector_offset d slot) other n (turn h))
        (erased_invalid _ _
          (read_bytes-erase_in d f (slot_to_sector_offset d slot) block_size (omega arith)))
    where
      turn : {x y z w : ℕ} → (x ≤ y) ⊎ (z ≤ w) → (x ≤ y) ⊎ (z ≤ w)
      turn h = h

  -- `pico_clear_slot_verify` answers true exactly for slot 0 or 1, which it empties; for any
  -- other slot nothing changes.
  pub view-clear_verify :
      (f : d.Flash) (slot : ℕ)
      → ((pico_clear_slot_verify d f slot).0 ≡ ((slot == 0) || (slot == 1)))
        × (view (pico_clear_slot_verify d f slot).1
            ≡ (if (slot == 0) || (slot == 1) then put_slot slot none (view f) else view f))
  unfolding pico_clear_slot_verify
  view-clear_verify f slot = elim (Bool-cases ((slot == 0) || (slot == 1))) [
    | inl e ↦ rw e (
      rw (read_bytes-erase_in d f (slot_to_sector_offset d slot) flash_sector_size (omega arith))
          (all_erased-replicate flash_sector_size),
      (unfold pico_clear_slot in view-clear f slot),
    )
    | inr e ↦ rw e (refl, refl)
  ]

  -- Both slots are empty afterwards, and the index page is as it was.
  pub view-erase_all :
      (f : d.Flash)
      → view (erase_all_key_slots d f).1
        ≡ record { slot_a = none; slot_b = none; last_used = (view f).last_used }
  unfolding erase_all_key_slots pico_clear_slot
  view-erase_all f = view-clear (pico_clear_slot d f 0) 1 ∙ ap (put_slot 1 none) (view-clear f 0)

  -- Storing the slot number (a byte) leaves both key slots as they were; it is read back if it
  -- is 0 or 1, and any other number is not accepted.
  pub view-store_last_used :
      (f : d.Flash) (slot : ℕ)
      → slot < 256
      → view (store_last_used_slot d f slot)
        ≡ record (view f) { last_used = if (slot == 0) || (slot == 1) then some slot else none }
  unfolding view store_last_used_slot load_last_used_slot
  view-store_last_used f slot h = λ i. record {
    slot_a =
        read_key-same d m g f (slot_a_offset d) (outside (slot_a_offset d) (omega (arith, d.room)))
          i;
    slot_b =
        read_key-same d m g f (slot_b_offset d) (outside (slot_b_offset d) (omega (arith, d.room)))
          i;
    last_used = stored i;
  }
    where
      page : List ℕ
      page = slot ∷ slot_index_magic ∷ zeros 254

      size : length page ≡ 256
      size = refl

      g : d.Flash
      g = d.program (d.erase f (index_offset d) flash_sector_size) (index_offset d) page

      outside :
          (at : ℕ)
          → at + block_size ≤ index_offset d
          → read_bytes d g at block_size ≡ read_bytes d f at block_size
      outside at k =
          read_bytes-program_out d f (index_offset d) at block_size page (omega (arith, size))
            (inl k)

      written : read_bytes d g (index_offset d) 2 ≡ slot ∷ slot_index_magic ∷ []
      written =
          read_bytes-program_in d f (index_offset d) 2 page (h, (omega arith, All-zeros 254))
            (omega (arith, size)) (omega (arith, size))

      stored : load_last_used_slot d g ≡ (if (slot == 0) || (slot == 1) then some slot else none)
      stored =
          let first = ap (λ l. get_or l 0 0) written in
          let second = ap (λ l. get_or l 1 0) written in rw (first, second) refl
