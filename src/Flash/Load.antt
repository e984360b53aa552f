-- ===== src/Flash/Load.antt =====
-- Writing a key, and which key is loaded after a store.
use lifi_auth.Common.{ℕ, ◌≡◌, inl, inr, refl, ap, ◌∙◌, sym}
use lifi_auth.Common.{List, true, some, none, Option}
use lifi_auth.Common.{Option-cases}
use lifi_auth.Crypto.{Mbedtls, IsLawful}
use lifi_auth.Flash.{write_key_to_slot, slot_to_sector_offset}
use lifi_auth.Flash.{load_session_key, store_session_key}
use lifi_auth.Flash.{pico_write_key_to_slot}
use lifi_auth.Flash.Device.{FlashDevice}
use lifi_auth.Flash.Slots.{IsKeyPair, slot-IsSlotOffset}
use lifi_auth.Flash.Slots.{read_key-write, read_key-write_other}
use lifi_auth.Flash.Store.{StoreView, view, put_slot, view-change}

-- What `load_session_key` answers: the key of slot B if that is valid, else that of slot A.
abbrev preferred : StoreView → Option (List ℕ × List ℕ)
preferred v = elim v.slot_b [ some k ↦ some k | none ↦ v.slot_a ]

-- The slot that `store_session_key` writes to.
abbrev pub free_slot : Option (List ℕ × List ℕ) → ℕ
free_slot none = 0
free_slot (some k) = 1

-- What a load answers after a store, from what the slots A and B held before it.
abbrev pub loaded_after :
    List ℕ × List ℕ → Option (List ℕ × List ℕ) → Option (List ℕ × List ℕ) → Option (List ℕ × List ℕ)
loaded_after new (some a) b = some new
loaded_after new none (some b) = some b
loaded_after new none none = some new

module _ (d : FlashDevice) (m : Mbedtls) (lawful : IsLawful m) where
  -- Writing a key pair to a slot reports success, puts the pair into that slot, and leaves the
  -- other slot and the index page as they were.
  pub view-write :
      (f : d.Flash) (slot : ℕ) (id key : List ℕ)
      → IsKeyPair id key
      → ((pico_write_key_to_slot d m f slot id key).0 ≡ true)
        × (view d m (pico_write_key_to_slot d m f slot id key).1
            ≡ put_slot slot (some (id, key)) (view d m f))
  unfolding pico_write_key_to_slot
  view-write f slot id key k = (
    (unfold write_key_to_slot in refl),
    view-change d m f (write_key_to_slot d m f (slot_to_sector_offset d slot) id key).1 slot
        (some (id, key))
        (λ other n h.
          read_key-write_other d m lawful f (slot_to_sector_offset d slot) other n id key
            (slot-IsSlotOffset d slot) k h)
        (read_key-write d m lawful f (slot_to_sector_offset d slot) id key
          (slot-IsSlotOffset d slot) k),
  )

  pub load-view : (f : d.Flash) → load_session_key d m f ≡ preferred (view d m f)
  unfolding load_session_key view
  load-view f = refl

  store_empty :
      (f : d.Flash) (id key : List ℕ)
      → (view d m f).slot_a ≡ none
      → store_session_key d m f id key ≡ pico_write_key_to_slot d m f 0 id key
  unfolding view store_session_key pico_write_key_to_slot
  store_empty f id key e = rw (e, store_session_key) refl

  store_full :
      (f : d.Flash) (id key : List ℕ) {old : List ℕ × List ℕ}
      → (view d m f).slot_a ≡ some old
      → store_session_key d m f id key ≡ pico_write_key_to_slot d m f 1 id key
  unfolding view store_session_key pico_write_key_to_slot
  store_full f id key e = rw (e, store_session_key) refl

  view-store :
      (f : d.Flash) (id key : List ℕ)
      → IsKeyPair id key
      → view d m (store_session_key d m f id key).1
        ≡ put_slot (free_slot (view d m f).slot_a) (some (id, key)) (view d m f)
  view-store f id key k = elim (Option-cases (view d m f).slot_a) [
    | inl e ↦
        ap (λ r. view d m r.1) (store_empty f id key e)
        ∙ (view-write f 0 id key k).1
        ∙ ap (λ o. put_slot (free_slot o) (some (id, key)) (view d m f)) (sym e)
    | inr (old, e) ↦
        ap (λ r. view d m r.1) (store_full f id key e)
        ∙ (view-write f 1 id key k).1
        ∙ ap (λ o. put_slot (free_slot o) (some (id, key)) (view d m f)) (sym e)
  ]

  preferred-put :
      (v : StoreView) (a b : Option (List ℕ × List ℕ)) (new : List ℕ × List ℕ)
      → v.slot_b ≡ b
      → preferred (put_slot (free_slot a) (some new) v) ≡ loaded_after new a b
  preferred-put v none none new e = rw e refl
  preferred-put v none (some b) new e = rw e refl
  preferred-put v (some a) b new e = refl

  -- `store_session_key` puts a key pair into slot B if slot A is valid and into slot A
  -- otherwise, and leaves all else as it was. What `load_session_key` then answers is the new
  -- pair, except where slot A was empty and slot B was not: there the old key of slot B is
  -- still the one that is loaded.
  pub load-store :
      (f : d.Flash) (id key : List ℕ)
      → IsKeyPair id key
      → (view d m (store_session_key d m f id key).1
          ≡ put_slot (free_slot (view d m f).slot_a) (some (id, key)) (view d m f))
        × (load_session_key d m (store_session_key d m f id key).1
            ≡ loaded_after (id, key) (view d m f).slot_a (view d m f).slot_b)
  load-store f id key k = (
    view-store f id key k,
    load-view (store_session_key d m f id key).1
        ∙ ap preferred (view-store f id key k)
        ∙ preferred-put (view d m f) (view d m f).slot_a (view d m f).slot_b (id, key) refl,
  )
