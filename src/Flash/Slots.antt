-- ===== src/Flash/Slots.antt =====
-- A key that is written to a slot can be read there, and no other slot changes.
use lifi_auth.Common.{
  ℕ, zero, suc, ◌+◌, ◌≤◌, ◌≡◌, ◌≢◌, ◌⊎◌, inl, inr, refl, ap, if◌then◌else◌, Bool-cases, ==_ne, ◌∙◌,
  sym,
}
use lifi_auth.Common.{arith, List, ◌++◌, All, All-append, IsByte, length, take, take_all, slice}
use lifi_auth.Common.{slice-append, take-append, length-append, le32, of_le32, zeros, some, none}
use lifi_auth.Common.{bytes_eq_refl, ==_refl, ◌==◌, drop-append_past}
use lifi_auth.Common.{if_some, length-take, length-drop, slice, drop}
use lifi_auth.Crypto.{Mbedtls, IsLawful}
use lifi_auth.Flash.{block_of, block_size, flash_key_magic, flash_sector_size}
use lifi_auth.Flash.{slot_a_offset, slot_b_offset, index_offset, read_bytes, compute_key_hash}
use lifi_auth.Flash.{
  validate_flash_block, read_key_from_slot, write_key_to_slot, slot_to_sector_offset,
}
use lifi_auth.Flash.Device.{FlashDevice}
use lifi_auth.Flash.Read.{read_bytes-program_in}
use lifi_auth.Flash.Read.{read_bytes-program_out}

-- An ID and a key of the sizes that the sources pass about.
pub record IsKeyPair (id key : List ℕ) : Type 0 where
  pub id_size : length id ≡ 8
  pub key_size : length key ≡ 16
  pub id_bytes : All IsByte id
  pub key_bytes : All IsByte key

le32-bytes : (v : ℕ) → All IsByte (le32 v)
le32-bytes v = omega arith

pub All-zeros : (n : ℕ) → All IsByte (zeros n)
All-zeros zero = tt
All-zeros (suc n) = (omega arith, All-zeros n)

-- The struct is read back from its bytes.
block_of-bytes :
    (id key hash : List ℕ)
    → length id ≡ 8
    → length key ≡ 16
    → length hash ≡ 32
    → block_of (id ++ (key ++ (hash ++ le32 flash_key_magic)))
      ≡ record { key_id = id; key = key; hash = hash; magic = flash_key_magic }
block_of-bytes id key hash a b c = λ i. record {
  key_id = take-append 8 id (key ++ (hash ++ le32 flash_key_magic)) a i;
  key = slice-append 8 8 16 id key (hash ++ le32 flash_key_magic) refl a b i;
  hash = third i;
  magic = of_le32 (fourth i);
}
  where
    third : slice 24 32 (id ++ (key ++ (hash ++ le32 flash_key_magic))) ≡ hash
    third =
        ap (take 32) (drop-append_past 24 8 16 id (key ++ (hash ++ le32 flash_key_magic)) refl a)
        ∙ slice-append 16 16 32 key hash (le32 flash_key_magic) refl b c

    fourth : slice 56 4 (id ++ (key ++ (hash ++ le32 flash_key_magic))) ≡ le32 flash_key_magic
    fourth = ap (take 4) (
        drop-append_past 56 8 48 id (key ++ (hash ++ le32 flash_key_magic)) refl a
        ∙ drop-append_past 48 16 32 key (hash ++ le32 flash_key_magic) refl b
        ∙ drop-append_past 32 32 0 hash (le32 flash_key_magic) refl c)

module _ (d : FlashDevice) where
  -- The start of one of the two key sectors.
  abbrev pub IsSlotOffset : ℕ → Type 0
  IsSlotOffset at = (at ≡ slot_a_offset d) ⊎ (at ≡ slot_b_offset d)

  -- A run of bytes that lies outside the sector at `at`.
  abbrev pub IsOutside : ℕ → ℕ → ℕ → Type 0
  IsOutside at where_ n = (where_ + n ≤ at) ⊎ (at + flash_sector_size ≤ where_)

  pub slot-IsSlotOffset : (slot : ℕ) → IsSlotOffset (slot_to_sector_offset d slot)
  slot-IsSlotOffset slot = elim (Bool-cases (slot == 0)) [
    | inl e ↦ inl (rw e refl)
    | inr e ↦ inr (rw e refl)
  ]

  -- The blocks of the other slot and the index page lie outside a slot's sector.
  pub slots_apart :
      (at other : ℕ)
      → IsSlotOffset at
      → IsSlotOffset other
      → at ≢ other
      → IsOutside at other block_size
  slots_apart at other p q ne = go p q
    where
      go : IsSlotOffset at → IsSlotOffset other → IsOutside at other block_size
      go (inl x) (inl y) = absurd (ne (x ∙ sym y))
      go (inr x) (inr y) = absurd (ne (x ∙ sym y))
      go (inl x) (inr y) = inr (omega (arith, d.room))
      go (inr x) (inl y) = inl (omega (arith, d.room))

  pub index_apart : (at : ℕ) → IsSlotOffset at → IsOutside at (index_offset d) 2
  index_apart at (inl x) = inr (omega (arith, d.room))
  index_apart at (inr x) = inr (omega (arith, d.room))

  pub a_ne_b : slot_a_offset d ≢ slot_b_offset d
  a_ne_b e = absurd (omega (arith, d.room))

  sector_of :
      (at : ℕ)
      → IsSlotOffset at
      → (if at == slot_a_offset d then slot_a_offset d else slot_b_offset d) ≡ at
  sector_of at (inl x) = rw x (rw (==_refl (slot_a_offset d)) refl)
  sector_of at (inr x) =
      rw x (rw (==_ne (slot_b_offset d) (slot_a_offset d) (λ e. a_ne_b (sym e))) refl)

module _ (d : FlashDevice) (m : Mbedtls) where
  abbrev key_page : List ℕ → List ℕ → List ℕ
  key_page id key =
      (id ++ (key ++ (compute_key_hash d m id key ++ le32 flash_key_magic))) ++ zeros 196

  -- Reading a slot depends on the bytes of its block alone.
  pub read_key-same :
      (f g : d.Flash) (at : ℕ)
      → read_bytes d f at block_size ≡ read_bytes d g at block_size
      → read_key_from_slot d m f at ≡ read_key_from_slot d m g at
  unfolding read_key_from_slot
  read_key-same f g at e = rw e refl

  write_key-effect :
      (f : d.Flash) (at : ℕ) (id key : List ℕ)
      → IsSlotOffset d at
      → IsKeyPair id key
      → (write_key_to_slot d m f at id key).1
        ≡ d.program (d.erase f at flash_sector_size) at (key_page id key)
  unfolding write_key_to_slot
  write_key-effect f at id key p k =
      rw (sector_of d at p, take_all 8 id k.id_size, take_all 16 key k.key_size) refl

  module _ (lawful : IsLawful m) where
    hash_size : (id key : List ℕ) → length (compute_key_hash d m id key) ≡ 32
    unfolding compute_key_hash
    hash_size id key = (lawful.sha256_size (id ++ key)).0

    key_page-bytes : (id key : List ℕ) → IsKeyPair id key → All IsByte (key_page id key)
    key_page-bytes id key k =
        let hash : List ℕ = compute_key_hash d m id key in
        let hashed : All IsByte hash =
          unfold compute_key_hash in (lawful.sha256_size (id ++ key)).1 in
        let tail =
          All-append IsByte hash (le32 flash_key_magic) hashed (le32-bytes flash_key_magic) in
        let mid = All-append IsByte key (hash ++ le32 flash_key_magic) k.key_bytes tail in
        All-append IsByte _ (zeros 196)
          (All-append IsByte id (key ++ (hash ++ le32 flash_key_magic)) k.id_bytes mid)
          (All-zeros 196)

    block_length :
        (id key : List ℕ)
        → IsKeyPair id key
        → length (id ++ (key ++ (compute_key_hash d m id key ++ le32 flash_key_magic))) ≡ 60
    block_length id key k =
        let hash : List ℕ = compute_key_hash d m id key in
        omega (
          arith,
          length-append id (key ++ (hash ++ le32 flash_key_magic)),
          length-append key (hash ++ le32 flash_key_magic),
          length-append hash (le32 flash_key_magic),
          hash_size id key,
          k.id_size,
          k.key_size,
        )

    key_page-length : (id key : List ℕ) → IsKeyPair id key → length (key_page id key) ≡ 256
    key_page-length id key k = length-append _ (zeros 196) ∙ rw (block_length id key k) refl

    pub read_key-write :
        (f : d.Flash) (at : ℕ) (id key : List ℕ)
        → IsSlotOffset d at
        → IsKeyPair id key
        → read_key_from_slot d m (write_key_to_slot d m f at id key).1 at ≡ some (id, key)
    unfolding read_key_from_slot
    read_key-write f at id key p k =
        let hash : List ℕ = compute_key_hash d m id key in
        let block : List ℕ = id ++ (key ++ (hash ++ le32 flash_key_magic)) in
        let raw : read_bytes d (write_key_to_slot d m f at id key).1 at block_size ≡ block =
          rw (write_key-effect f at id key p k) (
            read_bytes-program_in d f at block_size (key_page id key) (key_page-bytes id key k)
              (omega (arith, key_page-length id key k)) (omega (arith, key_page-length id key k))
            ∙ take-append block_size block (zeros 196) (block_length id key k)) in
        ap (λ b. if validate_flash_block d m b then some (b.key_id, b.key) else none)
          (ap block_of raw ∙ block_of-bytes id key hash k.id_size k.key_size (hash_size id key))
        ∙ rw (bytes_eq_refl hash) refl

    pub read_key-write_other :
        (f : d.Flash) (at other n : ℕ) (id key : List ℕ)
        → IsSlotOffset d at
        → IsKeyPair id key
        → IsOutside d at other n
        → read_bytes d (write_key_to_slot d m f at id key).1 other n ≡ read_bytes d f other n
    read_key-write_other f at other n id key p k apart = rw (write_key-effect f at id key p k) (
        read_bytes-program_out d f at other n (key_page id key)
          (omega (arith, key_page-length id key k)) apart)

module _ (d : FlashDevice) (m : Mbedtls) where
  length-read_bytes : (f : d.Flash) (at n : ℕ) → length (read_bytes d f at n) ≡ n
  unfolding read_bytes
  length-read_bytes f at zero = refl
  length-read_bytes f at (suc n) = ap suc (length-read_bytes f (at + 1) n)

  -- A pair that is read has the sizes of the struct's fields.
  pub read_key-size :
      (f : d.Flash) (at : ℕ) {id key : List ℕ}
      → read_key_from_slot d m f at ≡ some (id, key)
      → (length id ≡ 8) × (length key ≡ 16)
  unfolding read_key_from_slot
  read_key-size f at {id} {key} e =
      let raw : List ℕ = read_bytes d f at block_size in
      let (_, same) =
        if_some (validate_flash_block d m (block_of raw))
          (some ((block_of raw).key_id, (block_of raw).key)) (id, key) e in
      let id_same : slice 0 8 raw ≡ id = cc in
      let key_same : slice 8 16 raw ≡ key = cc in
      let size = length-read_bytes f at block_size in
      (
        sym (ap length id_same) ∙ omega (arith, length-take 8 raw, size),
        sym (ap length key_same)
            ∙ omega (arith, length-take 16 (drop 8 raw), length-drop 8 raw, size),
      )
