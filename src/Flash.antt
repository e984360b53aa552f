-- ===== src/Flash.antt =====
-- The key store of src/pico_handler.c: two key slots and the index page in the last three
-- sectors of the flash. The flash itself is the Pico SDK's and is a parameter (Flash/Device).
pub mod Device
pub mod Read
pub mod Slots
pub mod Store
pub mod Load
use lifi_auth.Common.{ℕ, zero, suc, ◌+◌, ◌-◌, ◌*◌, ◌^◌, Bool, true, false, ◌&&◌, ◌||◌, Option, some}
use lifi_auth.Common.{
  none, List, [], ◌∷◌, ◌++◌, ◌==◌, if◌then◌else◌, length, take, slice, zeros, le32,
}
use lifi_auth.Common.{bytes_eq, of_le32}
use lifi_auth.Crypto.{Mbedtls}
use Device.{FlashDevice}

abbrev pub flash_sector_size : ℕ
flash_sector_size = 4096

abbrev pub flash_page_size : ℕ
flash_page_size = 256

-- 'SESS'
abbrev pub flash_key_magic : ℕ
flash_key_magic = 0x53455353

abbrev pub slot_index_magic : ℕ
slot_index_magic = 0xA5

-- `key_flash_block_t`: 60 bytes without padding, the magic number with its low byte first.
pub record KeyBlock : Type 0 where
  pub key_id : List ℕ
  pub key : List ℕ
  pub hash : List ℕ
  pub magic : ℕ

abbrev pub block_size : ℕ
block_size = 60

abbrev pub block_bytes : KeyBlock → List ℕ
block_bytes b = b.key_id ++ (b.key ++ (b.hash ++ le32 b.magic))

abbrev pub block_of : List ℕ → KeyBlock
block_of raw = record {
  key_id = slice 0 8 raw;
  key = slice 8 16 raw;
  hash = slice 24 32 raw;
  magic = of_le32 (slice 56 4 raw);
}

-- The read-back loop of `pico_clear_slot_verify`, with the bytes left.
pub all_erased : List ℕ → Bool
all_erased [] = true
all_erased (b ∷ bs) = (b == 0xFF) && all_erased bs

module _ (d : FlashDevice) where
  abbrev pub slot_a_offset : ℕ
  slot_a_offset = d.flash_size - 3 * flash_sector_size

  abbrev pub slot_b_offset : ℕ
  slot_b_offset = d.flash_size - 2 * flash_sector_size

  abbrev pub index_offset : ℕ
  index_offset = d.flash_size - 1 * flash_sector_size

  -- `slot_to_sector_offset` and the macros SLOT_SECTOR_OFFSET and SLOT_DATA_OFFSET.
  abbrev pub slot_to_sector_offset : ℕ → ℕ
  slot_to_sector_offset slot = if slot == 0 then slot_a_offset else slot_b_offset

  -- `n` bytes from the offset `at`, through the execute-in-place window.
  unfoldable pub read_bytes : d.Flash → ℕ → ℕ → List ℕ
  read_bytes f at zero = []
  read_bytes f at (suc n) = d.read f at ∷ read_bytes f (at + 1) n

  unfoldable pub load_last_used_slot : d.Flash → Option ℕ
  unfolding read_bytes
  load_last_used_slot f =
      let slot = d.read f index_offset in
      let magic = d.read f (index_offset + 1) in
      if (magic == slot_index_magic) && ((slot == 0) || (slot == 1)) then some slot else none

  unfoldable pub store_last_used_slot : d.Flash → ℕ → d.Flash
  store_last_used_slot f slot =
      let page = slot ∷ slot_index_magic ∷ zeros 254 in
      d.program (d.erase f index_offset flash_sector_size) index_offset page

  unfoldable pub pico_clear_slot : d.Flash → ℕ → d.Flash
  pico_clear_slot f slot = d.erase f (slot_to_sector_offset slot) flash_sector_size

  unfoldable pub erase_all_key_slots : d.Flash → Bool × d.Flash
  erase_all_key_slots f =
      (true, d.erase (d.erase f slot_a_offset flash_sector_size) slot_b_offset flash_sector_size)

  unfoldable pub pico_clear_slot_verify : d.Flash → ℕ → Bool × d.Flash
  unfolding all_erased
  pico_clear_slot_verify f slot =
      let sector = slot_to_sector_offset slot in
      let f' = d.erase f sector flash_sector_size in
      if (slot == 0) || (slot == 1)
      then (all_erased (read_bytes f' sector flash_sector_size), f')
      else (false, f)

  module _ (m : Mbedtls) where
    unfoldable pub compute_key_hash : List ℕ → List ℕ → List ℕ
    compute_key_hash id key = m.sha256 (id ++ key)

    unfoldable pub validate_flash_block : KeyBlock → Bool
    unfolding compute_key_hash
    validate_flash_block b =
        (b.magic == flash_key_magic) && bytes_eq b.hash (compute_key_hash b.key_id b.key)

    -- `none` leaves the caller's buffers alone.
    unfoldable pub read_key_from_slot : d.Flash → ℕ → Option (List ℕ × List ℕ)
    unfolding validate_flash_block
    read_key_from_slot f at =
        let b = block_of (read_bytes f at block_size) in
        if validate_flash_block b then some (b.key_id, b.key) else none

    -- The block is staged into one page, which is programmed at `at` once the slot's sector is
    -- erased.
    unfoldable pub write_key_to_slot : d.Flash → ℕ → List ℕ → List ℕ → Bool × d.Flash
    unfolding compute_key_hash
    write_key_to_slot f at id key =
        let b : KeyBlock = record {
          key_id = take 8 id;
          key = take 16 key;
          hash = compute_key_hash (take 8 id) (take 16 key);
          magic = flash_key_magic;
        } in
        let page = block_bytes b ++ zeros (flash_page_size - block_size) in
        let sector = if at == slot_a_offset then slot_a_offset else slot_b_offset in
        (true, d.program (d.erase f sector flash_sector_size) at page)

    unfoldable pub load_session_key : d.Flash → Option (List ℕ × List ℕ)
    load_session_key f = elim (read_key_from_slot f slot_b_offset) [
      | some k ↦ some k
      | none ↦ read_key_from_slot f slot_a_offset
    ]

    -- The new key goes to slot B if slot A is valid, else to slot A.
    unfoldable pub store_session_key : d.Flash → List ℕ → List ℕ → Bool × d.Flash
    store_session_key f id key = elim (read_key_from_slot f slot_a_offset) [
      | some k ↦ write_key_to_slot f slot_b_offset id key
      | none ↦ write_key_to_slot f slot_a_offset id key
    ]

    unfoldable pub pico_read_key_pair_from_slot : d.Flash → ℕ → Option (List ℕ × List ℕ)
    pico_read_key_pair_from_slot f slot = read_key_from_slot f (slot_to_sector_offset slot)

    -- The ID is read into a buffer that is dropped.
    unfoldable pub pico_read_key_from_slot : d.Flash → ℕ → Option (List ℕ)
    pico_read_key_from_slot f slot = elim (read_key_from_slot f (slot_to_sector_offset slot)) [
      | some (id, key) ↦ some key
      | none ↦ none
    ]

    unfoldable pub pico_write_key_to_slot : d.Flash → ℕ → List ℕ → List ℕ → Bool × d.Flash
    pico_write_key_to_slot f slot id key = write_key_to_slot f (slot_to_sector_offset slot) id key
