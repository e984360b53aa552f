-- ===== src/Flash/Device.antt =====
-- The Pico SDK's flash (hardware/flash.h), which is not part of the repository: erasing a range
-- sets its bytes to 0xFF, and programming stores bytes over erased ones.
use lifi_auth.Common.{ℕ, ◌+◌, ◌-◌, ◌≤◌, ◌<◌, ◌≡◌, ◌⊎◌, refl, arith, List, All, IsByte, length}
use lifi_auth.Common.{get_or, if◌then◌else◌, ltb, leb, ◌&&◌, Bool, true, false}

pub record FlashDevice : Type 1 where
  pub Flash : Type 0
  pub flash_size : ℕ
  pub read : Flash → ℕ → ℕ
  pub erase : Flash → ℕ → ℕ → Flash
  pub program : Flash → ℕ → List ℕ → Flash
  -- The board has room for the three sectors that the sources place at the end.
  pub room : 12288 ≤ flash_size
  pub read-erase_in :
      (f : Flash) (at len a : ℕ) → at ≤ a → a < at + len → read (erase f at len) a ≡ 0xFF
  pub read-erase_out :
      (f : Flash) (at len a : ℕ) → (a < at) ⊎ (at + len ≤ a) → read (erase f at len) a ≡ read f a
  pub read-program_in :
      (f : Flash) (at i : ℕ) (page : List ℕ)
      → All IsByte page
      → ((j : ℕ) → j < length page → read f (at + j) ≡ 0xFF)
      → i < length page
      → read (program f at page) (at + i) ≡ get_or page i 0
  pub read-program_out :
      (f : Flash) (at a : ℕ) (page : List ℕ)
      → (a < at) ⊎ (at + length page ≤ a)
      → read (program f at page) a ≡ read f a

-- A flash of 2 MB as a function, to show that the description can be met.
abbrev pub within : ℕ → ℕ → ℕ → Bool
within at len a = leb at a && ltb a (at + len)

abbrev pub sim_erase : (ℕ → ℕ) → ℕ → ℕ → ℕ → ℕ
sim_erase f at len a = if within at len a then 0xFF else f a

abbrev pub sim_program : (ℕ → ℕ) → ℕ → List ℕ → ℕ → ℕ
sim_program f at page a = if within at (length page) a then get_or page (a - at) 0 else f a

pub within_in : (at len a : ℕ) → at ≤ a → a < at + len → within at len a ≡ true
within_in at len a h k = ground arith

pub within_out : (at len a : ℕ) → (a < at) ⊎ (at + len ≤ a) → within at len a ≡ false
within_out at len a h = ground arith

pub add_sub : (at i : ℕ) → at + i - at ≡ i
add_sub at i = omega arith

abbrev pub sim_flash : FlashDevice
sim_flash = record {
  Flash = ℕ → ℕ;
  flash_size = 2097152;
  read = λ f a. f a;
  erase = sim_erase;
  program = sim_program;
  room = omega arith;
  read-erase_in = λ f at len a h k. rw (within_in at len a h k) refl;
  read-erase_out = λ f at len a h. rw (within_out at len a h) refl;
  read-program_in = λ f at i page h e l.
      rw (within_in at (length page) (at + i) (omega arith) (omega arith), add_sub at i) refl;
  read-program_out = λ f at a page h. rw (within_out at (length page) a h) refl;
}
