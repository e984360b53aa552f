-- ===== src/Flash/Read.antt =====
-- What erasing and programming do to a run of bytes.
use lifi_auth.Common.{ℕ, zero, suc, ◌+◌, ◌≤◌, ◌<◌, ◌≡◌, ◌⊎◌, inl, inr, refl, ap₂, ◌∙◌, arith}
use lifi_auth.Common.{List, [], ◌∷◌, All, IsByte, length, get_or, take, replicate, true, subst}
use lifi_auth.Flash.{read_bytes, all_erased, flash_sector_size}
use lifi_auth.Flash.Device.{FlashDevice}

module _ (d : FlashDevice) where
  -- A run of bytes is known from its single bytes.
  pub read_bytes_ext :
      (f g : d.Flash) (at n : ℕ)
      → ((a : ℕ) → at ≤ a → a < at + n → d.read f a ≡ d.read g a)
      → read_bytes d f at n ≡ read_bytes d g at n
  unfolding read_bytes
  read_bytes_ext f g at zero h = refl
  read_bytes_ext f g at (suc n) h =
      ap₂ ◌∷◌ (h at (omega arith) (omega arith))
        (read_bytes_ext f g (at + 1) n (λ a p q. h a (omega arith) (omega arith)))

  read_bytes_list :
      (f : d.Flash) (at n : ℕ) (bs : List ℕ)
      → n ≤ length bs
      → ((i : ℕ) → i < n → d.read f (at + i) ≡ get_or bs i 0)
      → read_bytes d f at n ≡ take n bs
  unfolding read_bytes
  read_bytes_list f at zero bs l h = refl
  read_bytes_list f at (suc n) [] l h = absurd (omega arith)
  read_bytes_list f at (suc n) (b ∷ bs) l h =
      let first : d.read f at ≡ b = subst (λ t. d.read f t ≡ b) (omega arith) (h 0 (omega arith)) in
      ap₂ ◌∷◌ first (
        read_bytes_list f (at + 1) n bs (omega arith)
          (λ i p. subst (λ t. d.read f t ≡ get_or bs i 0) (omega arith) (h (suc i) (omega arith))))

  pub read_bytes-erase_out :
      (f : d.Flash) (s at n : ℕ)
      → (at + n ≤ s) ⊎ (s + flash_sector_size ≤ at)
      → read_bytes d (d.erase f s flash_sector_size) at n ≡ read_bytes d f at n
  read_bytes-erase_out f s at n h =
      read_bytes_ext (d.erase f s flash_sector_size) f at n
        (λ a p q. d.read-erase_out f s flash_sector_size a (apart a p q h))
    where
      apart :
          (a : ℕ)
          → at ≤ a
          → a < at + n
          → (at + n ≤ s) ⊎ (s + flash_sector_size ≤ at)
          → (a < s) ⊎ (s + flash_sector_size ≤ a)
      apart a p q (inl k) = inl (omega arith)
      apart a p q (inr k) = inr (omega arith)

  read_bytes_same :
      (f : d.Flash) (v at n : ℕ)
      → ((a : ℕ) → at ≤ a → a < at + n → d.read f a ≡ v)
      → read_bytes d f at n ≡ replicate n v
  unfolding read_bytes
  read_bytes_same f v at zero h = refl
  read_bytes_same f v at (suc n) h =
      ap₂ ◌∷◌ (h at (omega arith) (omega arith))
        (read_bytes_same f v (at + 1) n (λ a p q. h a (omega arith) (omega arith)))

  -- The start of an erased sector.
  pub read_bytes-erase_in :
      (f : d.Flash) (s n : ℕ)
      → n ≤ flash_sector_size
      → read_bytes d (d.erase f s flash_sector_size) s n ≡ replicate n 0xFF
  read_bytes-erase_in f s n l =
      read_bytes_same (d.erase f s flash_sector_size) 0xFF s n
        (λ a p q. d.read-erase_in f s flash_sector_size a p (omega arith))

  -- A sector is erased and a page of bytes programmed at its start: the page can be read there.
  pub read_bytes-program_in :
      (f : d.Flash) (s n : ℕ) (page : List ℕ)
      → All IsByte page
      → length page ≤ flash_sector_size
      → n ≤ length page
      → read_bytes d (d.program (d.erase f s flash_sector_size) s page) s n ≡ take n page
  read_bytes-program_in f s n page bytes fits l =
      read_bytes_list (d.program (d.erase f s flash_sector_size) s page) s n page l (λ i p.
        d.read-program_in (d.erase f s flash_sector_size) s i page bytes
          (λ j q. d.read-erase_in f s flash_sector_size (s + j) (omega arith) (omega arith))
          (omega arith))

  -- Bytes outside that sector are as before.
  pub read_bytes-program_out :
      (f : d.Flash) (s at n : ℕ) (page : List ℕ)
      → length page ≤ flash_sector_size
      → (at + n ≤ s) ⊎ (s + flash_sector_size ≤ at)
      → read_bytes d (d.program (d.erase f s flash_sector_size) s page) at n ≡ read_bytes d f at n
  read_bytes-program_out f s at n page fits h =
      read_bytes_ext (d.program (d.erase f s flash_sector_size) s page)
        (d.erase f s flash_sector_size) at n
        (λ a p q. d.read-program_out (d.erase f s flash_sector_size) s a page (apart a p q h))
      ∙ read_bytes-erase_out f s at n h
    where
      apart :
          (a : ℕ)
          → at ≤ a
          → a < at + n
          → (at + n ≤ s) ⊎ (s + flash_sector_size ≤ at)
          → (a < s) ⊎ (s + length page ≤ a)
      apart a p q (inl k) = inl (omega arith)
      apart a p q (inr k) = inr (omega arith)

pub all_erased-replicate : (n : ℕ) → all_erased (replicate n 0xFF) ≡ true
unfolding all_erased
all_erased-replicate zero = refl
all_erased-replicate (suc n) = all_erased-replicate n
