-- ===== src/Common/Bytes.antt =====
-- Bytes are numbers below 256; `memcmp(…) == 0`, zeroed buffers and integers in byte order.
use Prim.Native.Nat.{ℕ, ◌+◌, ◌*◌, ◌/◌, ◌%◌, ◌^◌, ◌<◌}
use mathlib.Core.Path.{◌≡◌, refl}
use mathlib.Core.Logic.{◌≢◌}
use mathlib.Core.Bool.{Bool, true, false, ◌&&◌}
use mathlib.Core.List.{List, [], ◌∷◌, ◌++◌}
use native.Mathlib.Omega.{arith}
use lifi_auth.Common.Tests.{◌==◌}
use lifi_auth.Common.Lists.{replicate}

abbrev pub u8 : ℕ → ℕ
u8 n = n % 2 ^ 8

abbrev pub u16 : ℕ → ℕ
u16 n = n % 2 ^ 16

abbrev pub u32 : ℕ → ℕ
u32 n = n % 2 ^ 32

-- An `unsigned long` of a 64-bit Linux.
abbrev pub u64 : ℕ → ℕ
u64 n = n % 2 ^ 64

abbrev pub All {ℓ κ} : {A : Type ℓ} → (A → Type κ) → List A → Type κ
All P [] = Unit
All P (x ∷ xs) = P x × All P xs

abbrev pub IsByte : ℕ → Type 0
IsByte b = b < 256

pub All-append {ℓ κ} :
    {A : Type ℓ} (P : A → Type κ) (xs ys : List A) → All P xs → All P ys → All P (xs ++ ys)
All-append P [] ys h k = k
All-append P (x ∷ xs) ys h k = (h.0, All-append P xs ys h.1 k)

-- `memcmp(a, b, n) == 0` on two buffers of `n` bytes.
unfoldable pub bytes_eq : List ℕ → List ℕ → Bool
bytes_eq [] [] = true
bytes_eq [] (y ∷ ys) = false
bytes_eq (x ∷ xs) [] = false
bytes_eq (x ∷ xs) (y ∷ ys) = (x == y) && bytes_eq xs ys

pub bytes_eq_refl : (xs : List ℕ) → bytes_eq xs xs ≡ true
unfolding bytes_eq
bytes_eq_refl [] = refl
bytes_eq_refl (x ∷ xs) = ground (arith, bytes_eq_refl xs)

pub bytes_eq_sound : (xs ys : List ℕ) → bytes_eq xs ys ≡ true → xs ≡ ys
unfolding bytes_eq
bytes_eq_sound [] [] h = refl
bytes_eq_sound [] (y ∷ ys) h = cc
bytes_eq_sound (x ∷ xs) [] h = cc
bytes_eq_sound (x ∷ xs) (y ∷ ys) h = ground (arith, bytes_eq_sound xs ys)

pub bytes_eq_ne : (xs ys : List ℕ) → xs ≢ ys → bytes_eq xs ys ≡ false
bytes_eq_ne xs ys ne = go (bytes_eq xs ys) refl
  where
    go : (b : Bool) → bytes_eq xs ys ≡ b → b ≡ false
    go true e = absurd (ne (bytes_eq_sound xs ys e))
    go false e = refl

abbrev pub zeros : ℕ → List ℕ
zeros n = replicate n 0

-- `(hi << 8) | lo` of two bytes, and the two bytes of a 16-bit value, high first.
abbrev pub be16 : ℕ → List ℕ
be16 v = u8 (v / 2 ^ 8) ∷ u8 v ∷ []

abbrev pub of_be16 : ℕ → ℕ → ℕ
of_be16 hi lo = hi * 2 ^ 8 + lo

pub of_be16-be16 : (v : ℕ) → v < 2 ^ 16 → of_be16 (u8 (v / 2 ^ 8)) (u8 v) ≡ v
of_be16-be16 v h = omega arith

-- A `uint32_t` as RP2040 keeps it in memory, low byte first.
abbrev pub le32 : ℕ → List ℕ
le32 v = u8 v ∷ u8 (v / 2 ^ 8) ∷ u8 (v / 2 ^ 16) ∷ u8 (v / 2 ^ 24) ∷ []

abbrev pub of_le32 : List ℕ → ℕ
of_le32 [] = 0
of_le32 (b ∷ bs) = b + 2 ^ 8 * of_le32 bs
