-- ===== src/Crc/Bits.antt =====
-- Laws of the exclusive or and of a single-bit mask, at every width.
use native.Mathlib.Nat.{pow-suc}
use Prim.Native.Nat.{digits, differ, bit_xor-bitwise, bit_and-bitwise}
use lifi_auth.Common.{ℕ, zero, suc, ◌+◌, ◌*◌, ◌/◌, ◌%◌, ◌^◌, ◌≤◌, ◌<◌, bit_and, bit_xor, min}
use lifi_auth.Common.{◌≡◌, refl, ap, subst, sym, ◌∙◌, arith}

module _ (unit : ℕ → ℕ) (op : ℕ → ℕ → ℕ) where
  digits-none : (fuel b : ℕ) → digits unit op fuel 0 b ≡ unit b
  digits-none zero b = refl
  digits-none (suc fuel) b = refl

  -- All fuels that are at least the first number give the same.
  enough :
      (a b some more : ℕ) → a ≤ some → a ≤ more → digits unit op more a b ≡ digits unit op some a b
  enough zero b some more h k = digits-none more b ∙ sym (digits-none some b)
  enough (suc a) b (suc some) (suc more) h k =
      let rest : digits unit op more (suc a / 2) (b / 2) ≡ digits unit op some (suc a / 2) (b / 2) =
        enough (suc a / 2) (b / 2) some more (omega arith) (omega arith) in
      omega (arith, rest)
  enough (suc a) b zero more h k = absurd (omega arith)
  enough (suc a) b (suc some) zero h k = absurd (omega arith)

  low_digit :
      (a b : ℕ)
      → digits unit op (suc a) (suc a) b
        ≡ op (suc a % 2) (b % 2) + 2 * digits unit op (suc a / 2) (suc a / 2) (b / 2)
  low_digit a b =
      let rest = enough (suc a / 2) (b / 2) (suc a / 2) a (omega arith) (omega arith) in
      omega (arith, rest)

-- The lowest digit of an exclusive or.
abbrev pub bit_sum : ℕ → ℕ → ℕ
bit_sum a b = differ (a % 2) (b % 2)

differ-zero : (y : ℕ) → differ 0 y ≡ y
differ-zero y = refl

pub xor_low : (a b : ℕ) → bit_xor a b ≡ bit_sum a b + 2 * bit_xor (a / 2) (b / 2)
xor_low zero b =
    let all = bit_xor-bitwise 0 b in
    let half = bit_xor-bitwise 0 (b / 2) in omega (arith, all, half, differ-zero (b % 2))
xor_low (suc a) b =
    let all = bit_xor-bitwise (suc a) b in
    let half = bit_xor-bitwise (suc a / 2) (b / 2) in
    omega (arith, all, half, low_digit (λ y. y) differ a b)

and_low : (a b : ℕ) → bit_and a b ≡ min (a % 2) (b % 2) + 2 * bit_and (a / 2) (b / 2)
and_low zero b =
    let all = bit_and-bitwise 0 b in
    let half = bit_and-bitwise 0 (b / 2) in omega (arith, all, half)
and_low (suc a) b =
    let all = bit_and-bitwise (suc a) b in
    let half = bit_and-bitwise (suc a / 2) (b / 2) in
    omega (arith, all, half, low_digit (λ y. 0) min a b)

-- Two digits are 0 or 1, and so is their exclusive or.
differ_cases : (x y : ℕ) → x < 2 → y < 2 → (differ x y < 2) × (differ x (differ x y) ≡ y)
differ_cases zero y p q = (q, refl)
differ_cases (suc zero) zero p q = (omega arith, refl)
differ_cases (suc zero) (suc zero) p q = (omega arith, refl)
differ_cases (suc zero) (suc (suc y)) p q = absurd (omega arith)
differ_cases (suc (suc x)) y p q = absurd (omega arith)

bit_sum-lt : (a b : ℕ) → bit_sum a b < 2
bit_sum-lt a b = (differ_cases (a % 2) (b % 2) (omega arith) (omega arith)).0

differ_again : (a b : ℕ) → differ (a % 2) (bit_sum a b) ≡ b % 2
differ_again a b = (differ_cases (a % 2) (b % 2) (omega arith) (omega arith)).1

half_xor : (a b : ℕ) → bit_xor a b / 2 ≡ bit_xor (a / 2) (b / 2)
half_xor a b = omega (arith, xor_low a b, bit_sum-lt a b)

odd_xor : (a b : ℕ) → bit_xor a b % 2 ≡ bit_sum a b
odd_xor a b = omega (arith, xor_low a b, bit_sum-lt a b)

xor_cancel_fuel : (n a b : ℕ) → a ≤ n → bit_xor a (bit_xor a b) ≡ b
xor_cancel_fuel n zero b h = omega (arith, bit_xor-bitwise 0 b, bit_xor-bitwise 0 (bit_xor 0 b))
xor_cancel_fuel zero (suc a) b h = absurd (omega arith)
xor_cancel_fuel (suc n) (suc a) b h =
    xor_low (suc a) (bit_xor (suc a) b)
    ∙ rw (half_xor (suc a) b, odd_xor (suc a) b, differ_again (suc a) b)
        (omega (arith, xor_cancel_fuel n (suc a / 2) (b / 2) (omega arith)))

-- The same mask twice changes nothing.
pub xor_cancel : (a b : ℕ) → bit_xor a (bit_xor a b) ≡ b
xor_cancel a b = xor_cancel_fuel a a b (omega arith)

differ_comm : (x y : ℕ) → differ x y ≡ differ y x
differ_comm zero zero = refl
differ_comm zero (suc y) = refl
differ_comm (suc x) zero = refl
differ_comm (suc x) (suc y) = differ_comm x y

xor_comm_fuel : (n a b : ℕ) → a ≤ n → b ≤ n → bit_xor a b ≡ bit_xor b a
xor_comm_fuel zero zero zero h k = refl
xor_comm_fuel zero (suc a) b h k = absurd (omega arith)
xor_comm_fuel zero zero (suc b) h k = absurd (omega arith)
xor_comm_fuel (suc n) a b h k = omega (
  arith,
  xor_low a b,
  xor_low b a,
  differ_comm (a % 2) (b % 2),
  xor_comm_fuel n (a / 2) (b / 2) (omega arith) (omega arith),
)

pub xor_comm : (a b : ℕ) → bit_xor a b ≡ bit_xor b a
xor_comm a b = xor_comm_fuel (a + b) a b (omega arith) (omega arith)

-- The width is kept.
pub xor_lt : (k a b : ℕ) → a < 2 ^ k → b < 2 ^ k → bit_xor a b < 2 ^ k
xor_lt zero zero zero p q = omega arith
xor_lt zero (suc a) b p q = absurd (omega arith)
xor_lt zero zero (suc b) p q = absurd (omega arith)
xor_lt (suc k) a b p q = omega (
  arith,
  pow-suc 2 k,
  xor_low a b,
  bit_sum-lt a b,
  xor_lt k (a / 2) (b / 2) (omega (arith, pow-suc 2 k)) (omega (arith, pow-suc 2 k)),
)

-- `k` halvings, as `omega` reads them at a numeral.
abbrev pub halve : ℕ → ℕ → ℕ
halve zero a = a
halve (suc k) a = halve k (a / 2)

pub halve_xor : (k a b : ℕ) → halve k (bit_xor a b) ≡ bit_xor (halve k a) (halve k b)
halve_xor zero a b = refl
halve_xor (suc k) a b = rw (half_xor a b) (halve_xor k (a / 2) (b / 2))

-- A mask of no bits, for numbers below `2 ^ k`.
mask_none : (k a : ℕ) → a < 2 ^ k → bit_and a 0 ≡ 0
mask_none zero zero h = refl
mask_none zero (suc a) h = absurd (omega arith)
mask_none (suc k) a h =
    let half = mask_none k (a / 2) (omega (arith, pow-suc 2 k)) in omega (arith, and_low a 0, half)

below_pow : (a : ℕ) → a < 2 ^ a
below_pow zero = omega arith
below_pow (suc a) = omega (arith, below_pow a, pow-suc 2 a)

odd_mask : (a : ℕ) → bit_and a 1 ≡ a % 2
odd_mask a = omega (arith, and_low a 1, mask_none (a / 2) (a / 2) (below_pow (a / 2)))

-- A mask of the one bit `k`.
pub bit_and_pow : (k a : ℕ) → bit_and a (2 ^ k) ≡ halve k a % 2 * 2 ^ k
bit_and_pow zero a = omega (arith, odd_mask a)
bit_and_pow (suc k) a =
    let half : bit_and (a / 2) (2 ^ suc k / 2) ≡ halve k (a / 2) % 2 * 2 ^ k =
      subst (λ t. bit_and (a / 2) t ≡ halve k (a / 2) % 2 * 2 ^ k) (omega (arith, pow-suc 2 k))
        (bit_and_pow k (a / 2)) in
    let scaled = ap (λ (t : ℕ). halve k (a / 2) % 2 * t) (pow-suc 2 k) in
    omega (arith, pow-suc 2 k, and_low a (2 ^ suc k), half, scaled)
