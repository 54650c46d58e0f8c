-- ===== src/Common/Bits.antt =====
-- `|`, `&` and `^` at variables, as arithmetic, at every width.
use Prim.Native.Nat.{
  ℕ, zero, suc, ◌+◌, ◌-◌, ◌*◌, ◌/◌, ◌%◌, ◌^◌, ◌≤◌, ◌<◌, min, max, bit_and, bit_or, bit_xor, digits,
  differ,
}
use Prim.Native.Nat.{bit_and-bitwise, bit_or-bitwise, bit_xor-bitwise}
use mathlib.Core.Path.{◌≡◌, refl, ap}
use native.Mathlib.Nat.{pow-suc, one-le-pow}
use native.Mathlib.Omega.{arith}

-- The digit recursion of the native operations does not depend on its fuel.
module _ (z : ℕ → ℕ) (f : ℕ → ℕ → ℕ) where
  fuel_irrelevant : (a b n k : ℕ) → a ≤ n → a ≤ k → digits z f n a b ≡ digits z f k a b
  fuel_irrelevant zero b zero zero p q = refl
  fuel_irrelevant zero b zero (suc k) p q = refl
  fuel_irrelevant zero b (suc n) zero p q = refl
  fuel_irrelevant zero b (suc n) (suc k) p q = refl
  fuel_irrelevant (suc a) b zero k p q = absurd (omega arith)
  fuel_irrelevant (suc a) b (suc n) zero p q = absurd (omega arith)
  fuel_irrelevant (suc a) b (suc n) (suc k) p q =
      ap (λ (t : ℕ). t * 2 + f (suc a % 2) (b % 2))
        (fuel_irrelevant (suc a / 2) (b / 2) n k (omega arith) (omega arith))

  bitwise_step :
      (a b : ℕ)
      → digits z f (suc a) (suc a) b
        ≡ digits z f (suc a / 2) (suc a / 2) (b / 2) * 2 + f (suc a % 2) (b % 2)
  bitwise_step a b =
      ap (λ (t : ℕ). t * 2 + f (suc a % 2) (b % 2))
        (fuel_irrelevant (suc a / 2) (b / 2) a (suc a / 2) (omega arith) (omega arith))

-- One equation for the lowest digit of each operation.
pub bit_or_step : (x y : ℕ) → bit_or x y ≡ max (x % 2) (y % 2) + 2 * bit_or (x / 2) (y / 2)
bit_or_step zero y = simp bit_or-bitwise (omega arith)
bit_or_step (suc x) y = simp bit_or-bitwise (omega (arith, bitwise_step (λ y. y) max x y))

pub bit_and_step : (x y : ℕ) → bit_and x y ≡ min (x % 2) (y % 2) + 2 * bit_and (x / 2) (y / 2)
bit_and_step zero y = simp bit_and-bitwise (omega arith)
bit_and_step (suc x) y = simp bit_and-bitwise (omega (arith, bitwise_step (λ y. 0) min x y))

pub bit_xor_step : (x y : ℕ) → bit_xor x y ≡ differ (x % 2) (y % 2) + 2 * bit_xor (x / 2) (y / 2)
bit_xor_step zero y = simp bit_xor-bitwise (omega arith)
bit_xor_step (suc x) y = simp bit_xor-bitwise (omega (arith, bitwise_step (λ y. y) differ x y))

bit_or-zero_left : (b : ℕ) → bit_or 0 b ≡ b
bit_or-zero_left b = simp bit_or-bitwise

-- `acc | (group << i)` is a sum while `acc` has `i` bits.
pub bit_or_shift : (i x y : ℕ) → x < 2 ^ i → bit_or x (y * 2 ^ i) ≡ x + y * 2 ^ i
bit_or_shift zero x y h = let e : x ≡ 0 = omega arith in rw (e, bit_or-zero_left) (omega arith)
bit_or_shift (suc i) x y h =
    let e : y * 2 ^ suc i ≡ 2 * (y * 2 ^ i) = omega (arith, ap (λ (t : ℕ). y * t) (pow-suc 2 i)) in
    let half : y * 2 ^ suc i / 2 ≡ y * 2 ^ i = omega (arith, e) in
    omega (
      arith,
      bit_or_step x (y * 2 ^ suc i),
      ap (bit_or (x / 2)) half,
      e,
      bit_or_shift i (x / 2) y (omega (arith, pow-suc 2 i)),
    )

no_bits : (x fuel : ℕ) → x ≤ fuel → bit_and x 0 ≡ 0
no_bits zero fuel h = simp bit_and-bitwise
no_bits (suc x) zero h = absurd (omega arith)
no_bits (suc x) (suc fuel) h =
    let half = no_bits (suc x / 2) fuel (omega arith) in omega (arith, half, bit_and_step (suc x) 0)

-- A mask whose lowest bit is set keeps the lowest bit.
bit_and_odd : (m a : ℕ) → bit_and a (m * 2 + 1) ≡ bit_and (a / 2) m * 2 + a % 2
bit_and_odd m a =
    let half : (m * 2 + 1) / 2 ≡ m = omega arith in
    omega (arith, bit_and_step a (m * 2 + 1), ap (bit_and (a / 2)) half)

pub bit_and_one : (a : ℕ) → bit_and a 1 ≡ a % 2
bit_and_one a = omega (arith, bit_and_odd 0 a, no_bits (a / 2) (a / 2) (omega arith))

bit_and_seven : (a : ℕ) → bit_and a 7 ≡ a % 8
bit_and_seven a = omega (arith, bit_and_odd 3 a, bit_and_odd 1 (a / 2), bit_and_one (a / 2 / 2))

-- `v & 0x7f` is the lowest group of seven bits.
pub bit_and_group : (a : ℕ) → bit_and a 0x7f ≡ a % 128
bit_and_group a = omega (
  arith,
  bit_and_odd 63 a,
  bit_and_odd 31 (a / 2),
  bit_and_odd 15 (a / 2 / 2),
  bit_and_odd 7 (a / 2 / 2 / 2),
  bit_and_seven (a / 2 / 2 / 2 / 2),
)

-- `group | 0x80` sets the top bit of a byte.
pub bit_or_top : (a : ℕ) → a < 128 → bit_or a 0x80 ≡ a + 128
bit_or_top a h = bit_or_shift 7 a 1 h

differ_one : (x : ℕ) → x < 2 → differ x 1 ≡ 1 - x
differ_one zero h = refl
differ_one (suc zero) h = refl
differ_one (suc (suc x)) h = absurd (omega arith)

differ_zero : (x : ℕ) → differ x 0 ≡ x
differ_zero zero = refl
differ_zero (suc x) = refl

bit_xor-zero_fuel : (n a : ℕ) → a ≤ n → bit_xor a 0 ≡ a
bit_xor-zero_fuel n zero h = simp bit_xor-bitwise
bit_xor-zero_fuel zero (suc a) h = absurd (omega arith)
bit_xor-zero_fuel (suc n) (suc a) h = omega (
  arith,
  bit_xor_step (suc a) 0,
  differ_zero (suc a % 2),
  bit_xor-zero_fuel n (suc a / 2) (omega arith),
)

pub bit_xor-zero : (a : ℕ) → bit_xor a 0 ≡ a
bit_xor-zero a = bit_xor-zero_fuel a a (omega arith)

-- `^` with all ones is the complement.
pub bit_xor_ones : (k a : ℕ) → a < 2 ^ k → bit_xor a (2 ^ k - 1) ≡ 2 ^ k - 1 - a
bit_xor_ones zero a h = let e : a ≡ 0 = omega arith in rw e (simp bit_xor-bitwise)
bit_xor_ones (suc k) a h =
    let half : (2 ^ suc k - 1) / 2 ≡ 2 ^ k - 1 = omega (arith, pow-suc 2 k, one-le-pow k 2) in
    let odd : (2 ^ suc k - 1) % 2 ≡ 1 = omega (arith, pow-suc 2 k, one-le-pow k 2) in
    omega (
      arith,
      pow-suc 2 k,
      bit_xor_step a (2 ^ suc k - 1),
      ap (bit_xor (a / 2)) half,
      ap (differ (a % 2)) odd,
      differ_one (a % 2) (omega arith),
      bit_xor_ones k (a / 2) (omega (arith, pow-suc 2 k)),
    )
