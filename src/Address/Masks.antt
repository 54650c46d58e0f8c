-- ===== src/Address/Masks.antt =====
-- `|` and `&` digit by digit: of numbers in two parts, of bytes in the reverse order, and with a mask.
use dag.Common.{
  ℕ, zero, suc, ◌+◌, ◌-◌, ◌*◌, ◌/◌, ◌%◌, ◌^◌, ◌≤◌, ◌<◌, ◌≡◌, refl, ap, sym, ◌∙◌, bit_and, bit_or,
  arith,
}
use dag.Common.Bits.{bit_or_step, bit_and_step}
use dag.Codec.{byteswap, from_le, le_bytes}
use Prim.Native.Nat.{min, max}
use native.Mathlib.Nat.{pow-suc, one-le-pow, div-add-mod, mod-lt}

-- An operation on numbers that acts on each digit by itself.
pub record Digitwise (op digit : ℕ → ℕ → ℕ) : Type 0 where
  pub step : (x y : ℕ) → op x y ≡ digit (x % 2) (y % 2) + 2 * op (x / 2) (y / 2)
  pub digit_le : (x y : ℕ) → x ≤ 1 → y ≤ 1 → digit x y ≤ 1
  pub none_set : op 0 0 ≡ 0

pub bit_or-Digitwise : Digitwise bit_or max
bit_or-Digitwise = record { step = bit_or_step; digit_le = λ x y p q. omega arith; none_set = refl }

pub bit_and-Digitwise : Digitwise bit_and min
bit_and-Digitwise = record {
  step = bit_and_step;
  digit_le = λ x y p q. omega arith;
  none_set = refl;
}

module _ {op digit : ℕ → ℕ → ℕ} (w : Digitwise op digit) where
  op_lt : (k x y : ℕ) → x < 2 ^ k → y < 2 ^ k → op x y < 2 ^ k
  op_lt zero x y p q =
      let e : x ≡ 0 = omega arith in
      let f : y ≡ 0 = omega arith in omega (arith, ap (λ a. op a y) e, ap (op 0) f, w.none_set)
  op_lt (suc k) x y p q = omega (
    arith,
    pow-suc 2 k,
    w.step x y,
    w.digit_le (x % 2) (y % 2) (omega arith) (omega arith),
    op_lt k (x / 2) (y / 2) (omega (arith, pow-suc 2 k)) (omega (arith, pow-suc 2 k)),
  )

  -- The digits below place `k` and those from it on.
  pub op_join :
      (k c d x y : ℕ)
      → c < 2 ^ k
      → d < 2 ^ k
      → op (c + x * 2 ^ k) (d + y * 2 ^ k) ≡ op c d + op x y * 2 ^ k
  op_join zero c d x y p q =
      let e : c ≡ 0 = omega arith in
      let f : d ≡ 0 = omega arith in
      let left : c + x * 2 ^ 0 ≡ x = omega (arith, e) in
      let right : d + y * 2 ^ 0 ≡ y = omega (arith, f) in
      omega (
        arith,
        ap (λ a. op a (d + y * 2 ^ 0)) left,
        ap (op x) right,
        ap (λ a. op a d) e,
        ap (op 0) f,
        w.none_set,
      )
  op_join (suc k) c d x y p q =
      let twice : (a : ℕ) → a * 2 ^ suc k ≡ 2 * (a * 2 ^ k) =
        λ a. omega (arith, ap (λ (t : ℕ). a * t) (pow-suc 2 k)) in
      let half : (a b : ℕ) → (a + b * 2 ^ suc k) / 2 ≡ a / 2 + b * 2 ^ k =
        λ a b. omega (arith, twice b) in
      let low : (a b : ℕ) → (a + b * 2 ^ suc k) % 2 ≡ a % 2 = λ a b. omega (arith, twice b) in
      omega (
        arith,
        twice (op x y),
        w.step (c + x * 2 ^ suc k) (d + y * 2 ^ suc k),
        ap (λ a. digit a ((d + y * 2 ^ suc k) % 2)) (low c x),
        ap (digit (c % 2)) (low d y),
        ap (λ a. op a ((d + y * 2 ^ suc k) / 2)) (half c x),
        ap (op (c / 2 + x * 2 ^ k)) (half d y),
        w.step c d,
        op_join k (c / 2) (d / 2) x y (omega (arith, pow-suc 2 k)) (omega (arith, pow-suc 2 k)),
      )

  -- The lowest byte, and the others.
  op_byte :
      (x y : ℕ) → (op x y % 256 ≡ op (x % 256) (y % 256)) × (op x y / 256 ≡ op (x / 256) (y / 256))
  op_byte x y =
      let left : x % 256 + x / 256 * 2 ^ 8 ≡ x = omega arith in
      let right : y % 256 + y / 256 * 2 ^ 8 ≡ y = omega arith in
      let all : op x y ≡ op (x % 256) (y % 256) + op (x / 256) (y / 256) * 256 =
        sym (ap (λ a. op a (y % 256 + y / 256 * 2 ^ 8)) left ∙ ap (op x) right)
        ∙ op_join 8 (x % 256) (y % 256) (x / 256) (y / 256) (omega arith) (omega arith) in
      let small = op_lt 8 (x % 256) (y % 256) (omega arith) (omega arith) in
      (omega (arith, all, small), omega (arith, all, small))

  op_cons :
      (c d x y : ℕ) → c < 256 → d < 256 → op (c + 256 * x) (d + 256 * y) ≡ op c d + 256 * op x y
  op_cons c d x y p q =
      let turned : (a b : ℕ) → a + 256 * b ≡ a + b * 2 ^ 8 = λ a b. omega arith in
      ap (λ a. op a (d + 256 * y)) (turned c x)
      ∙ ap (op (c + x * 2 ^ 8)) (turned d y)
      ∙ op_join 8 c d x y p q
      ∙ omega arith

  -- The bytes in the reverse order.
  pub op-byteswap : (x y : ℕ) → op (byteswap 4 x) (byteswap 4 y) ≡ byteswap 4 (op x y)
  unfolding byteswap from_le le_bytes
  op-byteswap x y =
      let (low0, high0) = op_byte x y in
      let (low1, high1) = op_byte (x / 256) (y / 256) in
      let (low2, high2) = op_byte (x / 256 / 256) (y / 256 / 256) in
      let (low3, _) = op_byte (x / 256 / 256 / 256) (y / 256 / 256 / 256) in
      let (a3, b3) : ℕ × ℕ = (x % 256 + 0, y % 256 + 0) in
      let (a2, b2) : ℕ × ℕ = (x / 256 % 256 + 256 * a3, y / 256 % 256 + 256 * b3) in
      let (a1, b1) : ℕ × ℕ = (x / 256 / 256 % 256 + 256 * a2, y / 256 / 256 % 256 + 256 * b2) in
      let last : op a3 b3 ≡ op (x % 256) (y % 256) =
        ap (λ a. op a b3) (omega arith) ∙ ap (op (x % 256)) (omega arith) in
      omega (
        arith,
        op_cons (x / 256 / 256 / 256 % 256) (y / 256 / 256 / 256 % 256) a1 b1 (omega arith)
            (omega arith),
        op_cons (x / 256 / 256 % 256) (y / 256 / 256 % 256) a2 b2 (omega arith) (omega arith),
        op_cons (x / 256 % 256) (y / 256 % 256) a3 b3 (omega arith) (omega arith),
        last,
        low0,
        high0,
        low1,
        high1,
        low2,
        high2,
        low3,
      )

-- `|` with a mask of `n` ones sets them, and `&` with it leaves them.
or_ones : (n r : ℕ) → r < 2 ^ n → bit_or r (2 ^ n - 1) ≡ 2 ^ n - 1
or_ones zero r h = let e : r ≡ 0 = omega arith in rw e refl
or_ones (suc n) r h =
    let half : (2 ^ suc n - 1) / 2 ≡ 2 ^ n - 1 = omega (arith, pow-suc 2 n, one-le-pow n 2) in
    omega (
      arith,
      pow-suc 2 n,
      one-le-pow n 2,
      bit_or_step r (2 ^ suc n - 1),
      ap (bit_or (r / 2)) half,
      or_ones n (r / 2) (omega (arith, pow-suc 2 n)),
    )

and_ones : (n r : ℕ) → r < 2 ^ n → bit_and r (2 ^ n - 1) ≡ r
and_ones zero r h = let e : r ≡ 0 = omega arith in rw e refl
and_ones (suc n) r h =
    let half : (2 ^ suc n - 1) / 2 ≡ 2 ^ n - 1 = omega (arith, pow-suc 2 n, one-le-pow n 2) in
    omega (
      arith,
      pow-suc 2 n,
      one-le-pow n 2,
      bit_and_step r (2 ^ suc n - 1),
      ap (bit_and (r / 2)) half,
      and_ones n (r / 2) (omega (arith, pow-suc 2 n)),
    )

or_none : (n q : ℕ) → q ≤ n → bit_or q 0 ≡ q
or_none zero q h = let e : q ≡ 0 = omega arith in rw e refl
or_none (suc n) zero h = refl
or_none (suc n) (suc q) h =
    omega (arith, bit_or_step (suc q) 0, or_none n (suc q / 2) (omega arith))

and_none : (n q : ℕ) → q ≤ n → bit_and q 0 ≡ 0
and_none zero q h = let e : q ≡ 0 = omega arith in rw e refl
and_none (suc n) zero h = refl
and_none (suc n) (suc q) h =
    omega (arith, bit_and_step (suc q) 0, and_none n (suc q / 2) (omega arith))

parts : (n a : ℕ) → a % 2 ^ n + a / 2 ^ n * 2 ^ n ≡ a
parts n a = omega (arith, div-add-mod a (2 ^ n))

mask_parts :
    {op digit : ℕ → ℕ → ℕ}
    → Digitwise op digit
    → (n a : ℕ) → op a (2 ^ n - 1) ≡ op (a % 2 ^ n) (2 ^ n - 1) + op (a / 2 ^ n) 0 * 2 ^ n
mask_parts {op} w n a =
    let small : 2 ^ n - 1 < 2 ^ n = omega (arith, one-le-pow n 2) in
    let below_all : a % 2 ^ n < 2 ^ n = mod-lt a (omega (arith, one-le-pow n 2)) in
    let mask : 2 ^ n - 1 + 0 * 2 ^ n ≡ 2 ^ n - 1 = omega arith in
    sym (ap (λ b. op b (2 ^ n - 1 + 0 * 2 ^ n)) (parts n a) ∙ ap (op a) mask)
    ∙ op_join w n (a % 2 ^ n) (2 ^ n - 1) (a / 2 ^ n) 0 below_all small

pub bit_or_mask : (n a : ℕ) → bit_or a (2 ^ n - 1) ≡ a / 2 ^ n * 2 ^ n + (2 ^ n - 1)
bit_or_mask n a =
    let q = a / 2 ^ n in
    omega (
      arith,
      mask_parts bit_or-Digitwise n a,
      or_ones n (a % 2 ^ n) (mod-lt a (omega (arith, one-le-pow n 2))),
      ap (λ b. b * 2 ^ n) (or_none q q (omega arith)),
    )

pub bit_and_mask : (n a : ℕ) → bit_and a (2 ^ n - 1) ≡ a % 2 ^ n
bit_and_mask n a =
    let q = a / 2 ^ n in
    omega (
      arith,
      mask_parts bit_and-Digitwise n a,
      and_ones n (a % 2 ^ n) (mod-lt a (omega (arith, one-le-pow n 2))),
      ap (λ b. b * 2 ^ n) (and_none q q (omega arith)),
    )
