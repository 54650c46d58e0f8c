-- ===== src/Codec/Zigzag.antt =====
-- Zigzag is a bijection of the `w`-bit patterns.
use dag.Common.{
  Bool, true, false, ℕ, ◌+◌, ◌-◌, ◌*◌, ◌/◌, ◌%◌, ◌^◌, ◌≤◌, ◌<◌, ◌≡◌, ap, ◌∙◌, ◌⊎◌, inl, inr, arith,
  bit_and, bit_xor,
}
use native.Mathlib.Decide.{dec_lt}
use native.Mathlib.Nat.{one-le-pow, mod-eq_of_lt, mod_self}
use dag.Common.Bits.{bit_and_one, bit_xor_ones, bit_xor-zero}
use dag.Codec.{encode_zigzag, decode_zigzag}

-- Even codes are the numbers from 0 up, odd codes those from -1 down.
decode-even : (w v : ℕ) → v % 2 ≡ 0 → decode_zigzag w v ≡ v / 2
unfolding decode_zigzag
decode-even w v e =
    let low : bit_and v 1 ≡ 0 = bit_and_one v ∙ e in
    let zero_mask : (2 ^ w - bit_and v 1) % 2 ^ w ≡ 0 =
      ap (λ k. (2 ^ w - k) % 2 ^ w) low
      ∙ ap (λ k. k % 2 ^ w) (let e : 2 ^ w - 0 ≡ 2 ^ w = omega arith in e)
      ∙ mod_self (2 ^ w) in
    ap (bit_xor (v / 2)) zero_mask ∙ bit_xor-zero (v / 2)

decode-odd : (w v : ℕ) → v % 2 ≡ 1 → v < 2 ^ w → decode_zigzag w v ≡ 2 ^ w - 1 - v / 2
unfolding decode_zigzag
decode-odd w v e h =
    let low : bit_and v 1 ≡ 1 = bit_and_one v ∙ e in
    let ones : (2 ^ w - bit_and v 1) % 2 ^ w ≡ 2 ^ w - 1 =
      ap (λ k. (2 ^ w - k) % 2 ^ w) low ∙ mod-eq_of_lt (omega (arith, one-le-pow w 2)) in
    ap (bit_xor (v / 2)) ones ∙ bit_xor_ones w (v / 2) (omega arith)

-- Non-negative and negative patterns of 32 bits, and of 64.
encode32-even : (v : ℕ) → v < 2 ^ 31 → encode_zigzag 32 v ≡ 2 * v
unfolding encode_zigzag
encode32-even v h = ground arith

encode32-odd : (v : ℕ) → 2 ^ 31 ≤ v → v < 2 ^ 32 → encode_zigzag 32 v ≡ 2 * (2 ^ 32 - v) - 1
unfolding encode_zigzag
encode32-odd v h h' = ground arith

encode64-even : (v : ℕ) → v < 2 ^ 63 → encode_zigzag 64 v ≡ 2 * v
unfolding encode_zigzag
encode64-even v h = ground arith

encode64-odd : (v : ℕ) → 2 ^ 63 ≤ v → v < 2 ^ 64 → encode_zigzag 64 v ≡ 2 * (2 ^ 64 - v) - 1
unfolding encode_zigzag
encode64-odd v h h' = ground arith

pub decode_encode32 : (v : ℕ) → v < 2 ^ 32 → decode_zigzag 32 (encode_zigzag 32 v) ≡ v
decode_encode32 v h = elim (dec_lt v (2 ^ 31)) [
  | yes p ↦ rw (encode32-even v p) (omega (arith, decode-even 32 (2 * v) (omega arith)))
  | no p ↦
      rw (encode32-odd v (omega arith) h)
        (omega (arith, decode-odd 32 (2 * (2 ^ 32 - v) - 1) (omega arith) (omega arith)))
]

pub decode_encode64 : (v : ℕ) → v < 2 ^ 64 → decode_zigzag 64 (encode_zigzag 64 v) ≡ v
decode_encode64 v h = elim (dec_lt v (2 ^ 63)) [
  | yes p ↦ rw (encode64-even v p) (omega (arith, decode-even 64 (2 * v) (omega arith)))
  | no p ↦
      rw (encode64-odd v (omega arith) h)
        (omega (arith, decode-odd 64 (2 * (2 ^ 64 - v) - 1) (omega arith) (omega arith)))
]

abbrev pub width : Bool → ℕ
width true = 64
width false = 32

-- Decoding a zigzag code of 32 or of 64 bits undoes encoding, the least negative number included.
pub decode_encode :
    (wide : Bool) (v : ℕ)
    → v < 2 ^ width wide
    → decode_zigzag (width wide) (encode_zigzag (width wide) v) ≡ v
decode_encode true v h = decode_encode64 v h
decode_encode false v h = decode_encode32 v h

-- A signed number below `2 ^ k` in magnitude has a code of `k + 1` bits, whatever its sign.
pub encode32_small :
    (v n : ℕ) → v < 2 ^ 32 → n ≤ 2 ^ 31 → (v < n) ⊎ (2 ^ 32 ≤ v + n) → encode_zigzag 32 v < 2 * n
encode32_small v n h hn (inl p) = omega (arith, encode32-even v (omega arith))
encode32_small v n h hn (inr p) = elim (dec_lt v (2 ^ 31)) [
  | yes q ↦ absurd (omega arith)
  | no q ↦ omega (arith, encode32-odd v (omega arith) h)
]

pub encode-lt32 : (v : ℕ) → encode_zigzag 32 v < 2 ^ 32
unfolding encode_zigzag
encode-lt32 v = ground arith

pub encode-lt64 : (v : ℕ) → encode_zigzag 64 v < 2 ^ 64
unfolding encode_zigzag
encode-lt64 v = ground arith
