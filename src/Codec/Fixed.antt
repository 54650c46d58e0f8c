-- ===== src/Codec/Fixed.antt =====
-- Fixed-width integers: the bytes on the wire, which depend on `m_endian` and not on the machine.
use dag.Common.{
  ℕ, zero, suc, ◌+◌, ◌*◌, ◌/◌, ◌%◌, ◌^◌, ◌<◌, ◌≡◌, refl, sym, ap, ◌∙◌, List, [], ◌∷◌, ◌++◌, reverse,
  length, length-reverse, arith, if◌then◌else◌,
}
use mathlib.Core.Path.{ap₂, subst}
use mathlib.Core.List.{reverse-reverse, reverse-cons}
use native.Mathlib.Nat.{pow-suc}
use dag.ByteArray.{Endian, little, big}
use dag.Codec.{le_bytes, from_le, byteswap, same_endian, store, load}

abbrev pub IsByte : ℕ → Type 0
IsByte b = b < 256

abbrev pub AllBytes : List ℕ → Type 0
AllBytes [] = Unit
AllBytes (b ∷ bs) = IsByte b × AllBytes bs

pub length-le_bytes : (k v : ℕ) → length (le_bytes k v) ≡ k
unfolding le_bytes
length-le_bytes zero v = refl
length-le_bytes (suc k) v = ap suc (length-le_bytes k (v / 256))

pub le_bytes-AllBytes : (k v : ℕ) → AllBytes (le_bytes k v)
unfolding le_bytes
le_bytes-AllBytes zero v = tt
le_bytes-AllBytes (suc k) v = (omega arith, le_bytes-AllBytes k (v / 256))

pub from_le-le_bytes : (k v : ℕ) → v < 256 ^ k → from_le (le_bytes k v) ≡ v
unfolding le_bytes from_le
from_le-le_bytes zero v h = omega arith
from_le-le_bytes (suc k) v h =
    omega (arith, pow-suc 256 k, from_le-le_bytes k (v / 256) (omega (arith, pow-suc 256 k)))

pub le_bytes-from_le : (bs : List ℕ) → AllBytes bs → le_bytes (length bs) (from_le bs) ≡ bs
unfolding le_bytes from_le
le_bytes-from_le [] h = refl
le_bytes-from_le (b ∷ bs) h =
    let low : (b + 256 * from_le bs) % 256 ≡ b = omega (arith, h.0) in
    let high : (b + 256 * from_le bs) / 256 ≡ from_le bs = omega (arith, h.0) in
    ap₂ ◌∷◌ low (ap (le_bytes (length bs)) high ∙ le_bytes-from_le bs h.1)

from_le-lt : (bs : List ℕ) → AllBytes bs → from_le bs < 256 ^ length bs
unfolding from_le
from_le-lt [] h = omega arith
from_le-lt (b ∷ bs) h = omega (arith, h.0, from_le-lt bs h.1, pow-suc 256 (length bs))

AllBytes-append : (xs ys : List ℕ) → AllBytes xs → AllBytes ys → AllBytes (xs ++ ys)
AllBytes-append [] ys h k = k
AllBytes-append (x ∷ xs) ys h k = (h.0, AllBytes-append xs ys h.1 k)

AllBytes-reverse : (xs : List ℕ) → AllBytes xs → AllBytes (reverse xs)
AllBytes-reverse [] h = tt
AllBytes-reverse (x ∷ xs) h =
    subst AllBytes (sym (reverse-cons x xs))
      (AllBytes-append (reverse xs) (x ∷ []) (AllBytes-reverse xs h.1) (h.0, tt))

-- `bswap` reverses the bytes in memory.
le_bytes-byteswap : (k v : ℕ) → le_bytes k (byteswap k v) ≡ reverse (le_bytes k v)
unfolding byteswap
le_bytes-byteswap k v =
    let e : length (reverse (le_bytes k v)) ≡ k =
      length-reverse (le_bytes k v) ∙ length-le_bytes k v in
    ap (λ n. le_bytes n (from_le (reverse (le_bytes k v)))) (sym e)
    ∙ le_bytes-from_le (reverse (le_bytes k v))
        (AllBytes-reverse (le_bytes k v) (le_bytes-AllBytes k v))

-- Swapping twice gives the number back, at every width.
pub byteswap-byteswap : (k v : ℕ) → v < 256 ^ k → byteswap k (byteswap k v) ≡ v
byteswap-byteswap k v h =
    unfold byteswap in
    ap (λ l. from_le (reverse l)) (le_bytes-byteswap k v)
    ∙ ap from_le (reverse-reverse (le_bytes k v))
    ∙ from_le-le_bytes k v h

-- The bytes of a `k`-byte integer in the order that `m_endian` names.
abbrev pub wire_fixed : Endian → ℕ → ℕ → List ℕ
wire_fixed little k v = le_bytes k v
wire_fixed big k v = reverse (le_bytes k v)

pub length-wire_fixed : (e : Endian) (k v : ℕ) → length (wire_fixed e k v) ≡ k
length-wire_fixed little k v = length-le_bytes k v
length-wire_fixed big k v = length-reverse (le_bytes k v) ∙ length-le_bytes k v

-- What is written does not depend on the byte order of the machine.
pub store-wire_fixed :
    (host e : Endian) (k v : ℕ)
    → store host k (if same_endian e host then v else byteswap k v) ≡ wire_fixed e k v
unfolding store
store-wire_fixed little little k v = refl
store-wire_fixed little big k v = le_bytes-byteswap k v
store-wire_fixed big little k v =
    ap reverse (le_bytes-byteswap k v) ∙ reverse-reverse (le_bytes k v)
store-wire_fixed big big k v = refl

-- What a fixed-width reader makes of the wire bytes of a number that fits its width, swapping if
-- the buffer and the host differ in byte order, is that number.
pub load-wire_fixed :
    (host e : Endian) (k v : ℕ)
    → v < 256 ^ k
    → (if same_endian e host
        then load host (wire_fixed e k v)
        else byteswap k (load host (wire_fixed e k v)))
      ≡ v
unfolding load byteswap
load-wire_fixed little little k v h = from_le-le_bytes k v h
load-wire_fixed little big k v h = byteswap-byteswap k v h
load-wire_fixed big little k v h = byteswap-byteswap k v h
load-wire_fixed big big k v h = ap from_le (reverse-reverse (le_bytes k v)) ∙ from_le-le_bytes k v h
