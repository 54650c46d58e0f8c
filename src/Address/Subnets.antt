-- ===== src/Address/Subnets.antt =====
-- The addresses of the subnet of an address.
use dag.Common.{
  ℕ, ◌+◌, ◌-◌, ◌*◌, ◌/◌, ◌%◌, ◌^◌, ◌≤◌, ◌<◌, ◌≡◌, refl, ap, sym, ◌∙◌, Option, some, none, ltb,
  if◌then◌else◌, Outcome, ok, ◌>>=◌, arith, le→ltb, lt→ltb, le→leb,
}
use dag.ByteArray.{Endian, little, big}
use dag.Codec.{byteswap, from_le, le_bytes}
use dag.Address.{
  SockaddrIn, af_inet, create_mask, swap, new_ipv4, broadcast_address, netword_address, subnet_mask,
}
use native.Mathlib.Nat.{one-le-pow, pow-le-pow_right}
use dag.Address.Masks.{
  Digitwise, bit_or-Digitwise, bit_and-Digitwise, op-byteswap, bit_or_mask, bit_and_mask,
}

op-swap :
    {op digit : ℕ → ℕ → ℕ}
    → Digitwise op digit
    → (host : Endian) (x y : ℕ) → op (swap host 4 x) (swap host 4 y) ≡ swap host 4 (op x y)
op-swap w little x y = op-byteswap w x y
op-swap w big x y = refl

byteswap-complement : (v : ℕ) → v < 2 ^ 32 → 2 ^ 32 - 1 - byteswap 4 v ≡ byteswap 4 (2 ^ 32 - 1 - v)
unfolding byteswap from_le le_bytes
byteswap-complement v h = omega (arith, h)

swap-complement :
    (host : Endian) (v : ℕ) → v < 2 ^ 32 → 2 ^ 32 - 1 - swap host 4 v ≡ swap host 4 (2 ^ 32 - 1 - v)
swap-complement little v h = byteswap-complement v h
swap-complement big v h = refl

create_mask_lem : (p : ℕ) → 2 ≤ p → p ≤ 32 → create_mask p ≡ ok (2 ^ (32 - p) - 1)
create_mask_lem p h h' = rw (lt→ltb 1 p h, le→leb p 32 h') refl

module _ (host : Endian) (address port p : ℕ) (h : 2 ≤ p) (h' : p ≤ 32) where
  abbrev with_address : ℕ → Outcome (Option SockaddrIn)
  with_address v = ok (some (record (new_ipv4 host address port) { s_addr = v }))

  masked :
      {op digit : ℕ → ℕ → ℕ}
      → Digitwise op digit
      → (v : ℕ) → op address (2 ^ (32 - p) - 1) ≡ v
      → (if ltb 32 p
          then ok none
          else (create_mask p >>= λ mask.
              with_address (op (swap host 4 address) (swap host 4 mask))))
        ≡ with_address (swap host 4 v)
  masked {op} w v is_v =
      let set : Outcome ℕ → Outcome (Option SockaddrIn) =
        λ o. o >>= λ mask. with_address (op (swap host 4 address) (swap host 4 mask)) in
      ap (λ b. if b then ok none else set (create_mask p)) (le→ltb 32 p h')
      ∙ ap set (create_mask_lem p h h')
      ∙ ap with_address (op-swap w host address (2 ^ (32 - p) - 1) ∙ ap (swap host 4) is_v)

swap-zero : (host : Endian) → swap host 2 0 ≡ 0
unfolding byteswap from_le le_bytes
swap-zero little = refl
swap-zero big = refl

-- On hosts of both byte orders, for a prefix length of 2 to 32, with `n` host bits: the broadcast address has
-- the bits of the address above the host bits, and ones for these; `networdAddress` has only the
-- host bits of the address; and the subnet mask is ones above the host bits.
pub subnet_lem :
    (host : Endian) (address port p : ℕ)
    → 2 ≤ p
    → p ≤ 32
    → (let n = 32 - p in
        let m_addr = new_ipv4 host address port in
        (broadcast_address host m_addr p
          ≡ ok (some (new_ipv4 host (address / 2 ^ n * 2 ^ n + (2 ^ n - 1)) port)))
        × (netword_address host m_addr p ≡ ok (some (new_ipv4 host (address % 2 ^ n) port)))
        × (subnet_mask host p ≡ ok (new_ipv4 host (2 ^ 32 - 2 ^ n) 0)))
unfolding broadcast_address netword_address subnet_mask new_ipv4
subnet_lem host address port p h h' =
    let n = 32 - p in
    let one_bit : 1 ≤ 2 ^ n = one-le-pow n 2 (omega arith) in
    let fits : 2 ^ n ≤ 2 ^ 32 =
      pow-le-pow_right {n = 2} (omega arith) {i = n} {j = 32} (omega arith) in
    let ones : ℕ → ℕ → SockaddrIn =
      λ v port. record { sin_family = af_inet; sin_port = port; s_addr = v } in
    (
      masked host address port p h h' bit_or-Digitwise _ (bit_or_mask n address),
      masked host address port p h h' bit_and-Digitwise _ (bit_and_mask n address),
      ap (λ o. o >>= λ mask. ok (ones (2 ^ 32 - 1 - swap host 4 mask) 0)) (create_mask_lem p h h')
          ∙ ap (λ v. ok (ones v 0)) (swap-complement host (2 ^ n - 1) (omega arith))
          ∙ ap (λ v. ok (ones (swap host 4 v) 0)) (omega (arith, one_bit, fits))
          ∙ ap (λ v. ok (ones (swap host 4 (2 ^ 32 - 2 ^ n)) v)) (sym (swap-zero host)),
    )
