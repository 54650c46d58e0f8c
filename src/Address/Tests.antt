-- ===== src/Address/Tests.antt =====
-- 192.168.1.10:80 in its subnet of 24 bits, on a host of the lower byte first.
use dag.Common.{ℕ, ◌≡◌, some, [], ◌∷◌, ok, arith}
use dag.ByteArray.{little}
use dag.Address.{new_ipv4, broadcast_address, netword_address, subnet_mask, less, equals}
use dag.Address.Subnets.{subnet_lem}
use dag.Address.Order.{precedes, matches, less_lem}

abbrev address : ℕ
address = 0xc0a8010a

subnet_lem_example :
    (broadcast_address little (new_ipv4 little address 80) 24
      ≡ ok (some (new_ipv4 little 0xc0a801ff 80)))
    × (netword_address little (new_ipv4 little address 80) 24 ≡ ok (some (new_ipv4 little 10 80)))
    × (subnet_mask little 24 ≡ ok (new_ipv4 little 0xffffff00 0))
subnet_lem_example = subnet_lem little address 80 24 (omega arith) (omega arith)

less_lem_example :
    (less (2 ∷ 0 ∷ []) (2 ∷ 0 ∷ 7 ∷ []) ≡ precedes (2 ∷ 0 ∷ []) (2 ∷ 0 ∷ 7 ∷ []))
    × (equals (2 ∷ 0 ∷ []) (2 ∷ 0 ∷ 7 ∷ []) ≡ matches (2 ∷ 0 ∷ []) (2 ∷ 0 ∷ 7 ∷ []))
less_lem_example = less_lem (2 ∷ 0 ∷ []) (2 ∷ 0 ∷ 7 ∷ [])
