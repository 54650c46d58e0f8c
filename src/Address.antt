-- ===== src/Address.antt =====
-- dag/address.h and dag/address.cpp: the IPv4 addresses, in the byte order of the host, and the order of
-- all addresses by the bytes of their `sockaddr`. Number and text conversions of a stream are an argument.
pub mod Masks
pub mod Subnets
pub mod Order
pub mod Tests
use dag.Common.{
  ℕ, ◌+◌, ◌-◌, ◌*◌, ◌/◌, ◌%◌, ◌^◌, Bool, true, false, ◌&&◌, Option, some, none, List, [], ◌∷◌, ◌++◌,
  length, take, ltb, leb, ◌==◌, if◌then◌else◌, min, bit_and, bit_or, Outcome, ok, fault, ◌>>=◌,
}
use dag.ByteArray.{Endian, little}
use dag.Codec.{byteswap, same_endian, store}

-- `CreateMask<uint32_t>`: `1 << (32 - bits)` is a shift of an `int`, which has no meaning at 32 places or
-- more, and whose result at 31 places is the least `int`, from which 1 is then taken.
abbrev pub create_mask : ℕ → Outcome ℕ
create_mask bits = if ltb 1 bits && leb bits 32 then ok (2 ^ (32 - bits) - 1) else fault

-- `sockaddr_in`, whose other bytes are 0.
pub record SockaddrIn : Type 0 where
  pub sin_family : ℕ
  pub sin_port : ℕ
  pub s_addr : ℕ

-- `AF_INET`
abbrev pub af_inet : ℕ
af_inet = 2

-- How two pieces of memory compare.
pub data Comparison : Type 0 where
  below : Comparison
  same : Comparison
  above : Comparison

-- `memcmp`, up to the end of the shorter list.
unfoldable pub memcmp : List ℕ → List ℕ → Comparison
memcmp [] ys = same
memcmp (x ∷ xs) [] = same
memcmp (x ∷ xs) (y ∷ ys) = if ltb x y then below else if ltb y x then above else memcmp xs ys

abbrev pub is_less : Comparison → Bool → Bool
is_less below shorter = true
is_less same shorter = shorter
is_less above shorter = false

-- `operator<` and `operator==`, on the bytes of the addresses.
unfoldable pub less : List ℕ → List ℕ → Bool
less l r = is_less (memcmp l r) (ltb (length l) (length r))

abbrev pub is_same : Comparison → Bool
is_same below = false
is_same same = true
is_same above = false

unfoldable pub equals : List ℕ → List ℕ → Bool
equals l r = (length l == length r) && is_same (memcmp l r)

module _ (host : Endian) where
  -- `byteswapOnLittleEndian`, of `k` bytes
  abbrev pub swap : ℕ → ℕ → ℕ
  swap k v = if same_endian host little then byteswap k v else v

  unfoldable pub new_ipv4 : ℕ → ℕ → SockaddrIn
  new_ipv4 address port = record {
    sin_family = af_inet;
    sin_port = swap 2 port;
    s_addr = swap 4 address;
  }

  -- The results of the next two are `none` for the null pointer.
  unfoldable pub broadcast_address : SockaddrIn → ℕ → Outcome (Option SockaddrIn)
  broadcast_address m_addr prefix_len =
      if ltb 32 prefix_len
      then ok none
      else (create_mask prefix_len >>= λ mask.
          ok (some (record m_addr { s_addr = bit_or m_addr.s_addr (swap 4 mask) })))

  unfoldable pub netword_address : SockaddrIn → ℕ → Outcome (Option SockaddrIn)
  netword_address m_addr prefix_len =
      if ltb 32 prefix_len
      then ok none
      else (create_mask prefix_len >>= λ mask.
          ok (some (record m_addr { s_addr = bit_and m_addr.s_addr (swap 4 mask) })))

  unfoldable pub subnet_mask : ℕ → Outcome SockaddrIn
  subnet_mask prefix_len = create_mask prefix_len >>= λ mask.
      ok (record { sin_family = af_inet; sin_port = 0; s_addr = 2 ^ 32 - 1 - swap 4 mask })

  unfoldable pub get_port : SockaddrIn → ℕ
  get_port m_addr = swap 2 m_addr.sin_port

  unfoldable pub set_port : SockaddrIn → ℕ → SockaddrIn
  set_port m_addr v = record m_addr { sin_port = swap 2 v }

  -- `insert`, where `text` is a number in decimal digits.
  unfoldable pub insert : (ℕ → List ℕ) → SockaddrIn → List ℕ
  insert text m_addr =
      let addr = swap 4 m_addr.s_addr in
      text (addr / 2 ^ 24 % 2 ^ 8)
      ++ 46 ∷ text (addr / 2 ^ 16 % 2 ^ 8)
      ++ 46 ∷ text (addr / 2 ^ 8 % 2 ^ 8)
      ++ 46 ∷ text (addr % 2 ^ 8)
      ++ 58 ∷ text (swap 2 m_addr.sin_port)

  -- The 16 bytes of the structure in memory.
  unfoldable pub raw_bytes : SockaddrIn → List ℕ
  raw_bytes m_addr =
      store host 2 m_addr.sin_family
      ++ store host 2 m_addr.sin_port
      ++ store host 4 m_addr.s_addr
      ++ 0 ∷ 0 ∷ 0 ∷ 0 ∷ 0 ∷ 0 ∷ 0 ∷ 0 ∷ []
