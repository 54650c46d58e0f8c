-- ===== src/Codec.antt =====
-- The typed reads and writes of dag/bytearray.cpp over `read` and `write`, with dag/utils/endian.h.
-- A w-bit integer, signed or not, is its bit pattern; a float is the pattern that `memcpy` takes, so
-- `writeFloat` and `writeDouble` are `write_fixed` at 4 and 8 bytes. `host` is the byte order of the
-- machine (`DAG_BYTE_ORDER`), `store` and `load` the bytes of an integer in its memory, and
-- `byteswap` is `bswap_16/32/64` of <byteswap.h>. Signed overflow in the zigzag code wraps.
pub mod Zigzag
pub mod Fixed
pub mod Varint
pub mod Items
pub mod Append
pub mod Reading
pub mod RoundTrip
pub mod Tests
use dag.Common.{
  ℕ, zero, suc, ◌+◌, ◌-◌, ◌*◌, ◌/◌, ◌%◌, ◌^◌, Bool, true, false, List, [], ◌∷◌, ◌++◌, reverse,
  length, get_elem?, ltb, leb, if◌then◌else◌, bit_and, bit_or, bit_xor, Outcome, ok, fault, stuck,
  deref, ◌>>=◌,
}
use dag.ByteArray.{ByteArray, Endian, little, big, read, write}

-- The `k` low bytes of a number, lowest first, and back.
unfoldable pub le_bytes : ℕ → ℕ → List ℕ
le_bytes zero v = []
le_bytes (suc k) v = v % 256 ∷ le_bytes k (v / 256)

unfoldable pub from_le : List ℕ → ℕ
from_le [] = 0
from_le (b ∷ bs) = b + 256 * from_le bs

unfoldable pub byteswap : ℕ → ℕ → ℕ
byteswap k v = from_le (reverse (le_bytes k v))

abbrev pub same_endian : Endian → Endian → Bool
same_endian little little = true
same_endian little big = false
same_endian big little = false
same_endian big big = true

-- `(uint32_t)(-v) * 2 - 1` for a negative `v`, else `v * 2`, at `w` bits
unfoldable pub encode_zigzag : ℕ → ℕ → ℕ
encode_zigzag w v =
    if leb (2 ^ (w - 1)) v then ((2 ^ w - v) * 2 + (2 ^ w - 1)) % 2 ^ w else v * 2 % 2 ^ w

-- `(v >> 1) ^ -(v & 1)`
unfoldable pub decode_zigzag : ℕ → ℕ → ℕ
decode_zigzag w v = bit_xor (v / 2) ((2 ^ w - bit_and v 1) % 2 ^ w)

-- `tmp[i++] = b` into an array of `cap` bytes
abbrev pub put : ℕ → List ℕ → ℕ → Outcome (List ℕ)
put cap tmp b = if ltb (length tmp) cap then ok (tmp ++ b ∷ []) else fault

-- The loop of `writeUint32` and `writeUint64`, with the assignment behind it.
unfoldable pub encode_loop : ℕ → ℕ → List ℕ → ℕ → Outcome (List ℕ)
encode_loop zero cap tmp value = stuck
encode_loop (suc fuel) cap tmp value = elim (leb 0x80 value) [
  | true ↦ do
    longer ← put cap tmp (bit_or (bit_and value 0x7F) 0x80)
    encode_loop fuel cap longer (value / 2 ^ 7)
  | false ↦ put cap tmp value
]

unfoldable pub read_fuint8 : ByteArray → Outcome (ℕ × ByteArray)
read_fuint8 s = do (v, t) ← read s 1; b ← deref (get_elem? v 0); ok (b, t)

unfoldable pub write_fuint8 : ByteArray → ℕ → Outcome ByteArray
write_fuint8 s v = write s (v ∷ [])

-- The loop of `readUint32` and `readUint64` at `w` bits, from bit `i` on.
unfoldable pub decode_loop : ℕ → ℕ → ByteArray → ℕ → ℕ → Outcome (ℕ × ByteArray)
decode_loop zero w s i result = stuck
decode_loop (suc fuel) w s i result = elim (ltb i w) [
  | true ↦ do
    (b, t) ← read_fuint8 s
    elim (ltb b 0x80) [
      | true ↦ ok (bit_or result (b * 2 ^ i % 2 ^ w), t)
      | false ↦ decode_loop fuel w t (i + 7) (bit_or result (bit_and b 0x7f * 2 ^ i % 2 ^ w))
    ]
  | false ↦ ok (result, s)
]

unfoldable pub write_uint32 : ByteArray → ℕ → Outcome ByteArray
write_uint32 s value = do tmp ← encode_loop 5 5 [] value; write s tmp

unfoldable pub write_uint64 : ByteArray → ℕ → Outcome ByteArray
write_uint64 s value = do tmp ← encode_loop 10 10 [] value; write s tmp

-- At most 5 and 10 rounds, and one more test.
unfoldable pub read_uint32 : ByteArray → Outcome (ℕ × ByteArray)
read_uint32 s = decode_loop 6 32 s 0 0

unfoldable pub read_uint64 : ByteArray → Outcome (ℕ × ByteArray)
read_uint64 s = decode_loop 11 64 s 0 0

unfoldable pub write_int32 : ByteArray → ℕ → Outcome ByteArray
write_int32 s value = write_uint32 s (encode_zigzag 32 value)

unfoldable pub write_int64 : ByteArray → ℕ → Outcome ByteArray
write_int64 s value = write_uint64 s (encode_zigzag 64 value)

unfoldable pub read_int32 : ByteArray → Outcome (ℕ × ByteArray)
read_int32 s = do (v, t) ← read_uint32 s; ok (decode_zigzag 32 v, t)

unfoldable pub read_int64 : ByteArray → Outcome (ℕ × ByteArray)
read_int64 s = do (v, t) ← read_uint64 s; ok (decode_zigzag 64 v, t)

-- `write(value.c_str(), value.size())`
unfoldable pub write_string_without_length : ByteArray → List ℕ → Outcome ByteArray
write_string_without_length s value = write s value

unfoldable pub write_string_vint : ByteArray → List ℕ → Outcome ByteArray
write_string_vint s value = do t ← write_uint64 s (length value); write t value

unfoldable pub read_string_vint : ByteArray → Outcome (List ℕ × ByteArray)
read_string_vint s = do (n, t) ← read_uint64 s; read t n

module _ (host : Endian) where
  -- The bytes of a `k`-byte integer in memory, and the integer that they make up.
  unfoldable pub store : ℕ → ℕ → List ℕ
  store k v = elim host [ little ↦ le_bytes k v | big ↦ reverse (le_bytes k v) ]

  unfoldable pub load : List ℕ → ℕ
  load bs = elim host [ little ↦ from_le bs | big ↦ from_le (reverse bs) ]

  -- `writeFint16` to `writeFuint64`, for a `k`-byte type
  unfoldable pub write_fixed : ℕ → ByteArray → ℕ → Outcome ByteArray
  write_fixed k s value =
      write s (store k (if same_endian s.endian host then value else byteswap k value))

  -- The macro `XX`
  unfoldable pub read_fixed : ℕ → ByteArray → Outcome (ℕ × ByteArray)
  read_fixed k s = do
    (v, t) ← read s k
    ok (if same_endian t.endian host then load v else byteswap k (load v), t)

  -- `writeStringF16/F32/F64`, whose length is cast to a `k`-byte type
  unfoldable pub write_string : ℕ → ByteArray → List ℕ → Outcome ByteArray
  write_string k s value = do t ← write_fixed k s (length value % 256 ^ k); write t value

  unfoldable pub read_string : ℕ → ByteArray → Outcome (List ℕ × ByteArray)
  read_string k s = do (n, t) ← read_fixed k s; read t n
