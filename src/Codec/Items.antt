-- ===== src/Codec/Items.antt =====
-- Values of every kind that the buffer can hold: how each is written and read, and its bytes on
-- the wire.
use dag.Common.{ℕ, ◌^◌, ◌<◌, List, [], ◌∷◌, ◌++◌, length, Outcome, ok, ◌>>=◌}
use dag.ByteArray.{ByteArray, Endian}
use dag.Codec.{
  encode_zigzag, write_fuint8, write_fixed, write_uint32, write_uint64, write_int32, write_int64,
  write_string, write_string_vint, read_fuint8, read_fixed, read_uint32, read_uint64, read_int32,
  read_int64, read_string, read_string_vint,
}
use dag.Codec.Fixed.{wire_fixed}
use dag.Codec.Varint.{groups}

-- The argument `k` is the number of bytes of a fixed-width number or length.
pub data Kind : Type 0 where
  byte uint32 uint64 int32 int64 vtext : Kind
  fixed text : (k : ℕ) → Kind

pub data Item : Type 0 where
  number : Kind → ℕ → Item
  chars : Kind → List ℕ → Item

abbrev pub kind_of : Item → Kind
kind_of (number k v) = k
kind_of (chars k bs) = k

-- The items that a call of the class can be given: each number fits its type. Texts are not empty,
-- and their length fits its prefix.
abbrev pub InRange : Item → Type 0
InRange (number Kind.byte v) = v < 256
InRange (number Kind.uint32 v) = v < 2 ^ 32
InRange (number Kind.uint64 v) = v < 2 ^ 64
InRange (number Kind.int32 v) = v < 2 ^ 32
InRange (number Kind.int64 v) = v < 2 ^ 64
InRange (number (Kind.fixed k) v) = (v < 256 ^ k) × (0 < k)
InRange (chars (Kind.text k) bs) = (length bs < 256 ^ k) × (0 < k) × (0 < length bs)
InRange (chars Kind.vtext bs) = (length bs < 2 ^ 64) × (0 < length bs)
InRange _ = ⊥

abbrev pub wire : Endian → Item → List ℕ
wire e (number Kind.byte v) = v ∷ []
wire e (number Kind.uint32 v) = groups 4 v
wire e (number Kind.uint64 v) = groups 9 v
wire e (number Kind.int32 v) = groups 4 (encode_zigzag 32 v)
wire e (number Kind.int64 v) = groups 9 (encode_zigzag 64 v)
wire e (number (Kind.fixed k) v) = wire_fixed e k v
wire e (chars (Kind.text k) bs) = wire_fixed e k (length bs) ++ bs
wire e (chars Kind.vtext bs) = groups 9 (length bs) ++ bs
wire e _ = []

abbrev as_number : Kind → Outcome (ℕ × ByteArray) → Outcome (Item × ByteArray)
as_number k m = m >>= λ r. ok (number k r.0, r.1)

abbrev as_chars : Kind → Outcome (List ℕ × ByteArray) → Outcome (Item × ByteArray)
as_chars k m = m >>= λ r. ok (chars k r.0, r.1)

module _ (host : Endian) where
  unfoldable pub write_item : ByteArray → Item → Outcome ByteArray
  write_item s (number Kind.byte v) = write_fuint8 s v
  write_item s (number Kind.uint32 v) = write_uint32 s v
  write_item s (number Kind.uint64 v) = write_uint64 s v
  write_item s (number Kind.int32 v) = write_int32 s v
  write_item s (number Kind.int64 v) = write_int64 s v
  write_item s (number (Kind.fixed k) v) = write_fixed host k s v
  write_item s (chars (Kind.text k) bs) = write_string host k s bs
  write_item s (chars Kind.vtext bs) = write_string_vint s bs
  write_item s _ = ok s

  unfoldable pub read_item : Kind → ByteArray → Outcome (Item × ByteArray)
  read_item Kind.byte s = as_number Kind.byte (read_fuint8 s)
  read_item Kind.uint32 s = as_number Kind.uint32 (read_uint32 s)
  read_item Kind.uint64 s = as_number Kind.uint64 (read_uint64 s)
  read_item Kind.int32 s = as_number Kind.int32 (read_int32 s)
  read_item Kind.int64 s = as_number Kind.int64 (read_int64 s)
  read_item (Kind.fixed k) s = as_number (Kind.fixed k) (read_fixed host k s)
  read_item (Kind.text k) s = as_chars (Kind.text k) (read_string host k s)
  read_item Kind.vtext s = as_chars Kind.vtext (read_string_vint s)

  -- A sequence of calls, and the readings of a sequence of kinds.
  unfoldable pub write_items : ByteArray → List Item → Outcome ByteArray
  write_items s [] = ok s
  write_items s (x ∷ xs) = do t ← write_item s x; write_items t xs

  unfoldable pub read_items : List Kind → ByteArray → Outcome (List Item × ByteArray)
  read_items [] s = ok ([], s)
  read_items (k ∷ ks) s = do (x, t) ← read_item k s; (xs, u) ← read_items ks t; ok (x ∷ xs, u)
