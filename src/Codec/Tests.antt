-- ===== src/Codec/Tests.antt =====
-- Runs of the typed writers and readers at concrete inputs, and the theorems on them applied there.
use dag.Common.{◌≡◌, refl, List, [], ◌∷◌, map, arith, ok, length}
use dag.ByteArray.{ByteArray, little, big, init, set_position}
use dag.ByteArray.Valid.{init-IsValid, unread}
use dag.Codec.{le_bytes, encode_zigzag}
use dag.Codec.Items.{
  Item, number, chars, uint32, int32, fixed, text, kind_of, write_items, read_items,
}
use dag.Codec.Varint.{groups}
use dag.Codec.Append.{Fits}
use dag.Codec.RoundTrip.{AllInRange, wires, round_trip}

-- A varint, a negative number, a fixed-width number and a text, over three blocks of four bytes.
abbrev items : List Item
items =
    number uint32 300
    ∷ number int32 4294967295
    ∷ number (fixed 2) 513
    ∷ chars (text 2) (104 ∷ 105 ∷ [])
    ∷ []

abbrev empty_buffer : ByteArray
empty_buffer = init 0 4

items_fit : AllInRange items × Fits empty_buffer (length (wires big items))
unfolding init groups encode_zigzag le_bytes
items_fit = (
  (
    omega arith,
    (omega arith, ((omega arith, omega arith), ((omega arith, omega arith, omega arith), tt))),
  ),
  omega arith,
)

round_trip_example :
    (t : ByteArray) × (u : ByteArray) × (v : ByteArray) × (write_items little empty_buffer items
      ≡ ok t)
    × (set_position t 0 ≡ ok u)
    × (read_items big (map kind_of items) u ≡ ok (items, v))
    × (unread v ≡ [])
unfolding init
round_trip_example =
    round_trip little big items empty_buffer ((init-IsValid 0 4 (omega arith) (omega arith)).0) refl
      items_fit.0 items_fit.1
