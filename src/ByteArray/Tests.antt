-- ===== src/ByteArray/Tests.antt =====
-- Runs of the buffer at concrete inputs, and the theorems on it applied there.
use dag.Common.{ℕ, ◌≡◌, refl, List, [], ◌∷◌, some, inl, arith, take, ok, length}
use dag.ByteArray.{ByteArray, big, write, read, set_position}
use dag.ByteArray.Valid.{IsValid, unread}
use dag.ByteArray.Write.{Written, write_lem}
use dag.ByteArray.Read.{Consumed, read_lem}
use dag.ByteArray.Buffers.{Iovec, get_read_buffers, get_write_buffers, gather, scatter}
use dag.ByteArray.Gather.{gather-get_read_buffers}
use dag.ByteArray.Scatter.{scatter-get_write_buffers}
use dag.ByteArray.Seek.{Sought, set_position_lem}

-- A buffer of one block of four bytes, three of them written.
abbrev pub held : ByteArray
held = record {
  base_size = 4;
  position = 0;
  capacity = 4;
  size = 3;
  endian = big;
  nodes = (7 ∷ 8 ∷ 9 ∷ 0 ∷ []) ∷ [];
  cur = some 0;
  junk = 0;
}

pub held-IsValid : IsValid held
held-IsValid = record {
  has_base = omega arith;
  blocks = (refl, tt);
  room = refl;
  has_root = omega arith;
  read_le = omega arith;
  size_le = omega arith;
  fits = omega arith;
  cursor =
      inl (0, 0, record { here = refl; place = refl; inside = omega arith; exists = omega arith });
}

-- Five bytes over the end of the block: the buffer grows by one block.
abbrev pub five : List ℕ
five = 1 ∷ 2 ∷ 3 ∷ 4 ∷ 5 ∷ []

write_lem_example : (t : ByteArray) × (write held five ≡ ok t) × Written held five t
write_lem_example = write_lem held five held-IsValid (omega arith)

read_lem_example :
    (t : ByteArray) × (read held 2 ≡ ok (take 2 (unread held), t)) × Consumed held 2 t
read_lem_example = read_lem held 2 held-IsValid (omega arith) (omega arith)

set_position_lem_example : (t : ByteArray) × (set_position held 2 ≡ ok t) × Sought held 2 t
set_position_lem_example = set_position_lem held 2 held-IsValid (omega arith)

gather-get_read_buffers_example :
    (n : ℕ) × (iovs : List Iovec) × (get_read_buffers held 2 ≡ ok (n, iovs))
    × (gather held.nodes iovs ≡ ok (take 2 (unread held)))
    × (n ≡ length (take 2 (unread held)))
gather-get_read_buffers_example = gather-get_read_buffers held 2 held-IsValid

scatter-get_write_buffers_example :
    (t : ByteArray) × (iovs : List Iovec) × (grown : ByteArray) × (write held five ≡ ok t)
    × (get_write_buffers held 5 ≡ ok (5, iovs, grown))
    × (scatter grown.nodes iovs five ≡ t.nodes)
scatter-get_write_buffers_example =
    scatter-get_write_buffers held five held-IsValid (omega arith) (omega arith)
