-- ===== src/ByteArray.antt =====
-- dag/bytearray.h and dag/bytearray.cpp: the buffer of chained blocks. A `Node*` is the index of the
-- block in the chain, `none` for the null pointer; a byte is a number. `junk` is what a fresh
-- `new char[s]` holds; no operation changes it.
-- `size_t` subtraction wraps (`sub64`). Positions and capacities count allocated bytes, so their
-- sums are taken not to wrap. `ceil(1.0 * size / m_baseSize)` is the integer ceiling, which the
-- double gives for sizes below 2 ^ 53.
pub mod Valid
pub mod Cursor
pub mod Grow
pub mod WriteLoop
pub mod Write
pub mod ReadLoop
pub mod Read
pub mod Seek
pub mod Buffers
pub mod Gather
pub mod Scatter
pub mod Tests
use dag.Common.{
  ℕ, zero, suc, ◌+◌, ◌-◌, ◌*◌, ◌/◌, ◌%◌, ◌^◌, Bool, true, false, Option, some, none, List, [], ◌∷◌,
  ◌++◌, length, get_elem?, take, drop, replicate, ltb, leb, ◌==◌, if◌then◌else◌, Outcome, ok,
  out_of_range, stuck, deref, ◌>>=◌,
}
use dag.Memory.{poke, slice}

pub data Endian : Type 0 where
  little big : Endian

pub record ByteArray : Type 0 where
  pub base_size : ℕ
  pub position : ℕ
  pub capacity : ℕ
  pub size : ℕ
  pub endian : Endian
  pub nodes : List (List ℕ)
  pub cur : Option ℕ
  pub junk : ℕ

abbrev pub sub64 : ℕ → ℕ → ℕ
sub64 a b = (a + 2 ^ 64 - b) % 2 ^ 64

-- The constructor; the first argument is what fresh memory holds.
unfoldable pub init : ℕ → ℕ → ByteArray
init junk base = record {
  base_size = base;
  position = 0;
  capacity = base;
  size = 0;
  endian = big;
  nodes = replicate base junk ∷ [];
  cur = some 0;
  junk = junk;
}

unfoldable pub is_little_endian : ByteArray → Bool
is_little_endian s = elim s.endian [ little ↦ true | big ↦ false ]

unfoldable pub set_is_little_endian : ByteArray → Bool → ByteArray
set_is_little_endian s val = record s { endian = if val then little else big }

-- `getReadSize`
abbrev pub read_size : ByteArray → ℕ
read_size s = sub64 s.size s.position

-- `getCapacity`: the room from the position on.
abbrev pub spare : ByteArray → ℕ
spare s = sub64 s.capacity s.position

-- `node->next` of the node at index `i`
abbrev pub next : List (List ℕ) → ℕ → Option ℕ
next nodes i = if ltb (i + 1) (length nodes) then some (i + 1) else none

-- `count` rounds of the loop of `addCapacity`: a block at the end of the chain each.
unfoldable pub grow : ℕ → ByteArray → ByteArray
grow zero s = s
grow (suc count) s = grow count (record s {
  nodes = s.nodes ++ replicate s.base_size s.junk ∷ [];
  capacity = s.capacity + s.base_size;
})

-- `first`, the first block that the loop added, if it added one.
abbrev pub first_added : ByteArray → ℕ → Option ℕ
first_added s count = if ltb 0 count then some (length s.nodes) else none

abbrev pub blocks_for : ℕ → ℕ → ℕ
blocks_for size base = (size + base - 1) / base

unfoldable pub add_capacity : ByteArray → ℕ → ByteArray
add_capacity s size =
    if size == 0
    then s
    else if leb size (spare s)
    then s
    else let count = blocks_for (size - spare s) s.base_size in
      record (grow count s) { cur = if spare s == 0 then first_added s count else s.cur }

-- The loop of `write`: `buf` is what is still to be copied, from `bpos` on.
unfoldable pub write_loop : ℕ → ByteArray → List ℕ → ℕ → ℕ → Outcome ByteArray
write_loop zero s buf npos ncap = if length buf == 0 then ok s else stuck
write_loop (suc fuel) s buf npos ncap = elim (length buf == 0) [
  | true ↦ ok s
  | false ↦ elim (leb (length buf) ncap) [
    | true ↦ do
      i ← deref s.cur
      node ← deref (get_elem? s.nodes i)
      write_loop fuel
          (record s {
            nodes = poke s.nodes i npos buf;
            cur = if length node == npos + length buf then next s.nodes i else some i;
            position = s.position + length buf;
          })
          [] npos ncap
    | false ↦ do
      i ← deref s.cur
      j ← deref (next s.nodes i)
      node ← deref (get_elem? s.nodes j)
      write_loop fuel
          (record s {
            nodes = poke s.nodes i npos (take ncap buf);
            cur = some j;
            position = s.position + ncap;
          })
          (drop ncap buf) 0 (length node)
  ]
]

-- `if(m_position > m_size) m_size = m_position;`
abbrev pub raise_size : ByteArray → ByteArray
raise_size s = if ltb s.size s.position then record s { size = s.position } else s

-- The body of `write` after `addCapacity`.
unfoldable pub write_grown : ByteArray → List ℕ → Outcome ByteArray
write_grown s buf = do
  i ← deref s.cur
  node ← deref (get_elem? s.nodes i)
  let npos = s.position % s.base_size
  t ← write_loop (length buf) s buf npos (sub64 (length node) npos)
  ok (raise_size t)

unfoldable pub write : ByteArray → List ℕ → Outcome ByteArray
write s buf = if length buf == 0 then ok s else write_grown (add_capacity s (length buf)) buf

-- The loop of `read(buf, size)`; `out` is what `buf` holds so far.
unfoldable pub read_loop : ℕ → ByteArray → ℕ → ℕ → ℕ → List ℕ → Outcome (List ℕ × ByteArray)
read_loop zero s size npos ncap out = if size == 0 then ok (out, s) else stuck
read_loop (suc fuel) s size npos ncap out = elim (size == 0) [
  | true ↦ ok (out, s)
  | false ↦ elim (leb size ncap) [
    | true ↦ do
      i ← deref s.cur
      node ← deref (get_elem? s.nodes i)
      read_loop fuel
          (record s {
            cur = if length node == npos + size then next s.nodes i else some i;
            position = s.position + size;
          })
          0 npos ncap (out ++ slice node npos size)
    | false ↦ do
      i ← deref s.cur
      node ← deref (get_elem? s.nodes i)
      j ← deref (next s.nodes i)
      after ← deref (get_elem? s.nodes j)
      read_loop fuel (record s { cur = some j; position = s.position + ncap }) (size - ncap) 0
          (length after) (out ++ slice node npos ncap)
  ]
]

unfoldable pub read : ByteArray → ℕ → Outcome (List ℕ × ByteArray)
read s size = if ltb (read_size s) size then out_of_range else do
  i ← deref s.cur
  node ← deref (get_elem? s.nodes i)
  let npos = s.position % s.base_size
  read_loop size s size npos (sub64 (length node) npos) []

-- `while(node_idx > 0) cur = cur->next;`
unfoldable pub walk : ℕ → List (List ℕ) → Option ℕ → Outcome (Option ℕ)
walk zero nodes cur = ok cur
walk (suc idx) nodes cur = do i ← deref cur; walk idx nodes (next nodes i)

-- The loop of `read(buf, size, position)`, which moves a pointer of its own.
unfoldable pub copy_loop : ℕ → List (List ℕ) → Option ℕ → ℕ → ℕ → ℕ → List ℕ → Outcome (List ℕ)
copy_loop zero nodes cur size npos ncap out = if size == 0 then ok out else stuck
copy_loop (suc fuel) nodes cur size npos ncap out = elim (size == 0) [
  | true ↦ ok out
  | false ↦ elim (leb size ncap) [
    | true ↦ do
      i ← deref cur
      node ← deref (get_elem? nodes i)
      copy_loop fuel nodes (if length node == npos + size then next nodes i else some i) 0 npos ncap
          (out ++ slice node npos size)
    | false ↦ do
      i ← deref cur
      node ← deref (get_elem? nodes i)
      j ← deref (next nodes i)
      after ← deref (get_elem? nodes j)
      copy_loop fuel nodes (some j) (size - ncap) 0 (length after) (out ++ slice node npos ncap)
  ]
]

-- `ncap` is taken from `m_cur`, as in the source, not from the node at `position`.
unfoldable pub read_at : ByteArray → ℕ → ℕ → Outcome (List ℕ)
read_at s size position = if ltb (sub64 s.size position) size then out_of_range else do
  cur ← walk (position / s.base_size) s.nodes (some 0)
  i ← deref s.cur
  node ← deref (get_elem? s.nodes i)
  let npos = position % s.base_size
  copy_loop size s.nodes cur size npos (sub64 (length node) npos) []

-- The loop of `setPosition` and the test behind it.
unfoldable pub seek : ℕ → List (List ℕ) → Option ℕ → ℕ → Outcome (Option ℕ)
seek zero nodes cur v = stuck
seek (suc fuel) nodes cur v = do
  i ← deref cur
  node ← deref (get_elem? nodes i)
  elim (ltb (length node) v) [
    | true ↦ seek fuel nodes (next nodes i) (v - length node)
    | false ↦ ok (if v == length node then next nodes i else some i)
  ]

unfoldable pub set_position : ByteArray → ℕ → Outcome ByteArray
set_position s v = if ltb s.capacity v then out_of_range else do
  cur ← seek (suc (length s.nodes)) s.nodes (some 0) v
  ok (record (raise_size (record s { position = v })) { cur = cur })

unfoldable pub clear : ByteArray → ByteArray
clear s = record s {
  position = 0;
  size = 0;
  capacity = s.base_size;
  nodes = take 1 s.nodes;
  cur = some 0;
}

unfoldable pub to_string : ByteArray → Outcome (List ℕ)
to_string s = if read_size s == 0 then ok [] else read_at s (read_size s) s.position
