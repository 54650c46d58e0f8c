-- ===== src/ByteArray/Buffers.antt =====
-- The scatter lists of the buffer and its input and output of files. An `iovec` is a block, an offset
-- into it and a length. What a file holds is a list of bytes, `none` if it cannot be opened.
use dag.Common.{
  ℕ, zero, suc, ◌+◌, ◌-◌, ◌/◌, ◌%◌, ◌^◌, min, Bool, true, false, Option, some, none, List, [], ◌∷◌,
  ◌++◌, ltb, leb, ◌==◌, if◌then◌else◌, Outcome, ok, fault, stuck, ◌>>=◌, deref, length, get_elem?,
  take, drop,
}
use dag.Memory.{poke, slice}
use dag.ByteArray.{ByteArray, sub64, read_size, next, add_capacity, walk, write, to_string}

pub record Iovec : Type 0 where
  pub block : ℕ
  pub offset : ℕ
  pub len : ℕ

-- The loop of `getReadBuffers` and of `getWriteBuffers`, with the pointer `cur`.
unfoldable pub buffers_loop : ℕ → List (List ℕ) → Option ℕ → ℕ → ℕ → ℕ → Outcome (List Iovec)
buffers_loop zero nodes cur len npos ncap = if len == 0 then ok [] else stuck
buffers_loop (suc fuel) nodes cur len npos ncap = elim (len == 0) [
  | true ↦ ok []
  | false ↦ elim (leb len ncap) [
    | true ↦ do
      i ← deref cur
      rest ← buffers_loop fuel nodes cur 0 npos ncap
      ok (record { block = i; offset = npos; len = len } ∷ rest)
    | false ↦ do
      i ← deref cur
      j ← deref (next nodes i)
      node ← deref (get_elem? nodes j)
      rest ← buffers_loop fuel nodes (some j) (len - ncap) 0 (length node)
      ok (record { block = i; offset = npos; len = ncap } ∷ rest)
  ]
]

-- The list from the position on, of blocks that the buffer has.
abbrev pub buffers_here : ByteArray → ℕ → Outcome (List Iovec)
buffers_here s len = do
  i ← deref s.cur
  node ← deref (get_elem? s.nodes i)
  let npos = s.position % s.base_size
  buffers_loop len s.nodes s.cur len npos (sub64 (length node) npos)

-- `getReadBuffers(buffers, len)` on an empty vector.
unfoldable pub get_read_buffers : ByteArray → ℕ → Outcome (ℕ × List Iovec)
get_read_buffers s len =
    let size = if ltb (read_size s) len then read_size s else len in
    if size == 0 then ok (0, []) else (buffers_here s size >>= λ iovs. ok (size, iovs))

-- `getReadBuffers(buffers, len, position)`; its length is bounded from `m_position`, as in the source.
unfoldable pub get_read_buffers_at : ByteArray → ℕ → ℕ → Outcome (ℕ × List Iovec)
get_read_buffers_at s len position =
    let size = if ltb (read_size s) len then read_size s else len in
    if size == 0 then ok (0, []) else do
      cur ← walk (position / s.base_size) s.nodes (some 0)
      i ← deref cur
      node ← deref (get_elem? s.nodes i)
      let npos = position % s.base_size
      iovs ← buffers_loop size s.nodes cur size npos (sub64 (length node) npos)
      ok (size, iovs)

unfoldable pub get_write_buffers : ByteArray → ℕ → Outcome (ℕ × List Iovec × ByteArray)
get_write_buffers s len =
    if len == 0
    then ok (0, [], s)
    else (let grown = add_capacity s len in
        buffers_here grown len >>= λ iovs. ok (len, iovs, grown))

-- What the system takes from the memory that a list names, which must not reach beyond the end of a block, and
-- what it puts there.
abbrev pub gather : List (List ℕ) → List Iovec → Outcome (List ℕ)
gather nodes [] = ok []
gather nodes (v ∷ vs) = do
  node ← deref (get_elem? nodes v.block)
  taken ← if leb (v.offset + v.len) (length node) then ok (slice node v.offset v.len) else fault
  rest ← gather nodes vs
  ok (taken ++ rest)

abbrev pub scatter : List (List ℕ) → List Iovec → List ℕ → List (List ℕ)
scatter nodes [] buf = nodes
scatter nodes (v ∷ vs) buf =
    scatter (poke nodes v.block v.offset (take v.len buf)) vs (drop v.len buf)

-- The loop of `writeToFile`, which writes `left` bytes.
unfoldable pub file_loop : ℕ → List (List ℕ) → ℕ → Option ℕ → ℕ → ℕ → Outcome (List ℕ)
file_loop zero nodes base cur pos left = if left == 0 then ok [] else stuck
file_loop (suc fuel) nodes base cur pos left = elim (left == 0) [
  | true ↦ ok []
  | false ↦ do
    i ← deref cur
    node ← deref (get_elem? nodes i)
    let diff = pos % base
    let len = min (base - diff) left
    rest ← file_loop fuel nodes base (next nodes i) (pos + len) (left - len)
    ok (slice node diff len ++ rest)
]

-- `writeToFile` where the file could be opened; `getReadSize` is taken as a signed number.
unfoldable pub write_to_file : ByteArray → Outcome (List ℕ)
write_to_file s =
    let left = if ltb (read_size s) (2 ^ 63) then read_size s else 0 in
    file_loop left s.nodes s.base_size s.cur s.position left

-- The loop of `readFromFile` over what is left of the file. A read that gets fewer bytes than it
-- asked for is at the end of the file.
unfoldable pub read_file_loop : ℕ → ByteArray → List ℕ → Outcome ByteArray
read_file_loop zero s file = stuck
read_file_loop (suc fuel) s file = do
  t ← write s (take s.base_size file)
  elim (ltb (length file) s.base_size) [
    | true ↦ ok t
    | false ↦ read_file_loop fuel t (drop s.base_size file)
  ]

unfoldable pub read_from_file : ByteArray → Option (List ℕ) → Outcome (Bool × ByteArray)
read_from_file s none = ok (false, s)
read_from_file s (some file) = read_file_loop (suc (length file)) s file >>= λ t. ok (true, t)

-- `toHexString`: two digits and a space for each byte, and a new line before every 32nd.
abbrev pub hex_digit : ℕ → ℕ
hex_digit n = if ltb n 10 then 48 + n else 87 + n

abbrev pub hex_loop : ℕ → List ℕ → List ℕ
hex_loop i [] = []
hex_loop i (b ∷ bs) =
    (if ltb 0 i then if i % 32 == 0 then 10 ∷ [] else [] else [])
    ++ hex_digit (b / 16) ∷ hex_digit (b % 16) ∷ 32 ∷ hex_loop (i + 1) bs

unfoldable pub to_hex_string : ByteArray → Outcome (List ℕ)
to_hex_string s = to_string s >>= λ str. ok (hex_loop 0 str)
