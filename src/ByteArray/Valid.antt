-- ===== src/ByteArray/Valid.antt =====
-- The representation invariant of `ByteArray`, and its two views: all bytes written, and the bytes
-- from the position on.
use dag.Common.{
  ℕ, ◌+◌, ◌-◌, ◌*◌, ◌^◌, ◌≤◌, ◌<◌, ◌≡◌, refl, ◌⊎◌, inl, inr, some, none, List, [], arith, length,
  take, drop, length-replicate, length-take,
}
use dag.Memory.{flat}
use dag.Memory.Chain.{Blocks, length-flat}
use dag.ByteArray.{ByteArray, init, read_size, spare}

-- `m_cur` is block `i`, and the position is `off` bytes into it.
pub record At (s : ByteArray) (i off : ℕ) : Type 0 where
  pub here : s.cur ≡ some i
  pub place : i * s.base_size + off ≡ s.position
  pub inside : off < s.base_size
  pub exists : i < length s.nodes

-- `m_cur` is the block of the position, or null exactly at the end of the chain.
abbrev pub Cursor : ByteArray → Type 0
Cursor s = ((i : ℕ) × (off : ℕ) × At s i off) ⊎ ((s.cur ≡ none) × (s.position ≡ s.capacity))

pub record IsValid (s : ByteArray) : Type 0 where
  pub has_base : 0 < s.base_size
  pub blocks : Blocks s.base_size s.nodes
  pub room : s.capacity ≡ length s.nodes * s.base_size
  pub has_root : 0 < length s.nodes
  pub read_le : s.position ≤ s.size
  pub size_le : s.size ≤ s.capacity
  pub fits : s.capacity < 2 ^ 64
  pub cursor : Cursor s

-- Everything written, and what the next reads return.
abbrev pub bytes : ByteArray → List ℕ
bytes s = take s.size (flat s.nodes)

abbrev pub unread : ByteArray → List ℕ
unread s = drop s.position (bytes s)

pub init-IsValid :
    (junk base : ℕ)
    → 0 < base
    → base < 2 ^ 64
    → IsValid (init junk base) × (bytes (init junk base) ≡ [])
unfolding init flat
init-IsValid junk base h h' = (
  record {
    has_base = h;
    blocks = (length-replicate base junk, tt);
    room = omega arith;
    has_root = omega arith;
    read_le = omega arith;
    size_le = omega arith;
    fits = h';
    cursor =
        inl (0, 0, record { here = refl; place = omega arith; inside = h; exists = omega arith });
  },
  refl,
)

-- On a valid buffer the unsigned subtractions do not wrap.
pub read_size_lem : {s : ByteArray} → IsValid s → read_size s ≡ s.size - s.position
read_size_lem v = omega arith

pub spare_lem : {s : ByteArray} → IsValid s → spare s ≡ s.capacity - s.position
spare_lem v = omega arith

pub length-bytes : {s : ByteArray} → IsValid s → length (bytes s) ≡ s.size
length-bytes {s} v =
    omega (arith, length-take s.size (flat s.nodes), length-flat s.base_size s.nodes v.blocks)

-- Short of the end of the chain `m_cur` is a block.
pub At-lt : {s : ByteArray} → IsValid s → s.position < s.capacity → (i : ℕ) × (off : ℕ) × At s i off
At-lt {s} v h = elim v.cursor [ inl p ↦ p | inr (_, e) ↦ absurd (omega arith) ]
