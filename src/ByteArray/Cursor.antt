-- ===== src/ByteArray/Cursor.antt =====
-- How the block pointer moves with the position, in the loops of `write` and `read` alike.
use dag.Common.{
  ℕ, ◌+◌, ◌-◌, ◌*◌, ◌≤◌, ◌<◌, ◌≡◌, ap, inl, inr, some, arith, length, ◌==◌, if◌then◌else◌,
}
use native.Mathlib.Decide.{dec_lt}
use dag.Memory.Chain.{Blocks, index_of_lt}
use dag.ByteArray.{ByteArray, next}
use dag.ByteArray.Valid.{At, Cursor, IsValid}

-- What the loops need of a buffer.
pub record Shape (s : ByteArray) : Type 0 where
  pub has_base : 0 < s.base_size
  pub blocks : Blocks s.base_size s.nodes
  pub room : s.capacity ≡ length s.nodes * s.base_size

pub IsValid-Shape : {s : ByteArray} → IsValid s → Shape s
IsValid-Shape v = record { has_base = v.has_base; blocks = v.blocks; room = v.room }

-- `t` has the chain of `s`, as far as pointers into it go, and stands `n` bytes further on.
pub record Moved (s : ByteArray) (n : ℕ) (t : ByteArray) : Type 0 where
  pub base_same : t.base_size ≡ s.base_size
  pub capacity_same : t.capacity ≡ s.capacity
  pub nodes_same : length t.nodes ≡ length s.nodes
  pub moved : t.position ≡ s.position + n

module _ {s t : ByteArray} {i off n : ℕ} (w : Shape s) (a : At s i off) (m : Moved s n t) where
  -- The last round: within the block, or just past its end.
  pub last-Cursor :
      off + n ≤ s.base_size
      → t.cur ≡ (if s.base_size == off + n then next s.nodes i else some i)
      → Cursor t
  last-Cursor h c = elim (dec_lt (off + n) s.base_size) [
    | yes p ↦ inl (
      i,
      off + n,
      record {
        here = ground arith;
        place = ground arith;
        inside = omega arith;
        exists = omega arith;
      },
    )
    | no p ↦ elim (dec_lt (i + 1) (length s.nodes)) [
      | yes q ↦ inl (
        i + 1,
        0,
        record {
          here = ground arith;
          place = ground arith;
          inside = omega arith;
          exists = omega arith;
        },
      )
      | no q ↦
          let last : length s.nodes ≡ i + 1 = omega arith in
          inr (ground arith, omega (arith, ap (λ (k : ℕ). k * s.base_size) last))
    ]
  ]

-- A round that fills the block goes on at the start of the next one.
module _ {s : ByteArray} {i off : ℕ} (w : Shape s) (a : At s i off) where
  pub next_exists :
      {k : ℕ} → s.position + k ≤ s.capacity → s.base_size - off < k → i + 1 < length s.nodes
  next_exists h p = index_of_lt (i + 1) (length s.nodes) s.base_size 0 (omega arith)

  pub next-At :
      {t : ByteArray}
      → Moved s (s.base_size - off) t
      → i + 1 < length s.nodes
      → t.cur ≡ some (i + 1)
      → At t (i + 1) 0
  next-At m h c = record {
    here = c;
    place = ground arith;
    inside = omega arith;
    exists = omega arith;
  }
