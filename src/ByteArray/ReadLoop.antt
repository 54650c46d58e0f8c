-- ===== src/ByteArray/ReadLoop.antt =====
-- The loop of `read(buf, size)`: it touches no null block, and collects one slice of the run of bytes.
use dag.Common.{
  ℕ, zero, suc, ◌+◌, ◌-◌, ◌≤◌, ◌<◌, ◌≡◌, refl, sym, ap, ◌∙◌, some, List, ◌++◌, arith, length,
  get_elem?, ◌==◌, if◌then◌else◌, append_assoc, ok,
}
use native.Mathlib.Decide.{dec_lt}
use dag.Memory.{flat, slice}
use dag.Memory.Patch.{slice-append}
use dag.Memory.Chain.{get_elem?-Blocks, slice-flat}
use dag.ByteArray.{ByteArray, next, read_loop}
use dag.ByteArray.Cursor.{Shape, Moved, last-Cursor, next_exists, next-At}
use dag.ByteArray.Valid.{At, Cursor}

pub read_loop_nil :
    (fuel : ℕ) (s : ByteArray) (npos ncap : ℕ) (out : List ℕ)
    → read_loop fuel s 0 npos ncap out ≡ ok (out, s)
unfolding read_loop
read_loop_nil zero s npos ncap out = refl
read_loop_nil (suc fuel) s npos ncap out = refl

module _ (s : ByteArray) (i npos : ℕ) where
  abbrev last_round : ℕ → ByteArray
  last_round size = record s {
    cur = if s.base_size == npos + size then next s.nodes i else some i;
    position = s.position + size;
  }

  abbrev full_round : ℕ → ByteArray
  full_round ncap = record s { cur = some (i + 1); position = s.position + ncap }

  read_loop_last :
      (fuel size ncap : ℕ) (out node : List ℕ)
      → s.cur ≡ some i
      → get_elem? s.nodes i ≡ some node
      → length node ≡ s.base_size
      → 0 < size
      → size ≤ ncap
      → read_loop (suc fuel) s size npos ncap out
        ≡ ok (out ++ slice node npos size, last_round size)
  unfolding read_loop
  read_loop_last fuel size ncap out node hc hn hl h0 h =
      ground (arith, read_loop_nil fuel (last_round size) npos ncap (out ++ slice node npos size))

  read_loop_more :
      (fuel size ncap : ℕ) (out node after : List ℕ)
      → s.cur ≡ some i
      → get_elem? s.nodes i ≡ some node
      → i + 1 < length s.nodes
      → get_elem? s.nodes (i + 1) ≡ some after
      → length after ≡ s.base_size
      → ncap < size
      → read_loop (suc fuel) s size npos ncap out
        ≡ read_loop fuel (full_round ncap) (size - ncap) 0 s.base_size (out ++ slice node npos ncap)
  unfolding read_loop
  read_loop_more fuel size ncap out node after hc hn hi ha hl h = ground arith

-- What a read leaves: only the position and the pointer change.
pub record Passed (s : ByteArray) (n : ℕ) (t : ByteArray) : Type 0 where
  pub nodes_same : t.nodes ≡ s.nodes
  pub base_same : t.base_size ≡ s.base_size
  pub capacity_same : t.capacity ≡ s.capacity
  pub size_same : t.size ≡ s.size
  pub endian_same : t.endian ≡ s.endian
  pub moved : t.position ≡ s.position + n
  pub cursor : Cursor t

last_round-Passed :
    {s : ByteArray} {i off : ℕ} (w : Shape s) (a : At s i off) (size : ℕ)
    → off + size ≤ s.base_size
    → Passed s size (last_round s i off size)
last_round-Passed {s} {i} {off} w a size h = record {
  nodes_same = refl;
  base_same = refl;
  capacity_same = refl;
  size_same = refl;
  endian_same = refl;
  moved = refl;
  cursor =
      last-Cursor w a
        (record { base_same = refl; capacity_same = refl; nodes_same = refl; moved = refl }) h refl;
}

full_round-Moved :
    (s : ByteArray) (i off ncap : ℕ)
    → ncap ≡ s.base_size - off
    → Moved s (s.base_size - off) (full_round s i off ncap)
full_round-Moved s i off ncap e = record {
  base_same = refl;
  capacity_same = refl;
  nodes_same = refl;
  moved = ap (λ k. s.position + k) e;
}

-- The bytes of a full round and those of the later rounds follow one another.
joined :
    (s : ByteArray) (i off ncap size : ℕ) (out node : List ℕ)
    → Shape s
    → At s i off
    → get_elem? s.nodes i ≡ some node
    → off + ncap ≤ s.base_size
    → ncap ≤ size
    → out ++ slice node off ncap ++ slice (flat s.nodes) (s.position + ncap) (size - ncap)
      ≡ out ++ slice (flat s.nodes) s.position size
joined s i off ncap size out node w a hn h le =
    ap (λ l. out ++ l ++ slice (flat s.nodes) (s.position + ncap) (size - ncap))
      (slice-flat s.base_size s.nodes i off s.position ncap w.blocks hn h (sym a.place))
    ∙ append_assoc out _ _
    ∙ ap (λ l. out ++ l) (slice-append (flat s.nodes) s.position ncap (size - ncap))
    ∙ (let e : ncap + (size - ncap) ≡ size = omega arith in
        ap (λ k. out ++ slice (flat s.nodes) s.position k) e)

pub read_loop-Passed :
    (fuel : ℕ) (s : ByteArray) (size i off ncap : ℕ) (out : List ℕ)
    → Shape s
    → At s i off
    → ncap ≡ s.base_size - off
    → s.position + size ≤ s.capacity
    → 0 < size
    → size ≤ fuel
    → (t : ByteArray) × (read_loop fuel s size off ncap out
        ≡ ok (out ++ slice (flat s.nodes) s.position size, t))
      × Passed s size t
read_loop-Passed zero s size i off ncap out w a e hc h0 hf = absurd (omega arith)
read_loop-Passed (suc fuel) s size i off ncap out w a e hc h0 hf =
    let (node, hn, hl) = get_elem?-Blocks s.base_size s.nodes i w.blocks a.exists in
    elim (dec_lt ncap size) [
      | no p ↦ (
        last_round s i off size,
        read_loop_last s i off fuel size ncap out node a.here hn hl h0 (omega arith)
            ∙ ap (λ l. ok (out ++ l, last_round s i off size))
                (slice-flat s.base_size s.nodes i off s.position size w.blocks hn
                  (omega (arith, a.inside)) (sym a.place)),
        last_round-Passed w a size (omega (arith, a.inside)),
      )
      | yes p ↦
          let more : i + 1 < length s.nodes = next_exists w a hc (omega arith) in
          let (after, ha, hm) = get_elem?-Blocks s.base_size s.nodes (i + 1) w.blocks more in
          let (t, run, r) =
            read_loop-Passed fuel (full_round s i off ncap) (size - ncap) (i + 1) 0 s.base_size
              (out ++ slice node off ncap)
              (record { has_base = w.has_base; blocks = w.blocks; room = w.room })
              (next-At w a (full_round-Moved s i off ncap e) more refl) (omega arith) (omega arith)
              (omega arith) (omega (arith, a.inside)) in
          (
            t,
            read_loop_more s i off fuel size ncap out node after a.here hn more ha hm p
                ∙ run
                ∙ ap (λ l. ok (l, t))
                    (joined s i off ncap size out node w a hn (omega (arith, a.inside))
                      (omega arith)),
            record {
              nodes_same = r.nodes_same;
              base_same = r.base_same;
              capacity_same = r.capacity_same;
              size_same = r.size_same;
              endian_same = r.endian_same;
              moved = omega (arith, r.moved);
              cursor = r.cursor;
            },
          )
    ]
