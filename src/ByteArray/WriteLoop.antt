-- ===== src/ByteArray/WriteLoop.antt =====
-- The loop of `write`: it touches no null block, and copies the buffer as one run of bytes.
use dag.Common.{
  ℕ, zero, suc, ◌+◌, ◌-◌, ◌*◌, ◌≤◌, ◌<◌, ◌≡◌, refl, sym, ap, ◌∙◌, some, List, [], arith, length,
  get_elem?, take, drop, length-take, length-drop, take-append-drop, ◌==◌, if◌then◌else◌, ok,
}
use native.Mathlib.Decide.{dec_lt}
use dag.Memory.{flat, patch, poke}
use dag.Memory.Patch.{patch-patch}
use dag.Memory.Chain.{Blocks, length-poke, poke-Blocks, flat-poke, get_elem?-Blocks}
use dag.ByteArray.{ByteArray, next, write_loop}
use dag.ByteArray.Cursor.{Shape, Moved, last-Cursor, next_exists, next-At}
use dag.ByteArray.Valid.{At, Cursor}

pub write_loop_nil :
    (fuel : ℕ) (s : ByteArray) (npos ncap : ℕ) → write_loop fuel s [] npos ncap ≡ ok s
unfolding write_loop
write_loop_nil zero s npos ncap = refl
write_loop_nil (suc fuel) s npos ncap = refl

module _ (s : ByteArray) (buf : List ℕ) (i npos : ℕ) where
  -- The state after the last round of the loop, and after any other.
  abbrev last_round : ByteArray
  last_round = record s {
    nodes = poke s.nodes i npos buf;
    cur = if s.base_size == npos + length buf then next s.nodes i else some i;
    position = s.position + length buf;
  }

  abbrev full_round : ℕ → ByteArray
  full_round ncap = record s {
    nodes = poke s.nodes i npos (take ncap buf);
    cur = some (i + 1);
    position = s.position + ncap;
  }

  write_loop_last :
      (fuel ncap : ℕ) (node : List ℕ)
      → s.cur ≡ some i
      → get_elem? s.nodes i ≡ some node
      → length node ≡ s.base_size
      → 0 < length buf
      → length buf ≤ ncap
      → write_loop (suc fuel) s buf npos ncap ≡ ok last_round
  unfolding write_loop
  write_loop_last fuel ncap node hc hn hl h0 hle =
      ground (arith, write_loop_nil fuel last_round npos ncap)

  write_loop_more :
      (fuel ncap : ℕ) (node : List ℕ)
      → s.cur ≡ some i
      → i + 1 < length s.nodes
      → get_elem? s.nodes (i + 1) ≡ some node
      → length node ≡ s.base_size
      → ncap < length buf
      → write_loop (suc fuel) s buf npos ncap
        ≡ write_loop fuel (full_round ncap) (drop ncap buf) 0 s.base_size
  unfolding write_loop
  write_loop_more fuel ncap node hc hi hn hl hlt = ground arith

-- What the loop leaves.
pub record Wrote (s : ByteArray) (buf : List ℕ) (t : ByteArray) : Type 0 where
  pub size_same : t.size ≡ s.size
  pub endian_same : t.endian ≡ s.endian
  pub junk_same : t.junk ≡ s.junk
  pub move : Moved s (length buf) t
  pub blocks : Blocks s.base_size t.nodes
  pub copied : flat t.nodes ≡ patch (flat s.nodes) s.position buf
  pub cursor : Cursor t

module _ {s : ByteArray} {i off : ℕ} (w : Shape s) (a : At s i off) (buf : List ℕ) where
  last_round-Wrote : off + length buf ≤ s.base_size → Wrote s buf (last_round s buf i off)
  last_round-Wrote h = record {
    size_same = refl;
    endian_same = refl;
    junk_same = refl;
    move = move;
    blocks = poke-Blocks s.base_size s.nodes i off buf w.blocks;
    copied = flat-poke s.base_size s.nodes i off s.position buf w.blocks a.exists h (sym a.place);
    cursor = last-Cursor w a move h refl;
  }
    where
      move : Moved s (length buf) (last_round s buf i off)
      move = record {
        base_same = refl;
        capacity_same = refl;
        nodes_same = length-poke s.nodes i off buf;
        moved = refl;
      }

  module _ (n : ℕ) (en : n ≡ s.base_size - off) where
    full_round-Moved : Moved s (s.base_size - off) (full_round s buf i off n)
    full_round-Moved = record {
      base_same = refl;
      capacity_same = refl;
      nodes_same = length-poke s.nodes i off (take n buf);
      moved = ap (λ k. s.position + k) en;
    }

    full_round-Shape : Shape (full_round s buf i off n)
    full_round-Shape = record {
      has_base = w.has_base;
      blocks = poke-Blocks s.base_size s.nodes i off (take n buf) w.blocks;
      room = w.room ∙ ap (λ k. k * s.base_size) (sym (length-poke s.nodes i off (take n buf)));
    }

    -- A full round and what the later rounds do make up one copy.
    full_round-Wrote :
        {t : ByteArray}
        → n < length buf
        → Wrote (full_round s buf i off n) (drop n buf) t
        → Wrote s buf t
    full_round-Wrote h r = record {
      size_same = r.size_same;
      endian_same = r.endian_same;
      junk_same = r.junk_same;
      move = record {
        base_same = r.move.base_same;
        capacity_same = r.move.capacity_same;
        nodes_same = r.move.nodes_same ∙ length-poke s.nodes i off (take n buf);
        moved = omega (arith, r.move.moved, length-drop n buf);
      };
      blocks = r.blocks;
      copied =
          r.copied
          ∙ ap (λ f. patch f (s.position + n) (drop n buf))
              (flat-poke s.base_size s.nodes i off s.position (take n buf) w.blocks a.exists
                (omega (arith, length-take n buf, a.inside)) (sym a.place))
          ∙ patch-patch (flat s.nodes) s.position (take n buf) (drop n buf) (s.position + n)
              (omega (arith, length-take n buf))
          ∙ ap (patch (flat s.nodes) s.position) (take-append-drop n buf);
      cursor = r.cursor;
    }

-- The loop copies all of `buf`, whatever the number of blocks it crosses.
pub write_loop-Wrote :
    (fuel : ℕ) (s : ByteArray) (buf : List ℕ) (i off ncap : ℕ)
    → Shape s
    → At s i off
    → ncap ≡ s.base_size - off
    → s.position + length buf ≤ s.capacity
    → 0 < length buf
    → length buf ≤ fuel
    → (t : ByteArray) × (write_loop fuel s buf off ncap ≡ ok t) × Wrote s buf t
write_loop-Wrote zero s buf i off ncap w a e hc h0 hf = absurd (omega arith)
write_loop-Wrote (suc fuel) s buf i off ncap w a e hc h0 hf = elim (dec_lt ncap (length buf)) [
  | no p ↦
      let (node, hn, hl) = get_elem?-Blocks s.base_size s.nodes i w.blocks a.exists in
      (
        last_round s buf i off,
        write_loop_last s buf i off fuel ncap node a.here hn hl h0 (omega arith),
        last_round-Wrote w a buf (omega (arith, a.inside)),
      )
  | yes p ↦
      let more : i + 1 < length s.nodes = next_exists w a hc (omega arith) in
      let (node, hn, hl) = get_elem?-Blocks s.base_size s.nodes (i + 1) w.blocks more in
      let (t, run, r) =
        write_loop-Wrote fuel (full_round s buf i off ncap) (drop ncap buf) (i + 1) 0 s.base_size
          (full_round-Shape w a buf ncap e)
          (next-At w a (full_round-Moved w a buf ncap e) more refl) (omega arith)
          (omega (arith, length-drop ncap buf)) (omega (arith, length-drop ncap buf))
          (omega (arith, length-drop ncap buf, a.inside)) in
      (
        t,
        write_loop_more s buf i off fuel ncap node a.here more hn hl p ∙ run,
        full_round-Wrote w a buf ncap e p r,
      )
]
