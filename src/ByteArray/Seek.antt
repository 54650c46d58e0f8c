-- ===== src/ByteArray/Seek.antt =====
-- `setPosition`, `clear`, and what a buffer gives back after a rewind.
use dag.Common.{
  ℕ, zero, suc, ◌+◌, ◌-◌, ◌*◌, ◌≤◌, ◌<◌, ◌≡◌, refl, sym, ap, ◌∙◌, inl, inr, some, none, Option,
  List, [], ◌∷◌, arith, length, get_elem?, take, drop, ◌==◌, if◌then◌else◌, max, ok, out_of_range,
  le→ltb, lt→ltb, take-take, take_all, ◌⊎◌,
}
use native.Mathlib.Decide.{dec_lt}
use dag.Memory.{flat}
use dag.Memory.Chain.{Blocks, index_of_lt, index_bound, get_elem?-Blocks}
use dag.ByteArray.{ByteArray, next, seek, set_position, clear, raise_size}
use dag.ByteArray.Write.{raise_size-max}
use dag.ByteArray.Valid.{IsValid, bytes, unread, length-bytes}

-- The pointer that stands `v` bytes behind the start of the chain.
abbrev Stands : (base : ℕ) → List (List ℕ) → ℕ → Option ℕ → Type 0
Stands base nodes v cur =
    ((i : ℕ) × (off : ℕ) × (cur ≡ some i)
      × (i * base + off ≡ v)
      × (off < base)
      × (i < length nodes))
    ⊎ ((cur ≡ none) × (v ≡ length nodes * base))

module _ (base : ℕ) (nodes : List (List ℕ)) (pos : 0 < base) (blocks : Blocks base nodes) where
  seek_on :
      (fuel i v : ℕ) (node : List ℕ)
      → get_elem? nodes i ≡ some node
      → i + 1 < length nodes
      → length node < v
      → seek (suc fuel) nodes (some i) v ≡ seek fuel nodes (some (i + 1)) (v - length node)
  unfolding seek
  seek_on fuel i v node hn hi hv = ground arith

  seek_end :
      (fuel i v : ℕ) (node : List ℕ)
      → get_elem? nodes i ≡ some node
      → v ≤ length node
      → seek (suc fuel) nodes (some i) v ≡ ok (if v == length node then next nodes i else some i)
  unfolding seek
  seek_end fuel i v node hn hv = ground arith

  seek-Stands :
      (fuel i v at : ℕ)
      → i < length nodes
      → at ≡ i * base + v
      → at ≤ length nodes * base
      → length nodes < fuel + i + 1
      → (cur : Option ℕ) × (seek fuel nodes (some i) v ≡ ok cur) × Stands base nodes at cur
  seek-Stands zero i v at hi ha hb hf = absurd (omega arith)
  seek-Stands (suc fuel) i v at hi ha hb hf =
      let (node, hn, hl) = get_elem?-Blocks base nodes i blocks hi in
      elim (dec_lt base v) [
        | yes p ↦
            let more : i + 1 < length nodes =
              index_of_lt (i + 1) (length nodes) base 0 (omega arith) in
            let (cur, run, w) =
              seek-Stands fuel (i + 1) (v - base) at more (omega arith) hb (omega arith) in
            (
              cur,
              seek_on fuel i v node hn more (omega (arith, hl))
                  ∙ ap (λ k. seek fuel nodes (some (i + 1)) (v - k)) hl
                  ∙ run,
              w,
            )
        | no p ↦ (
          if v == length node then next nodes i else some i,
          seek_end fuel i v node hn (omega (arith, hl)),
          elim (dec_lt v base) [
            | yes q ↦ inl (i, v, ground arith, omega arith, q, hi)
            | no q ↦ elim (dec_lt (i + 1) (length nodes)) [
              | yes r ↦ inl (i + 1, 0, ground arith, omega arith, pos, r)
              | no r ↦
                  let last : length nodes ≡ i + 1 = omega arith in
                  inr (ground arith, omega (arith, ap (λ (k : ℕ). k * base) last))
            ]
          ],
        )
      ]

-- What `setPosition` promises.
pub record Sought (s : ByteArray) (v : ℕ) (t : ByteArray) : Type 0 where
  pub valid : IsValid t
  pub position_lem : t.position ≡ v
  pub size_lem : t.size ≡ max s.size v
  pub kept : take s.size (bytes t) ≡ bytes s
  pub endian_same : t.endian ≡ s.endian
  pub base_same : t.base_size ≡ s.base_size
  pub capacity_same : t.capacity ≡ s.capacity

abbrev moved_to : ByteArray → ℕ → Option ℕ → ByteArray
moved_to s v c = record s { position = v; size = max s.size v; cur = c }

moved_to-Sought :
    {s : ByteArray} {v : ℕ} {c : Option ℕ}
    → IsValid s
    → v ≤ s.capacity
    → Stands s.base_size s.nodes v c
    → Sought s v (moved_to s v c)
moved_to-Sought {s} {v} {c} w h st = record {
  valid = record {
    has_base = w.has_base;
    blocks = w.blocks;
    room = w.room;
    has_root = w.has_root;
    read_le = omega arith;
    size_le = omega (arith, w.size_le);
    fits = w.fits;
    cursor = elim st [
      | inl (i, off, e, p, b, x) ↦
          inl (i, off, record { here = e; place = p; inside = b; exists = x })
      | inr (e, p) ↦ inr (e, p ∙ sym w.room)
    ];
  };
  position_lem = refl;
  size_lem = refl;
  kept = take-take s.size (max s.size v) (flat s.nodes) (omega arith);
  endian_same = refl;
  base_same = refl;
  capacity_same = refl;
}

set_position_run :
    (s : ByteArray) (v : ℕ) (c : Option ℕ)
    → v ≤ s.capacity
    → seek (suc (length s.nodes)) s.nodes (some 0) v ≡ ok c
    → set_position s v ≡ ok (record (raise_size (record s { position = v })) { cur = c })
unfolding set_position
set_position_run s v c h run = rw (le→ltb s.capacity v h, run)

-- On a valid buffer `setPosition` reaches every position up to the capacity: the buffer stays
-- valid, the size grows to the position, and the bytes before the old size, the byte order and the
-- capacity stay.
pub set_position_lem :
    (s : ByteArray) (v : ℕ)
    → IsValid s
    → v ≤ s.capacity
    → (t : ByteArray) × (set_position s v ≡ ok t) × Sought s v t
set_position_lem s v w h =
    let (c, run, st) =
      seek-Stands s.base_size s.nodes w.has_base w.blocks (suc (length s.nodes)) 0 v v w.has_root
        (omega arith) (omega (arith, w.room)) (omega arith) in
    (
      moved_to s v c,
      set_position_run s v c h run
          ∙ ap (λ (t : ByteArray). ok (record t { cur = c }))
              (raise_size-max (record s { position = v })),
      moved_to-Sought w h st,
    )

pub set_position_beyond : (s : ByteArray) (v : ℕ) → s.capacity < v → set_position s v ≡ out_of_range
unfolding set_position
set_position_beyond s v h = rw (lt→ltb s.capacity v h)

-- A rewind makes all bytes written unread again.
pub rewind :
    (s : ByteArray)
    → IsValid s
    → (t : ByteArray) × (set_position s 0 ≡ ok t)
      × IsValid t
      × (unread t ≡ bytes s)
      × (t.endian ≡ s.endian)
rewind s w =
    let (t, run, r) = set_position_lem s 0 w (omega arith) in
    let whole : bytes t ≡ bytes s =
      sym (take_all s.size (bytes t) (omega (arith, length-bytes r.valid, r.size_lem))) ∙ r.kept in
    (t, run, r.valid, ap (λ k. drop k (bytes t)) r.position_lem ∙ whole, r.endian_same)

root_block :
    (base : ℕ) (nodes : List (List ℕ))
    → 0 < length nodes
    → Blocks base nodes
    → Blocks base (take 1 nodes) × (length (take 1 nodes) ≡ 1)
root_block base [] h b = elim h [ ]
root_block base (n ∷ ns) h b = ((b.0, tt), refl)

-- `clear` of a valid buffer gives a valid buffer of one block of the base size without bytes, in
-- the same byte order.
pub clear-IsValid :
    (s : ByteArray)
    → IsValid s
    → IsValid (clear s)
      × (bytes (clear s) ≡ [])
      × ((clear s).capacity ≡ s.base_size)
      × ((clear s).endian ≡ s.endian)
unfolding clear
clear-IsValid s w =
    let (b, l) = root_block s.base_size s.nodes w.has_root w.blocks in
    (
      record {
        has_base = w.has_base;
        blocks = b;
        room = omega (arith, ap (λ (k : ℕ). k * s.base_size) l);
        has_root = omega (arith, l);
        read_le = omega arith;
        size_le = omega arith;
        fits = omega (arith, w.fits, w.room, index_bound 0 (length s.nodes) s.base_size w.has_root);
        cursor = inl (
          0,
          0,
          record {
            here = refl;
            place = omega arith;
            inside = w.has_base;
            exists = omega (arith, l);
          },
        );
      },
      refl,
      refl,
      refl,
    )
