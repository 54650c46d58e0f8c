-- ===== src/ByteArray/Read.antt =====
-- `read(buf, size)`: on every branch, against the bytes that the buffer holds.
use dag.Common.{
  ℕ, ◌+◌, ◌-◌, ◌*◌, ◌%◌, ◌≤◌, ◌<◌, ◌≡◌, refl, sym, ap, ◌∙◌, subst, inl, inr, some, List, [], ◌++◌,
  arith, length, get_elem?, take, drop, ltb, false, ok, out_of_range, fault, length-drop,
  length-append, drop-drop, le→ltb, lt→ltb, take-append, drop-append,
}
use mathlib.Core.Path.{ap₂, subst₂}
use dag.Memory.{flat}
use dag.Memory.Patch.{slice-take}
use dag.Memory.Chain.{Blocks, offset_mod, index_bound, get_elem?-Blocks}
use dag.ByteArray.{ByteArray, sub64, read_size, read_loop, read}
use dag.ByteArray.Cursor.{IsValid-Shape}
use dag.ByteArray.ReadLoop.{Passed, read_loop-Passed, read_loop_nil}
use dag.ByteArray.Valid.{IsValid, bytes, unread, read_size_lem, At-lt, length-bytes}

-- What `read` promises: the next bytes, which are then no longer unread.
pub record Consumed (s : ByteArray) (n : ℕ) (t : ByteArray) : Type 0 where
  pub valid : IsValid t
  pub moved : t.position ≡ s.position + n
  pub bytes_same : bytes t ≡ bytes s
  pub left : unread t ≡ drop n (unread s)
  pub endian_same : t.endian ≡ s.endian
  pub base_same : t.base_size ≡ s.base_size
  pub capacity_same : t.capacity ≡ s.capacity

Passed-Consumed :
    {s t : ByteArray} {n : ℕ} → IsValid s → s.position + n ≤ s.size → Passed s n t → Consumed s n t
Passed-Consumed {s} {t} {n} v h p = record {
  valid = record {
    has_base = omega (arith, p.base_same, v.has_base);
    blocks = subst₂ Blocks (sym p.base_same) (sym p.nodes_same) v.blocks;
    room =
        p.capacity_same
        ∙ v.room
        ∙ ap₂ (λ (l : List (List ℕ)) b. length l * b) (sym p.nodes_same) (sym p.base_same);
    has_root = subst (λ l. 0 < length l) (sym p.nodes_same) v.has_root;
    read_le = omega (arith, p.moved, p.size_same);
    size_le = omega (arith, p.size_same, p.capacity_same, v.size_le);
    fits = omega (arith, p.capacity_same, v.fits);
    cursor = p.cursor;
  };
  moved = p.moved;
  bytes_same = same;
  left = ap₂ drop p.moved same ∙ sym (drop-drop s.position n (bytes s));
  endian_same = p.endian_same;
  base_same = p.base_same;
  capacity_same = p.capacity_same;
}
  where
    same : bytes t ≡ bytes s
    same = ap₂ (λ k l. take k (flat l)) p.size_same p.nodes_same

read_run :
    (s t : ByteArray) (n i off : ℕ) (out node : List ℕ)
    → ltb (read_size s) n ≡ false
    → s.cur ≡ some i
    → get_elem? s.nodes i ≡ some node
    → s.position % s.base_size ≡ off
    → read_loop n s n off (sub64 (length node) off) [] ≡ ok (out, t)
    → read s n ≡ ok (out, t)
unfolding read
read_run s t n i off out node hs hc hn hm run = ground arith

-- On a valid buffer a read of at least one byte, and of no more than are left, returns exactly the
-- next bytes, in order, and passes over them; the buffer stays valid and its bytes as they are.
pub read_lem :
    (s : ByteArray) (n : ℕ)
    → IsValid s
    → 0 < n
    → s.position + n ≤ s.size
    → (t : ByteArray) × (read s n ≡ ok (take n (unread s), t)) × Consumed s n t
read_lem s n v h0 h =
    let (i, off, a) = At-lt v (omega (arith, v.size_le)) in
    let (node, hn, hl) = get_elem?-Blocks s.base_size s.nodes i v.blocks a.exists in
    let at_off : s.position % s.base_size ≡ off =
      ap (λ p. p % s.base_size) (sym a.place) ∙ offset_mod i s.base_size off a.inside in
    let (t, run, p) =
      read_loop-Passed n s n i off (sub64 (length node) off) [] (IsValid-Shape v) a
        (omega (
          arith,
          hl,
          a.inside,
          index_bound i (length s.nodes) s.base_size a.exists,
          v.room,
          v.fits,
        ))
        (omega (arith, v.size_le)) h0 (omega arith) in
    (
      t,
      read_run s t n i off _ node (le→ltb (read_size s) n (omega (arith, read_size_lem v))) a.here
            hn at_off run
          ∙ ap (λ l. ok (l, t)) (sym (slice-take (flat s.nodes) s.size s.position n h)),
      Passed-Consumed v h p,
    )

-- On a valid buffer a read of more than is left throws.
pub read_short :
    (s : ByteArray) (n : ℕ) → IsValid s → s.size < s.position + n → read s n ≡ out_of_range
unfolding read
read_short s n v h = rw (lt→ltb (read_size s) n (omega (arith, read_size_lem v, v.read_le)))

-- A request for no bytes changes nothing while the position is short of the capacity.
pub read_nothing : (s : ByteArray) → IsValid s → s.position < s.capacity → read s 0 ≡ ok ([], s)
read_nothing s v h =
    let (i, off, a) = At-lt v h in
    let (node, hn, hl) = get_elem?-Blocks s.base_size s.nodes i v.blocks a.exists in
    read_run s s 0 i _ [] node (le→ltb (read_size s) 0 (omega arith)) a.here hn refl
      (read_loop_nil 0 s _ _ [])

-- On a valid buffer whose position is at its capacity a read of no bytes dereferences a null
-- pointer.
pub read_nothing_at_end : (s : ByteArray) → IsValid s → s.position ≡ s.capacity → read s 0 ≡ fault
unfolding read
read_nothing_at_end s v e = elim v.cursor [
  | inl (i, off, a) ↦ absurd (
      omega (arith, a.inside, a.place, index_bound i (length s.nodes) s.base_size a.exists, v.room))
  | inr (null, _) ↦ ground arith
]

-- The form that decoders use: what is unread begins with `front`.
pub read_front :
    (s : ByteArray) (front rest : List ℕ) (n : ℕ)
    → IsValid s
    → unread s ≡ front ++ rest
    → n ≡ length front
    → 0 < n
    → (t : ByteArray) × (read s n ≡ ok (front, t))
      × IsValid t
      × (unread t ≡ rest)
      × (t.endian ≡ s.endian)
read_front s front rest n v e el h0 =
    let long : length front + length rest ≡ s.size - s.position = omega (
      arith,
      ap length e,
      length-append front rest,
      length-drop s.position (bytes s),
      length-bytes v,
    ) in
    let (t, run, c) = read_lem s n v h0 (omega (arith, v.read_le)) in
    (
      t,
      run ∙ ap (λ l. ok (l, t)) (ap (take n) e ∙ take-append front rest n el),
      c.valid,
      c.left ∙ ap (drop n) e ∙ drop-append front rest n el,
      c.endian_same,
    )
