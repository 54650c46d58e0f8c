-- ===== src/ByteArray/Write.antt =====
-- `write`: it never fails on a valid buffer, and its effect is one overwrite at the position.
use dag.Common.{
  ℕ, ◌+◌, ◌*◌, ◌%◌, ◌≤◌, ◌<◌, ◌^◌, ◌≡◌, refl, sym, ap, ◌∙◌, subst, inl, inr, some, List, [], ◌∷◌,
  ◌++◌, arith, length, get_elem?, take, drop, take-append-drop, ltb, Bool-cases, ok, max,
}
use mathlib.Core.Path.{ap₂}
use dag.Memory.{flat}
use dag.Memory.Patch.{take-patch, overwrite}
use dag.Memory.Chain.{Blocks, length-flat, offset_mod, index_bound, get_elem?-Blocks}
use dag.ByteArray.{ByteArray, sub64, add_capacity, write_loop, write_grown, write, raise_size}
use dag.ByteArray.Cursor.{Moved, IsValid-Shape}
use dag.ByteArray.Grow.{Roomy, add_capacity-Roomy}
use dag.ByteArray.WriteLoop.{Wrote, write_loop-Wrote}
use dag.ByteArray.Valid.{At, IsValid, bytes}

-- What `write` promises: one overwrite at the position, which moves behind it.
pub record Written (s : ByteArray) (buf : List ℕ) (t : ByteArray) : Type 0 where
  pub valid : IsValid t
  pub moved : t.position ≡ s.position + length buf
  pub size_lem : t.size ≡ max s.size (s.position + length buf)
  pub contents : bytes t ≡ overwrite (bytes s) s.position buf
  pub endian_same : t.endian ≡ s.endian
  pub base_same : t.base_size ≡ s.base_size

abbrev sized : ByteArray → ByteArray
sized t = record t { size = max t.size t.position }

pub raise_size-max : (t : ByteArray) → raise_size t ≡ record t { size = max t.size t.position }
raise_size-max t = elim (Bool-cases (ltb t.size t.position)) [
  | inl e ↦
      rw e
        (let m : t.position ≡ max t.size t.position = ground arith in λ i. record t { size = m i })
  | inr e ↦
      rw e (let m : t.size ≡ max t.size t.position = ground arith in λ i. record t { size = m i })
]

raise_size-Written :
    {s t : ByteArray} {buf : List ℕ}
    → IsValid s
    → s.position + length buf ≤ s.capacity
    → Wrote s buf t
    → Written s buf (sized t)
raise_size-Written {s} {t} {buf} v h r = record {
  valid = record {
    has_base = omega (arith, m.base_same, v.has_base);
    blocks = subst (λ b. Blocks b t.nodes) (sym m.base_same) r.blocks;
    room = m.capacity_same ∙ v.room ∙ ap₂ (λ (k b : ℕ). k * b) (sym m.nodes_same) (sym m.base_same);
    has_root = omega (arith, m.nodes_same, v.has_root);
    read_le = omega arith;
    size_le = omega (arith, m.capacity_same, m.moved, r.size_same, v.size_le);
    fits = omega (arith, m.capacity_same, v.fits);
    cursor = elim r.cursor [
      | inl (i, off, a) ↦
          inl (
            i,
            off,
            record { here = a.here; place = a.place; inside = a.inside; exists = a.exists },
          )
      | inr p ↦ inr p
    ];
  };
  moved = m.moved;
  size_lem = grown;
  contents =
      ap₂ take grown r.copied
      ∙ take-patch (flat s.nodes) s.position buf s.size _ v.read_le
          (omega (arith, long, v.size_le, v.room)) (omega (arith, long, v.room)) refl;
  endian_same = r.endian_same;
  base_same = m.base_same;
}
  where
    m : Moved s (length buf) t
    m = r.move

    grown : max t.size t.position ≡ max s.size (s.position + length buf)
    grown = omega (arith, m.moved, r.size_same)

    long : length (flat s.nodes) ≡ length s.nodes * s.base_size
    long = length-flat s.base_size s.nodes v.blocks

write_grown_run :
    (s t : ByteArray) (buf node : List ℕ) (i off : ℕ)
    → s.cur ≡ some i
    → get_elem? s.nodes i ≡ some node
    → s.position % s.base_size ≡ off
    → write_loop (length buf) s buf off (sub64 (length node) off) ≡ ok t
    → write_grown s buf ≡ ok (raise_size t)
unfolding write_grown
write_grown_run s t buf node i off hc hn hm run = ground arith

write_grown-Written :
    (s : ByteArray) (buf : List ℕ)
    → IsValid s
    → (i : ℕ) × (off : ℕ) × At s i off
    → 0 < length buf
    → s.position + length buf ≤ s.capacity
    → (t : ByteArray) × (write_grown s buf ≡ ok t) × Written s buf t
write_grown-Written s buf v (i, off, a) h0 h =
    let (node, hn, hl) = get_elem?-Blocks s.base_size s.nodes i v.blocks a.exists in
    let at_off : s.position % s.base_size ≡ off =
      ap (λ p. p % s.base_size) (sym a.place) ∙ offset_mod i s.base_size off a.inside in
    let (t, run, r) =
      write_loop-Wrote (length buf) s buf i off (sub64 (length node) off) (IsValid-Shape v) a
        (omega (
          arith,
          hl,
          a.inside,
          v.has_root,
          index_bound i (length s.nodes) s.base_size a.exists,
          v.room,
          v.fits,
        ))
        h h0 (omega arith) in
    (
      sized t,
      write_grown_run s t buf node i off a.here hn at_off run ∙ ap ok (raise_size-max t),
      raise_size-Written v h r,
    )

write_nil : (s : ByteArray) → write s [] ≡ ok s
unfolding write
write_nil s = refl

write_cons :
    (s : ByteArray) (b : ℕ) (bs : List ℕ)
    → write s (b ∷ bs) ≡ write_grown (add_capacity s (length (b ∷ bs))) (b ∷ bs)
unfolding write
write_cons s b bs = ground arith

-- On a valid buffer `write` returns, whatever the position and the length, and leaves a valid
-- buffer whose bytes are the old ones overwritten from the position on; the position moves behind
-- them and the size grows to it. The one condition is that the new capacity fits `size_t`.
pub write_lem :
    (s : ByteArray) (buf : List ℕ)
    → IsValid s
    → s.position + length buf + s.base_size ≤ 2 ^ 64
    → (t : ByteArray) × (write s buf ≡ ok t) × Written s buf t
write_lem s [] v h = (
  s,
  write_nil s,
  record {
    valid = v;
    moved = omega arith;
    size_lem = omega (arith, v.read_le);
    contents =
        sym (take-append-drop s.position (bytes s))
        ∙ (let e : s.position ≡ s.position + 0 = omega arith in
            ap (λ k. take s.position (bytes s) ++ drop k (bytes s)) e);
    endian_same = refl;
    base_same = refl;
  },
)
write_lem s (b ∷ bs) v h =
    let buf : List ℕ = b ∷ bs in
    let g : Roomy s (length buf) (add_capacity s (length buf)) =
      add_capacity-Roomy v (length buf) (omega arith) h in
    let (t, run, r) =
      write_grown-Written (add_capacity s (length buf)) buf g.valid g.on_block (omega arith)
        (omega (arith, g.enough, g.position_same)) in
    (
      t,
      write_cons s b bs ∙ run,
      record {
        valid = r.valid;
        moved = omega (arith, r.moved, g.position_same);
        size_lem = omega (arith, r.size_lem, g.size_same, g.position_same);
        contents = r.contents ∙ ap₂ (λ xs p. overwrite xs p buf) g.bytes_same g.position_same;
        endian_same = r.endian_same ∙ g.endian_same;
        base_same = r.base_same ∙ g.base_same;
      },
    )
