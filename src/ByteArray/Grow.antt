-- ===== src/ByteArray/Grow.antt =====
-- `addCapacity`: the chain gets long enough, and nothing that was written moves.
use dag.Common.{
  ℕ, zero, suc, ◌+◌, ◌-◌, ◌*◌, ◌^◌, ◌≤◌, ◌<◌, ◌≡◌, refl, sym, ap, subst, ◌∙◌, inl, inr, List, [],
  ◌∷◌, ◌++◌, arith, length, take, replicate, length-replicate, length-append, append-nil,
  append_assoc, ◌==◌, if◌then◌else◌,
}
use native.Mathlib.Nat.{div-mul-le_self, lt-div-mul-add}
use dag.Memory.{flat}
use native.Mathlib.Decide.{dec_lt}
use mathlib.Core.Path.{ap₂}
use dag.Memory.Chain.{Blocks, index_bound, length-flat, append-Blocks, flat-append}
use dag.ByteArray.{ByteArray, spare, grow, add_capacity, blocks_for, first_added}
use dag.ByteArray.Valid.{At, IsValid, bytes, spare_lem, At-lt}

-- What the rounds of the loop leave: `count` more blocks behind the old ones.
record Grown (s : ByteArray) (count : ℕ) (t : ByteArray) : Type 0 where
  base_same : t.base_size ≡ s.base_size
  position_same : t.position ≡ s.position
  size_same : t.size ≡ s.size
  endian_same : t.endian ≡ s.endian
  cur_same : t.cur ≡ s.cur
  longer : length t.nodes ≡ length s.nodes + count
  capacity_grown : t.capacity ≡ s.capacity + count * s.base_size
  blocks : Blocks s.base_size t.nodes
  kept : (more : List ℕ) × (flat t.nodes ≡ flat s.nodes ++ more)

grow-Grown : (count : ℕ) (s : ByteArray) → Blocks s.base_size s.nodes → Grown s count (grow count s)
unfolding grow
grow-Grown zero s b = record {
  base_same = refl;
  position_same = refl;
  size_same = refl;
  endian_same = refl;
  cur_same = refl;
  longer = omega arith;
  capacity_grown = omega arith;
  blocks = b;
  kept = ([], sym (append-nil _));
}
grow-Grown (suc count) s b =
    let block : List ℕ = replicate s.base_size s.junk in
    let r =
      grow-Grown count
        (record s { nodes = s.nodes ++ block ∷ []; capacity = s.capacity + s.base_size })
        (append-Blocks s.base_size s.nodes block b (length-replicate s.base_size s.junk)) in
    let (more, e) = r.kept in
    record {
      base_same = r.base_same;
      position_same = r.position_same;
      size_same = r.size_same;
      endian_same = r.endian_same;
      cur_same = r.cur_same;
      longer = omega (arith, r.longer, length-append s.nodes (block ∷ []));
      capacity_grown = omega (arith, r.capacity_grown);
      blocks = r.blocks;
      kept = (
        block ++ more,
        e
            ∙ ap (λ f. f ++ more) (flat-append s.nodes block)
            ∙ append_assoc (flat s.nodes) block more,
      );
    }

blocks_enough : (size base : ℕ) → 0 < base → size ≤ blocks_for size base * base
blocks_enough size base h = omega (arith, lt-div-mul-add {a = size + base - 1} {b = base} h)

blocks_few : (size base : ℕ) → 0 < base → blocks_for size base * base < size + base
blocks_few size base h = omega (arith, div-mul-le_self (size + base - 1) base)

take-append_le {ℓ} :
    {A : Type ℓ} (n : ℕ) (xs ys : List A) → n ≤ length xs → take n (xs ++ ys) ≡ take n xs
take-append_le zero xs ys h = refl
take-append_le (suc n) [] ys h = absurd (omega arith)
take-append_le (suc n) (x ∷ xs) ys h = ap (λ l. x ∷ l) (take-append_le n xs ys (omega arith))

-- Room for `size` bytes at the position, and the same contents.
pub record Roomy (s : ByteArray) (size : ℕ) (t : ByteArray) : Type 0 where
  pub valid : IsValid t
  pub position_same : t.position ≡ s.position
  pub size_same : t.size ≡ s.size
  pub base_same : t.base_size ≡ s.base_size
  pub endian_same : t.endian ≡ s.endian
  pub enough : s.position + size ≤ t.capacity
  pub bytes_same : bytes t ≡ bytes s
  pub on_block : (i : ℕ) × (off : ℕ) × At t i off

-- `t` is the grown chain; the pointer goes to the first new block if it was null.
module _ {s : ByteArray} (v : IsValid s) {c : ℕ} (pos : 0 < c) {t : ByteArray}
    (g : Grown s c t) where
  abbrev pointed : ByteArray
  pointed = record t { cur = if spare s == 0 then first_added s c else s.cur }

  pointed-At : (i : ℕ) × (off : ℕ) × At pointed i off
  pointed-At = elim v.cursor [
    | inl (i, off, a) ↦
        let end : i * s.base_size + s.base_size ≤ s.capacity =
          omega (arith, index_bound i (length s.nodes) s.base_size a.exists, v.room) in
        (
          i,
          off,
          record {
            here = ground (arith, a.here, a.inside, a.place, end, v.fits);
            place = ap (λ b. i * b + off) g.base_same ∙ a.place ∙ sym g.position_same;
            inside = omega (arith, a.inside, g.base_same);
            exists = omega (arith, a.exists, g.longer);
          },
        )
    | inr (null, e) ↦ (
      length s.nodes,
      0,
      record {
        here = ground (arith, v.fits);
        place =
            ap (λ b. length s.nodes * b + 0) g.base_same ∙ omega (arith, v.room, g.position_same);
        inside = omega (arith, v.has_base, g.base_same);
        exists = omega (arith, g.longer);
      },
    )
  ]

  pointed-Roomy :
      (size : ℕ)
      → s.position + size ≤ s.capacity + c * s.base_size
      → s.capacity + c * s.base_size < 2 ^ 64
      → Roomy s size pointed
  pointed-Roomy size enough fits = record {
    valid = record {
      has_base = omega (arith, v.has_base, g.base_same);
      blocks = subst (λ b. Blocks b t.nodes) (sym g.base_same) g.blocks;
      room =
          g.capacity_grown
          ∙ omega (arith, v.room)
          ∙ ap₂ (λ (k b : ℕ). k * b) (sym g.longer) (sym g.base_same);
      has_root = omega (arith, g.longer);
      read_le = omega (arith, g.position_same, g.size_same, v.read_le);
      size_le = omega (arith, g.capacity_grown, g.size_same, v.size_le);
      fits = omega (arith, g.capacity_grown);
      cursor = inl pointed-At;
    };
    position_same = g.position_same;
    size_same = g.size_same;
    base_same = g.base_same;
    endian_same = g.endian_same;
    enough = omega (arith, g.capacity_grown);
    bytes_same =
        let (more, e) = g.kept in
        ap₂ take g.size_same e
        ∙ take-append_le s.size (flat s.nodes) more
            (omega (arith, length-flat s.base_size s.nodes v.blocks, v.size_le, v.room));
    on_block = pointed-At;
  }

module _ {s : ByteArray} (v : IsValid s) (size : ℕ) where
  add_capacity_fits : 0 < size → size ≤ spare s → add_capacity s size ≡ s
  unfolding add_capacity
  add_capacity_fits h0 h = ground arith

  abbrev count : ℕ
  count = blocks_for (size - spare s) s.base_size

  add_capacity_grows :
      spare s < size
      → add_capacity s size
        ≡ record (grow count s) { cur = if spare s == 0 then first_added s count else s.cur }
  unfolding add_capacity
  add_capacity_grows h = ground arith

  -- `addCapacity` gives room for `size` bytes and keeps the buffer valid and its bytes the same.
  pub add_capacity-Roomy :
      0 < size → s.position + size + s.base_size ≤ 2 ^ 64 → Roomy s size (add_capacity s size)
  add_capacity-Roomy h0 fits = elim (dec_lt (spare s) size) [
    | yes p ↦
        let many = blocks_enough (size - spare s) s.base_size v.has_base in
        let few = blocks_few (size - spare s) s.base_size v.has_base in
        let pos : 0 < count = elim (dec_lt 0 count) [
          | yes q ↦ q
          | no q ↦
              let z : count ≡ 0 = omega arith in
              absurd (omega (arith, many, ap (λ (k : ℕ). k * s.base_size) z))
        ] in
        subst (Roomy s size) (sym (add_capacity_grows p)) (
          pointed-Roomy v pos (grow-Grown count s v.blocks) size
            (omega (arith, many, spare_lem v, v.read_le, v.size_le))
            (omega (arith, few, spare_lem v, v.read_le, v.size_le)))
    | no p ↦ subst (Roomy s size) (sym (add_capacity_fits h0 (omega arith))) (record {
      valid = v;
      position_same = refl;
      size_same = refl;
      base_same = refl;
      endian_same = refl;
      enough = omega (arith, spare_lem v, v.read_le, v.size_le);
      bytes_same = refl;
      on_block = At-lt v (omega (arith, spare_lem v, v.read_le, v.size_le));
    })
  ]
