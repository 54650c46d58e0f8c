-- ===== src/ByteArray/Scatter.antt =====
-- Filling the list of `getWriteBuffers` changes the memory as `write` does.
use dag.Common.{
  ℕ, zero, suc, ◌+◌, ◌-◌, ◌%◌, ◌≤◌, ◌<◌, ◌≡◌, refl, ap, sym, ◌∙◌, false, Option, some, none, List,
  [], ◌∷◌, ltb, leb, ◌==◌, if◌then◌else◌, Outcome, ok, ◌>>=◌, bind-ok, bind-deref, length, take,
  drop, get_elem?, take_all, length-drop, Bool-cases, Option-cases, if_both, ne→==, ◌^◌, inl, inr,
  arith,
}
use dag.Memory.{poke}
use dag.Memory.Patch.{length-patch}
use dag.ByteArray.{ByteArray, sub64, next, add_capacity, raise_size, write_loop, write_grown, write}
use dag.ByteArray.WriteLoop.{write_loop_nil}
use dag.ByteArray.Valid.{IsValid}
use dag.ByteArray.Write.{write_lem}
use dag.ByteArray.Buffers.{Iovec, buffers_loop, buffers_here, get_write_buffers, scatter}
use dag.ByteArray.Gather.{buffers_last, buffers_more, buffers_done, buffers_here-run}

abbrev size_of : Option (List ℕ) → Option ℕ
size_of o = elim o [ none ↦ none | some node ↦ some (length node) ]

abbrev size_at : List (List ℕ) → ℕ → Option ℕ
size_at nodes j = size_of (get_elem? nodes j)

-- The same number of blocks, of the same sizes.
abbrev Alike : List (List ℕ) → List (List ℕ) → Type 0
Alike xs ys = (length xs ≡ length ys) × ((j : ℕ) → size_at xs j ≡ size_at ys j)

size_at-poke :
    (nodes : List (List ℕ)) (i off : ℕ) (bs : List ℕ) (j : ℕ)
    → size_at (poke nodes i off bs) j ≡ size_at nodes j
unfolding poke
size_at-poke [] i off bs j = refl
size_at-poke (n ∷ ns) zero off bs zero = ap some (length-patch n off bs)
size_at-poke (n ∷ ns) zero off bs (suc j) = refl
size_at-poke (n ∷ ns) (suc i) off bs zero = refl
size_at-poke (n ∷ ns) (suc i) off bs (suc j) = size_at-poke ns i off bs j

length-poke :
    (nodes : List (List ℕ)) (i off : ℕ) (bs : List ℕ) → length (poke nodes i off bs) ≡ length nodes
unfolding poke
length-poke [] i off bs = refl
length-poke (n ∷ ns) zero off bs = refl
length-poke (n ∷ ns) (suc i) off bs = ap suc (length-poke ns i off bs)

poke-Alike : (nodes : List (List ℕ)) (i off : ℕ) (bs : List ℕ) → Alike (poke nodes i off bs) nodes
poke-Alike nodes i off bs = (length-poke nodes i off bs, size_at-poke nodes i off bs)

same_block :
    (xs ys : List (List ℕ)) (j : ℕ) (node : List ℕ)
    → Alike xs ys
    → get_elem? xs j ≡ some node
    → (other : List ℕ) × (get_elem? ys j ≡ some other) × (length node ≡ length other)
same_block xs ys j node (_, sizes) e = elim (Option-cases (get_elem? ys j)) [
  | inl n ↦ absurd (cc (sym (ap size_of e) ∙ sizes j ∙ ap size_of n))
  | inr (other, o) ↦
      let equal : some (length node) ≡ some (length other) =
        sym (ap size_of e) ∙ sizes j ∙ ap size_of o in
      (other, o, cc equal)
]

buffers-Alike :
    (fuel : ℕ) (xs ys : List (List ℕ)) (cur : Option ℕ) (len npos ncap : ℕ) (iovs : List Iovec)
    → Alike xs ys
    → buffers_loop fuel xs cur len npos ncap ≡ ok iovs
    → buffers_loop fuel ys cur len npos ncap ≡ ok iovs
unfolding buffers_loop
buffers-Alike zero xs ys cur len npos ncap iovs alike h = h
buffers-Alike (suc fuel) xs ys cur len npos ncap iovs alike h = elim (Bool-cases (len == 0)) [
  | inl z ↦
      buffers_done fuel ys cur len npos ncap z (suc fuel)
      ∙ sym (buffers_done fuel xs cur len npos ncap z (suc fuel))
      ∙ h
  | inr z ↦ elim (Bool-cases (leb len ncap)) [
    | inl l ↦
        let (i, c, _) = bind-deref cur _ _ (rw (z, l, buffers_loop) at h) in
        buffers_last fuel ys cur len npos ncap i z l c
        ∙ sym (buffers_last fuel xs cur len npos ncap i z l c)
        ∙ h
    | inr l ↦
        let (i, c, h1) = bind-deref cur _ _ (rw (z, l, buffers_loop) at h) in
        let (j, n, h2) = bind-deref (next xs i) _ _ h1 in
        let (node, g, h3) = bind-deref (get_elem? xs j) _ _ h2 in
        let (rest, r, h4) =
          bind-ok (buffers_loop fuel xs (some j) (len - ncap) 0 (length node)) _ _ h3 in
        let (other, o, sized) = same_block xs ys j node alike g in
        let next_ys : next ys i ≡ some j =
          ap (λ k. if ltb (i + 1) k then some (i + 1) else none) (sym alike.0) ∙ n in
        let rest_ys : buffers_loop fuel ys (some j) (len - ncap) 0 (length other) ≡ ok rest =
          ap (λ k. buffers_loop fuel ys (some j) (len - ncap) 0 k) (sym sized)
          ∙ buffers-Alike fuel xs ys (some j) (len - ncap) 0 (length node) rest alike r in
        buffers_more fuel ys cur len npos ncap i j other rest z l c next_ys o rest_ys ∙ h4
  ]
]

abbrev nodes_of : Outcome ByteArray → List (List ℕ)
nodes_of o = elim o [ ok t ↦ t.nodes | _ ↦ [] ]

scatter-loop :
    (fuel : ℕ) (s t : ByteArray) (buf : List ℕ) (npos ncap : ℕ)
    → write_loop fuel s buf npos ncap ≡ ok t
    → (iovs : List Iovec) × (buffers_loop fuel s.nodes s.cur (length buf) npos ncap ≡ ok iovs)
      × (scatter s.nodes iovs buf ≡ t.nodes)
unfolding write_loop
scatter-loop zero s t buf npos ncap h = elim (Bool-cases (length buf == 0)) [
  | inl z ↦
      ([], buffers_done zero s.nodes s.cur (length buf) npos ncap z zero, ap nodes_of (rw z at h))
  | inr z ↦ absurd (cc (rw z at h))
]
scatter-loop (suc fuel) s t buf npos ncap h = elim (Bool-cases (length buf == 0)) [
  | inl z ↦ (
    [],
    buffers_done fuel s.nodes s.cur (length buf) npos ncap z (suc fuel),
    ap nodes_of (rw (z, write_loop) at h),
  )
  | inr z ↦ elim (Bool-cases (leb (length buf) ncap)) [
    | inl l ↦
        let (i, c, h1) = bind-deref s.cur _ _ (rw (z, l, write_loop) at h) in
        let (node, g, h2) = bind-deref (get_elem? s.nodes i) _ _ h1 in
        (
          record { block = i; offset = npos; len = length buf } ∷ [],
          buffers_last fuel s.nodes s.cur (length buf) npos ncap i z l c,
          ap (poke s.nodes i npos) (take_all (length buf) buf (omega arith))
              ∙ ap nodes_of (sym (write_loop_nil fuel _ npos ncap) ∙ h2),
        )
    | inr l ↦
        let (i, c, h1) = bind-deref s.cur _ _ (rw (z, l, write_loop) at h) in
        let (j, n, h2) = bind-deref (next s.nodes i) _ _ h1 in
        let (node, g, h3) = bind-deref (get_elem? s.nodes j) _ _ h2 in
        let front = take ncap buf in
        let moved : ByteArray = record s {
          nodes = poke s.nodes i npos front;
          cur = some j;
          position = s.position + ncap;
        } in
        let (iovs, run, filled) = scatter-loop fuel moved t (drop ncap buf) 0 (length node) h3 in
        let rest =
          ap (λ k. buffers_loop fuel s.nodes (some j) k 0 (length node))
            (sym (length-drop ncap buf))
          ∙ buffers-Alike fuel moved.nodes s.nodes (some j) (length (drop ncap buf)) 0 (length node)
              iovs (poke-Alike s.nodes i npos front) run in
        (
          record { block = i; offset = npos; len = ncap } ∷ iovs,
          buffers_more fuel s.nodes s.cur (length buf) npos ncap i j node iovs z l c n g rest,
          filled,
        )
  ]
]

write-inverted :
    (s t : ByteArray) (buf : List ℕ)
    → (length buf == 0) ≡ false
    → write s buf ≡ ok t
    → (let grown = add_capacity s (length buf) in
        let npos = grown.position % grown.base_size in
        (i : ℕ) × (node : List ℕ) × (u : ByteArray) × (grown.cur ≡ some i)
        × (get_elem? grown.nodes i ≡ some node)
        × (write_loop (length buf) grown buf npos (sub64 (length node) npos) ≡ ok u)
        × (u.nodes ≡ t.nodes))
unfolding write write_grown
write-inverted s t buf z h =
    let grown = add_capacity s (length buf) in
    let (i, c, h1) = bind-deref grown.cur _ _ (rw (z, write) at h) in
    let (node, g, h2) = bind-deref (get_elem? grown.nodes i) _ _ h1 in
    let npos = grown.position % grown.base_size in
    let (u, loop, h3) =
      bind-ok (write_loop (length buf) grown buf npos (sub64 (length node) npos)) _ _ h2 in
    let kept : u.nodes ≡ (raise_size u).nodes =
      if_both (λ (v : ByteArray). u.nodes ≡ v.nodes) (ltb u.size u.position) refl refl in
    (i, node, u, c, g, loop, kept ∙ ap nodes_of h3)

get_write_buffers-run :
    (s : ByteArray) (len : ℕ) (iovs : List Iovec)
    → (len == 0) ≡ false
    → buffers_here (add_capacity s len) len ≡ ok iovs
    → get_write_buffers s len ≡ ok (len, iovs, add_capacity s len)
unfolding get_write_buffers
get_write_buffers-run s len iovs z named =
    let keep : Outcome (List Iovec) → Outcome (ℕ × List Iovec × ByteArray) =
      λ o. o >>= λ l. ok (len, l, add_capacity s len) in
    ap (λ b. if b then ok (0, [], s) else keep (buffers_here (add_capacity s len) len)) z
    ∙ ap keep named

-- On a valid buffer, for at least one byte, where the new capacity fits `size_t`, filling the list of
-- `getWriteBuffers` with some bytes leaves the blocks as `write` of these bytes leaves them.
pub scatter-get_write_buffers :
    (s : ByteArray) (buf : List ℕ)
    → IsValid s
    → 0 < length buf
    → s.position + length buf + s.base_size ≤ 2 ^ 64
    → (t : ByteArray) × (iovs : List Iovec) × (grown : ByteArray) × (write s buf ≡ ok t)
      × (get_write_buffers s (length buf) ≡ ok (length buf, iovs, grown))
      × (scatter grown.nodes iovs buf ≡ t.nodes)
scatter-get_write_buffers s buf v some_bytes fits =
    let (t, run, _) = write_lem s buf v fits in
    let z = ne→== (length buf) 0 (λ e. omega (arith, e, some_bytes)) in
    let (i, node, u, c, g, loop, same) = write-inverted s t buf z run in
    let grown = add_capacity s (length buf) in
    let npos = grown.position % grown.base_size in
    let (iovs, named, filled) =
      scatter-loop (length buf) grown u buf npos (sub64 (length node) npos) loop in
    (
      t,
      iovs,
      grown,
      run,
      get_write_buffers-run s (length buf) iovs z
          (buffers_here-run grown (length buf) i node iovs c g named),
      filled ∙ same,
    )
