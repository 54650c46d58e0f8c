-- ===== src/ByteArray/Gather.antt =====
-- The list of `getReadBuffers` names the bytes that `read` returns.
use dag.Common.{
  ℕ, zero, suc, ◌+◌, ◌-◌, ◌%◌, ◌≤◌, ◌<◌, ◌^◌, ◌≡◌, refl, ap, sym, ◌∙◌, true, false, Option, some,
  List, [], ◌∷◌, ◌++◌, append-nil, append_assoc, ltb, leb, ◌==◌, if◌then◌else◌, Outcome, ok, ◌>>=◌,
  deref, bind-deref, length, take, get_elem?, Bool-cases, inl, inr, arith, le→ltb, lt→ltb, le→leb,
  leb→le, ne→==, take_all, length-take, length-drop,
}
use native.Mathlib.Decide.{dec_le}
use native.Mathlib.Nat.{mod-lt}
use dag.Memory.{slice}
use dag.Memory.Chain.{get_elem?-Blocks, index_bound}
use dag.ByteArray.{ByteArray, sub64, read_size, next, read_loop, read}
use dag.ByteArray.ReadLoop.{read_loop_nil}
use dag.ByteArray.Valid.{IsValid, bytes, unread, read_size_lem, length-bytes}
use dag.ByteArray.Read.{read_lem}
use dag.ByteArray.Buffers.{Iovec, buffers_loop, buffers_here, get_read_buffers, gather}

buffers_loop_nil :
    (fuel : ℕ) (nodes : List (List ℕ)) (cur : Option ℕ) (npos ncap : ℕ)
    → buffers_loop fuel nodes cur 0 npos ncap ≡ ok []
unfolding buffers_loop
buffers_loop_nil zero nodes cur npos ncap = refl
buffers_loop_nil (suc fuel) nodes cur npos ncap = refl

module _ (fuel : ℕ) (nodes : List (List ℕ)) (cur : Option ℕ) (len npos ncap : ℕ) where
  pub buffers_last :
      (i : ℕ)
      → (len == 0) ≡ false
      → leb len ncap ≡ true
      → cur ≡ some i
      → buffers_loop (suc fuel) nodes cur len npos ncap
        ≡ ok (record { block = i; offset = npos; len = len } ∷ [])
  unfolding buffers_loop
  buffers_last i z l c =
      rw (z, l, c, buffers_loop) (rw (buffers_loop_nil fuel nodes (some i) npos ncap) refl)

  pub buffers_more :
      (i j : ℕ) (node : List ℕ) (rest : List Iovec)
      → (len == 0) ≡ false
      → leb len ncap ≡ false
      → cur ≡ some i
      → next nodes i ≡ some j
      → get_elem? nodes j ≡ some node
      → buffers_loop fuel nodes (some j) (len - ncap) 0 (length node) ≡ ok rest
      → buffers_loop (suc fuel) nodes cur len npos ncap
        ≡ ok (record { block = i; offset = npos; len = ncap } ∷ rest)
  unfolding buffers_loop
  buffers_more i j node rest z l c n g r = rw (z, l, c, buffers_loop) (rw (n, g, r) refl)

  pub buffers_done : (len == 0) ≡ true → (f : ℕ) → buffers_loop f nodes cur len npos ncap ≡ ok []
  unfolding buffers_loop
  buffers_done z zero = rw z refl
  buffers_done z (suc f) = rw (z, buffers_loop) refl

abbrev bytes_of : Outcome (List ℕ × ByteArray) → List ℕ
bytes_of o = elim o [ ok r ↦ r.0 | _ ↦ [] ]

gather-here :
    (nodes : List (List ℕ)) (v : Iovec) (vs : List Iovec) (node rest : List ℕ)
    → get_elem? nodes v.block ≡ some node
    → v.offset + v.len ≤ length node
    → gather nodes vs ≡ ok rest
    → gather nodes (v ∷ vs) ≡ ok (slice node v.offset v.len ++ rest)
gather-here nodes v vs node rest e h g = rw (e, le→leb (v.offset + v.len) (length node) h, g) refl

-- From `npos` on, the block of the pointer has `ncap` bytes.
abbrev Roomy : ByteArray → ℕ → ℕ → Type 0
Roomy s npos ncap =
    (i : ℕ) (node : List ℕ)
    → s.cur ≡ some i
    → get_elem? s.nodes i ≡ some node
    → npos + ncap ≤ length node

Roomy-next :
    (s : ByteArray) (j position : ℕ) (after : List ℕ)
    → get_elem? s.nodes j ≡ some after
    → Roomy (record s { cur = some j; position = position }) 0 (length after)
Roomy-next s j position after g i node c h =
    let there : j ≡ i = cc c in
    let same : after ≡ node = cc (g, ap (get_elem? s.nodes) there, h) in
    omega (arith, ap length same)

gather-loop :
    (fuel : ℕ) (s t : ByteArray) (size npos ncap : ℕ) (out all : List ℕ)
    → Roomy s npos ncap
    → read_loop fuel s size npos ncap out ≡ ok (all, t)
    → (iovs : List Iovec) × (named : List ℕ) × (buffers_loop fuel s.nodes s.cur size npos ncap
        ≡ ok iovs)
      × (gather s.nodes iovs ≡ ok named)
      × (all ≡ out ++ named)
unfolding read_loop
gather-loop zero s t size npos ncap out all room h = elim (Bool-cases (size == 0)) [
  | inl z ↦
      let same = ap bytes_of (sym (rw z at h)) in
      (
        [],
        [],
        buffers_done zero s.nodes s.cur size npos ncap z zero,
        refl,
        same ∙ sym (append-nil out),
      )
  | inr z ↦ absurd (cc (rw z at h))
]
gather-loop (suc fuel) s t size npos ncap out all room h = elim (Bool-cases (size == 0)) [
  | inl z ↦
      let same = ap bytes_of (sym (rw (z, read_loop) at h)) in
      (
        [],
        [],
        buffers_done fuel s.nodes s.cur size npos ncap z (suc fuel),
        refl,
        same ∙ sym (append-nil out),
      )
  | inr z ↦ elim (Bool-cases (leb size ncap)) [
    | inl l ↦
        let (i, c, h1) = bind-deref s.cur _ _ (rw (z, l, read_loop) at h) in
        let (node, g, h2) = bind-deref (get_elem? s.nodes i) _ _ h1 in
        let same =
          ap bytes_of (sym h2 ∙ read_loop_nil fuel _ npos ncap (out ++ slice node npos size)) in
        let v : Iovec = record { block = i; offset = npos; len = size } in
        (
          v ∷ [],
          slice node npos size ++ [],
          buffers_last fuel s.nodes s.cur size npos ncap i z l c,
          gather-here s.nodes v [] node [] g (omega (arith, room i node c g, leb→le size ncap l))
              refl,
          same ∙ ap (λ l. out ++ l) (sym (append-nil (slice node npos size))),
        )
    | inr l ↦
        let (i, c, h1) = bind-deref s.cur _ _ (rw (z, l, read_loop) at h) in
        let (node, g, h2) = bind-deref (get_elem? s.nodes i) _ _ h1 in
        let (j, n, h3) = bind-deref (next s.nodes i) _ _ h2 in
        let (after, ga, h4) = bind-deref (get_elem? s.nodes j) _ _ h3 in
        let v : Iovec = record { block = i; offset = npos; len = ncap } in
        let (iovs, named, run, taken, same) =
          gather-loop fuel (record s { cur = some j; position = s.position + ncap }) t (size - ncap)
            0 (length after) (out ++ slice node npos ncap) all
            (Roomy-next s j (s.position + ncap) after ga) h4 in
        (
          v ∷ iovs,
          slice node npos ncap ++ named,
          buffers_more fuel s.nodes s.cur size npos ncap i j after iovs z l c n ga run,
          gather-here s.nodes v iovs node named g (room i node c g) taken,
          same ∙ append_assoc out (slice node npos ncap) named,
        )
  ]
]

-- What `read` goes through before its loop.
read-inverted :
    (s t : ByteArray) (n : ℕ) (all : List ℕ)
    → ltb (read_size s) n ≡ false
    → read s n ≡ ok (all, t)
    → (i : ℕ) × (node : List ℕ) × (s.cur ≡ some i)
      × (get_elem? s.nodes i ≡ some node)
      × (read_loop n s n
            (s.position % s.base_size)
            (sub64 (length node) (s.position % s.base_size))
            []
          ≡ ok (all, t))
unfolding read
read-inverted s t n all b h =
    let (i, c, h1) = bind-deref s.cur _ _ (rw (b, read) at h) in
    let (node, g, h2) = bind-deref (get_elem? s.nodes i) _ _ h1 in (i, node, c, g, h2)

pub buffers_here-run :
    (s : ByteArray) (n i : ℕ) (node : List ℕ) (iovs : List Iovec)
    → s.cur ≡ some i
    → get_elem? s.nodes i ≡ some node
    → (let npos = s.position % s.base_size in
        buffers_loop n s.nodes s.cur n npos (sub64 (length node) npos) ≡ ok iovs)
    → buffers_here s n ≡ ok iovs
buffers_here-run s n i node iovs c g named =
    let npos = s.position % s.base_size in
    let loop : List ℕ → Outcome (List Iovec) =
      λ m. buffers_loop n s.nodes s.cur n npos (sub64 (length m) npos) in
    ap (λ o. deref o >>= λ j. deref (get_elem? s.nodes j) >>= loop) c
    ∙ ap (λ o. deref o >>= loop) g
    ∙ named

sub64_room : (a b : ℕ) → a < 2 ^ 64 → b ≤ a → b + sub64 a b ≡ a
sub64_room a b h k = omega (arith, h, k)

Roomy-here :
    (s : ByteArray)
    → IsValid s
    → (i : ℕ) (node : List ℕ) → s.cur ≡ some i
    → get_elem? s.nodes i ≡ some node
    → (let npos = s.position % s.base_size in Roomy s npos (sub64 (length node) npos))
Roomy-here s v i node c g j other d h =
    let there : i ≡ j = cc (c, d) in
    let same : node ≡ other = cc (g, ap (get_elem? s.nodes) there, h) in
    elim v.cursor [
      | inr e ↦ absurd (cc (c, e.0))
      | inl (p, off, a) ↦
          let (m, hm, hl) = get_elem?-Blocks s.base_size s.nodes p v.blocks a.exists in
          let place : p ≡ i = cc (c, a.here) in
          let whole : m ≡ node = cc (g, ap (get_elem? s.nodes) place, hm) in
          let npos = s.position % s.base_size in
          let inside : npos < s.base_size = mod-lt s.position v.has_base in
          let long : length node ≡ s.base_size = omega (arith, ap length whole, hl) in
          let room : npos + sub64 (length node) npos ≡ length node =
            sub64_room (length node) npos
              (omega
                (arith, long, index_bound p (length s.nodes) s.base_size a.exists, v.room, v.fits))
              (omega (arith, inside, long)) in
          omega (arith, room, ap length same)
    ]

buffers-read :
    (s : ByteArray) (n : ℕ)
    → IsValid s
    → 0 < n
    → s.position + n ≤ s.size
    → (iovs : List Iovec) × (buffers_here s n ≡ ok iovs)
      × (gather s.nodes iovs ≡ ok (take n (unread s)))
buffers-read s n v h0 h =
    let (t, run, consumed) = read_lem s n v h0 h in
    let enough = le→ltb (read_size s) n (omega (arith, read_size_lem v, v.read_le)) in
    let (i, node, c, g, loop) = read-inverted s t n (take n (unread s)) enough run in
    let npos = s.position % s.base_size in
    let (iovs, piece, named, taken, same) =
      gather-loop n s t n npos (sub64 (length node) npos) [] (take n (unread s))
        (Roomy-here s v i node c g) loop in
    (iovs, buffers_here-run s n i node iovs c g named, taken ∙ ap ok (sym same))

get_read_buffers-run :
    (s : ByteArray) (len size : ℕ) (iovs : List Iovec)
    → (if ltb (read_size s) len then read_size s else len) ≡ size
    → (size == 0) ≡ false
    → buffers_here s size ≡ ok iovs
    → get_read_buffers s len ≡ ok (size, iovs)
unfolding get_read_buffers
get_read_buffers-run s len size iovs size_is some_bytes named =
    let keep : ℕ → Outcome (ℕ × List Iovec) =
      λ n. if n == 0 then ok (0, []) else (buffers_here s n >>= λ l. ok (n, l)) in
    ap keep size_is
    ∙ ap (λ b. if b then ok (0, []) else (buffers_here s size >>= λ l. ok (size, l))) some_bytes
    ∙ ap (λ o. o >>= λ l. ok (size, l)) named

-- On a valid buffer, whatever length is asked for, the list of `getReadBuffers` stays within the blocks, and names
-- in order just the bytes that are next to be read, as many of them as were asked for or are left;
-- its result is their number.
pub gather-get_read_buffers :
    (s : ByteArray) (len : ℕ)
    → IsValid s
    → (n : ℕ) × (iovs : List Iovec) × (get_read_buffers s len ≡ ok (n, iovs))
      × (gather s.nodes iovs ≡ ok (take len (unread s)))
      × (n ≡ length (take len (unread s)))
unfolding get_read_buffers
gather-get_read_buffers s len v =
    let left = s.size - s.position in
    elim (dec_le len left) [
      | yes h ↦
          let size_is : (if ltb (read_size s) len then read_size s else len) ≡ len =
            ap (λ b. if b then read_size s else len)
              (le→ltb (read_size s) len (omega (arith, read_size_lem v, h))) in
          let counted : len ≡ length (take len (unread s)) =
            omega (arith, h, long, length-take len (unread s)) in
          bounded len refl size_is counted h
      | no h ↦
          let size_is : (if ltb (read_size s) len then read_size s else len) ≡ left =
            ap (λ b. if b then read_size s else len)
              (lt→ltb (read_size s) len (omega (arith, read_size_lem v, h)))
            ∙ read_size_lem v in
          let all : take len (unread s) ≡ take left (unread s) =
            take_all len (unread s) (omega (arith, long, h))
            ∙ sym (take_all left (unread s) (omega (arith, long))) in
          let counted : left ≡ length (take len (unread s)) =
            omega (arith, h, long, length-take len (unread s)) in
          bounded left all size_is counted (omega arith)
    ]
  where
    long : length (unread s) ≡ s.size - s.position
    long = omega (arith, length-drop s.position (bytes s), length-bytes v)

    bounded :
        (size : ℕ)
        → take len (unread s) ≡ take size (unread s)
        → (if ltb (read_size s) len then read_size s else len) ≡ size
        → size ≡ length (take len (unread s))
        → size ≤ s.size - s.position
        → (n : ℕ) × (iovs : List Iovec) × (get_read_buffers s len ≡ ok (n, iovs))
          × (gather s.nodes iovs ≡ ok (take len (unread s)))
          × (n ≡ length (take len (unread s)))
    bounded zero all size_is counted le = (0, [], rw size_is refl, ap ok (sym all), counted)
    bounded (suc k) all size_is counted le =
        let (iovs, named, same) =
          buffers-read s (suc k) v (omega arith) (omega (arith, le, v.read_le)) in
        let some_bytes = ne→== (suc k) 0 (λ e. omega (arith, e)) in
        (
          suc k,
          iovs,
          get_read_buffers-run s len (suc k) iovs size_is some_bytes named,
          same ∙ ap ok (sym all),
          counted,
        )
