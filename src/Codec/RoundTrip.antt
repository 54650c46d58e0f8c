-- ===== src/Codec/RoundTrip.antt =====
-- A sequence of typed writes, a rewind, and the same sequence of typed reads.
use dag.Common.{
  ℕ, ◌≡◌, refl, sym, ap, ◌∙◌, subst, List, [], ◌∷◌, ◌++◌, map, length, length-append, append-nil,
  append_assoc, arith, ok, ◌>>=◌, take,
}
use dag.Memory.{flat}
use dag.ByteArray.{ByteArray, Endian, set_position}
use dag.ByteArray.Valid.{IsValid, bytes, unread}
use dag.ByteArray.Seek.{rewind}
use dag.Codec.Varint.{Rest, Rest-trans}
use dag.Codec.Items.{Item, kind_of, InRange, wire, write_items, read_items}
use dag.Codec.Append.{AtEnd, Appended, Appended-trans, Fits, write_item-Appended}
use dag.Codec.Reading.{read_item-wire}

abbrev pub AllInRange : List Item → Type 0
AllInRange [] = Unit
AllInRange (x ∷ xs) = InRange x × AllInRange xs

abbrev pub wires : Endian → List Item → List ℕ
wires e [] = []
wires e (x ∷ xs) = wire e x ++ wires e xs

-- A sequence of writes at the end of a buffer appends the wire bytes of its items, in order.
pub write_items-Appended :
    (host : Endian) (xs : List Item) (s : ByteArray)
    → AtEnd s
    → AllInRange xs
    → Fits s (length (wires s.endian xs))
    → (t : ByteArray) × (write_items host s xs ≡ ok t) × Appended s (wires s.endian xs) t
unfolding write_items
write_items-Appended host [] s a r h = (
  s,
  refl,
  record {
    ready = a;
    contents = sym (append-nil (bytes s));
    size_lem = omega arith;
    endian_same = refl;
    base_same = refl;
  },
)
write_items-Appended host (x ∷ xs) s a r h =
    let front = wire s.endian x in
    let back = wires s.endian xs in
    let (t, run, p) =
      write_item-Appended host s x a r.0 (omega (arith, length-append front back)) in
    let same : wires t.endian xs ≡ back = ap (λ e. wires e xs) p.endian_same in
    let (u, run', q) =
      write_items-Appended host xs t p.ready r.1
        (omega (arith, length-append front back, ap length same, p.size_lem, p.base_same)) in
    (
      u,
      ap (λ m. m >>= λ t. write_items host t xs) run ∙ run',
      Appended-trans p (subst (λ l. Appended t l u) same q),
    )

-- What begins with the wire bytes of some items is read back as these items.
pub read_items-wires :
    (host : Endian) (xs : List Item) (s : ByteArray) (rest : List ℕ)
    → IsValid s
    → AllInRange xs
    → unread s ≡ wires s.endian xs ++ rest
    → (t : ByteArray) × (read_items host (map kind_of xs) s ≡ ok (xs, t)) × Rest s rest t
unfolding read_items
read_items-wires host [] s rest v r e =
    (s, refl, record { valid = v; left = e; endian_same = refl })
read_items-wires host (x ∷ xs) s rest v r e =
    let front = wire s.endian x in
    let (t, run, p) =
      read_item-wire host s x (wires s.endian xs ++ rest) v r.0
        (e ∙ append_assoc front (wires s.endian xs) rest) in
    let (u, run', q) =
      read_items-wires host xs t rest p.valid r.1
        (p.left ∙ ap (λ d. wires d xs ++ rest) (sym p.endian_same)) in
    (
      u,
      ap (λ m. m >>= λ a. read_items host (map kind_of xs) a.1 >>= λ b. ok (a.0 ∷ b.0, b.1)) run
          ∙ ap (λ m. m >>= λ b. ok (x ∷ b.0, b.1)) run',
      Rest-trans p q,
    )

-- Any sequence of items in range, written to a valid empty buffer of any base size whose capacity
-- then still fits `size_t`, comes back after `setPosition(0)` from the same sequence of readers,
-- and then nothing is left. The machines that write and read may have different byte orders.
pub round_trip :
    (host host' : Endian) (xs : List Item) (s : ByteArray)
    → IsValid s
    → s.size ≡ 0
    → AllInRange xs
    → Fits s (length (wires s.endian xs))
    → (t : ByteArray) × (u : ByteArray) × (v : ByteArray) × (write_items host s xs ≡ ok t)
      × (set_position t 0 ≡ ok u)
      × (read_items host' (map kind_of xs) u ≡ ok (xs, v))
      × (unread v ≡ [])
round_trip host host' xs s valid empty r h =
    let (t, run, p) =
      write_items-Appended host xs s
        (record { valid = valid; at_end = omega (arith, valid.read_le) }) r h in
    let (u, run', w, e, n) = rewind t p.ready.valid in
    let nothing : bytes s ≡ [] = ap (λ k. take k (flat s.nodes)) empty in
    let whole : unread u ≡ wires u.endian xs ++ [] =
      e
      ∙ p.contents
      ∙ ap (λ l. l ++ wires s.endian xs) nothing
      ∙ ap (λ d. wires d xs) (sym (n ∙ p.endian_same))
      ∙ sym (append-nil (wires u.endian xs)) in
    let (v, run'', q) = read_items-wires host' xs u [] w r whole in
    (t, u, v, run, run', run'', q.left)
