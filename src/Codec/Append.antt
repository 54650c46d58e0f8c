-- ===== src/Codec/Append.antt =====
-- Writing at the end of a buffer: every typed write appends its bytes on the wire.
use dag.Common.{
  ℕ, zero, suc, ◌+◌, ◌^◌, ◌≤◌, ◌<◌, ◌≡◌, refl, sym, ap, ◌∙◌, subst, List, [], ◌∷◌, ◌++◌, length,
  drop, take_all, length-append, append-nil, append_assoc, arith, Outcome, ok, ◌>>=◌,
}
use native.Mathlib.Nat.{mod-eq_of_lt}
use dag.Memory.Patch.{overwrite}
use dag.ByteArray.{ByteArray, Endian, write}
use dag.ByteArray.Valid.{IsValid, bytes, length-bytes}
use dag.ByteArray.Write.{write_lem}
use dag.Codec.{
  encode_zigzag, write_fuint8, write_fixed, write_uint32, write_uint64, write_int32, write_int64,
  write_string, write_string_vint,
}
use dag.Codec.Zigzag.{encode-lt32, encode-lt64}
use dag.Codec.Fixed.{wire_fixed, store-wire_fixed}
use dag.Codec.Varint.{groups, encode_loop-groups}
use dag.Codec.Items.{Kind, Item, number, chars, InRange, wire, write_item}

-- The position is behind the last byte, as it is after any write on a fresh buffer.
pub record AtEnd (s : ByteArray) : Type 0 where
  pub valid : IsValid s
  pub at_end : s.position ≡ s.size

pub record Appended (s : ByteArray) (bs : List ℕ) (t : ByteArray) : Type 0 where
  pub ready : AtEnd t
  pub contents : bytes t ≡ bytes s ++ bs
  pub size_lem : t.size ≡ s.size + length bs
  pub endian_same : t.endian ≡ s.endian
  pub base_same : t.base_size ≡ s.base_size

-- Room for `n` bytes more, with the last block's slack.
abbrev pub Fits : ByteArray → ℕ → Type 0
Fits s n = s.size + n + s.base_size ≤ 2 ^ 64

drop_all : (xs : List ℕ) (n : ℕ) → length xs ≤ n → drop n xs ≡ []
drop_all [] zero h = refl
drop_all [] (suc n) h = refl
drop_all (x ∷ xs) zero h = absurd (omega arith)
drop_all (x ∷ xs) (suc n) h = drop_all xs n (omega arith)

overwrite-end : (xs buf : List ℕ) (n : ℕ) → n ≡ length xs → overwrite xs n buf ≡ xs ++ buf
overwrite-end xs buf n e =
    ap (λ l. l ++ (buf ++ drop (n + length buf) xs)) (take_all n xs (omega arith))
    ∙ ap (λ l. xs ++ (buf ++ l)) (drop_all xs (n + length buf) (omega arith))
    ∙ ap (λ l. xs ++ l) (append-nil buf)

pub write-Appended :
    (s : ByteArray) (buf : List ℕ)
    → AtEnd s
    → Fits s (length buf)
    → (t : ByteArray) × (write s buf ≡ ok t) × Appended s buf t
write-Appended s buf a h =
    let (t, run, w) = write_lem s buf a.valid (omega (arith, a.at_end)) in
    (
      t,
      run,
      record {
        ready = record { valid = w.valid; at_end = omega (arith, w.moved, w.size_lem, a.at_end) };
        contents =
            w.contents
            ∙ overwrite-end (bytes s) buf s.position
                (omega (arith, a.at_end, length-bytes a.valid));
        size_lem = omega (arith, w.size_lem, a.at_end);
        endian_same = w.endian_same;
        base_same = w.base_same;
      },
    )

pub Appended-trans :
    {s t u : ByteArray} {xs ys : List ℕ}
    → Appended s xs t
    → Appended t ys u
    → Appended s (xs ++ ys) u
Appended-trans {xs = xs} {ys = ys} a b = record {
  ready = b.ready;
  contents = b.contents ∙ ap (λ l. l ++ ys) a.contents ∙ append_assoc _ xs ys;
  size_lem = omega (arith, a.size_lem, b.size_lem, length-append xs ys);
  endian_same = b.endian_same ∙ a.endian_same;
  base_same = b.base_same ∙ a.base_same;
}

-- What a call `m` on `s` does: it returns, having appended `bs`.
abbrev Appends : ByteArray → Outcome ByteArray → List ℕ → Type 0
Appends s m bs = (t : ByteArray) × (m ≡ ok t) × Appended s bs t

write_of :
    (s : ByteArray) (m : Outcome ByteArray) (buf : List ℕ)
    → m ≡ write s buf
    → AtEnd s
    → Fits s (length buf)
    → Appends s m buf
write_of s m buf e a h = let (t, run, p) = write-Appended s buf a h in (t, e ∙ run, p)

module _ (s : ByteArray) (v : ℕ) (a : AtEnd s) where
  write_uint32-Appends :
      v < 2 ^ 32 → Fits s (length (groups 4 v)) → Appends s (write_uint32 s v) (groups 4 v)
  write_uint32-Appends hv h = write_of s _ (groups 4 v) wrote a h
    where
      wrote : write_uint32 s v ≡ write s (groups 4 v)
      wrote = unfold write_uint32 in rw (encode_loop-groups 4 5 [] v (omega arith) (omega arith))

  write_uint64-Appends :
      v < 2 ^ 64 → Fits s (length (groups 9 v)) → Appends s (write_uint64 s v) (groups 9 v)
  write_uint64-Appends hv h = write_of s _ (groups 9 v) wrote a h
    where
      wrote : write_uint64 s v ≡ write s (groups 9 v)
      wrote = unfold write_uint64 in rw (encode_loop-groups 9 10 [] v (omega arith) (omega arith))

  write_fixed-Appends :
      (host : Endian) (k : ℕ)
      → Fits s (length (wire_fixed s.endian k v))
      → Appends s (write_fixed host k s v) (wire_fixed s.endian k v)
  write_fixed-Appends host k h = write_of s _ (wire_fixed s.endian k v) wrote a h
    where
      wrote : write_fixed host k s v ≡ write s (wire_fixed s.endian k v)
      wrote = unfold write_fixed in ap (write s) (store-wire_fixed host s.endian k v)

-- A length prefix and then the text.
then_write :
    (s : ByteArray) (m r : Outcome ByteArray) (front bs : List ℕ)
    → r ≡ (m >>= λ t. write t bs)
    → Appends s m front
    → Fits s (length (front ++ bs))
    → Appends s r (front ++ bs)
then_write s m r front bs e (t, run, p) h =
    let (u, run', q) =
      write-Appended t bs p.ready
        (omega (arith, length-append front bs, p.size_lem, p.base_same)) in
    (u, e ∙ ap (λ x. x >>= λ t. write t bs) run ∙ run', Appended-trans p q)

prefix_Fits :
    (s : ByteArray) (front bs : List ℕ) → Fits s (length (front ++ bs)) → Fits s (length front)
prefix_Fits s front bs h = omega (arith, length-append front bs)

-- Every item in range is appended as its bytes on the wire, on a machine of either byte order.
pub write_item-Appended :
    (host : Endian) (s : ByteArray) (x : Item)
    → AtEnd s
    → InRange x
    → Fits s (length (wire s.endian x))
    → (t : ByteArray) × (write_item host s x ≡ ok t) × Appended s (wire s.endian x) t
unfolding write_item write_fuint8 write_int32 write_int64 write_string write_string_vint
write_item-Appended host s (number Kind.byte v) a r h = write-Appended s (v ∷ []) a h
write_item-Appended host s (number Kind.uint32 v) a r h = write_uint32-Appends s v a r h
write_item-Appended host s (number Kind.uint64 v) a r h = write_uint64-Appends s v a r h
write_item-Appended host s (number Kind.int32 v) a r h =
    write_uint32-Appends s (encode_zigzag 32 v) a (encode-lt32 v) h
write_item-Appended host s (number Kind.int64 v) a r h =
    write_uint64-Appends s (encode_zigzag 64 v) a (encode-lt64 v) h
write_item-Appended host s (number (Kind.fixed k) v) a r h = write_fixed-Appends s v a host k h
write_item-Appended host s (number Kind.vtext v) a r h = absurd r
write_item-Appended host s (number (Kind.text k) v) a r h = absurd r
write_item-Appended host s (chars (Kind.text k) bs) a r h =
    then_write s _ _ (wire_fixed s.endian k (length bs)) bs refl
      (subst (λ n. Appends s (write_fixed host k s n) (wire_fixed s.endian k (length bs)))
        (sym (mod-eq_of_lt r.0))
        (write_fixed-Appends s (length bs) a host k (prefix_Fits s _ bs h)))
      h
write_item-Appended host s (chars Kind.vtext bs) a r h =
    then_write s _ _ (groups 9 (length bs)) bs refl
      (write_uint64-Appends s (length bs) a r.0 (prefix_Fits s _ bs h)) h
write_item-Appended host s (chars Kind.byte bs) a r h = absurd r
write_item-Appended host s (chars Kind.uint32 bs) a r h = absurd r
write_item-Appended host s (chars Kind.uint64 bs) a r h = absurd r
write_item-Appended host s (chars Kind.int32 bs) a r h = absurd r
write_item-Appended host s (chars Kind.int64 bs) a r h = absurd r
write_item-Appended host s (chars (Kind.fixed k) bs) a r h = absurd r
