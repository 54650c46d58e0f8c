-- ===== src/Codec/Reading.antt =====
-- Reading: a typed read of bytes that some typed write puts on the wire returns its value.
use dag.Common.{
  ℕ, ◌+◌, ◌*◌, ◌^◌, ◌<◌, ◌≡◌, refl, sym, ap, ◌∙◌, List, ◌++◌, length, append_assoc, arith, Outcome,
  ok, ◌>>=◌, if◌then◌else◌,
}
use dag.ByteArray.{ByteArray, Endian, read}
use dag.ByteArray.Valid.{IsValid, unread}
use dag.ByteArray.Read.{read_front}
use dag.Codec.{
  encode_zigzag, decode_zigzag, read_fixed, read_uint32, read_uint64, read_int32, read_int64,
  read_string, read_string_vint, same_endian, load, byteswap,
}
use dag.Codec.Zigzag.{encode-lt32, encode-lt64, decode_encode32, decode_encode64}
use dag.Codec.Fixed.{wire_fixed, length-wire_fixed, load-wire_fixed}
use dag.Codec.Varint.{groups, Rest, Rest-trans, read_fuint8_front, decode_loop-groups}
use dag.Codec.Items.{Kind, Item, number, chars, kind_of, InRange, wire, read_item}

-- What a call `m` on `s` does: it returns `v` and leaves `rest` unread.
abbrev Returns : {A : Type 0} → ByteArray → Outcome (A × ByteArray) → A → List ℕ → Type 0
Returns s m v rest = (t : ByteArray) × (m ≡ ok (v, t)) × Rest s rest t

Returns-map :
    {A B : Type 0} (f : A → B) (s : ByteArray) (m : Outcome (A × ByteArray)) (v : A) (rest : List ℕ)
    → Returns s m v rest
    → Returns s (m >>= λ r. ok (f r.0, r.1)) (f v) rest
Returns-map f s m v rest (t, run, r) = (t, ap (λ x. x >>= λ r. ok (f r.0, r.1)) run, r)

module _ (s : ByteArray) (v : ℕ) (rest : List ℕ) (h : IsValid s) where
  read_uint32-groups : unread s ≡ groups 4 v ++ rest → v < 2 ^ 32 → Returns s (read_uint32 s) v rest
  unfolding read_uint32
  read_uint32-groups e hv =
      let (t, run, r) =
        decode_loop-groups 4 6 32 s 0 0 v rest h e (omega arith) (omega arith) (omega arith)
          (omega arith) (omega arith) in
      let sum : 0 + v * 2 ^ 0 ≡ v = omega arith in (t, run ∙ ap (λ x. ok (x, t)) sum, r)

  read_uint64-groups : unread s ≡ groups 9 v ++ rest → v < 2 ^ 64 → Returns s (read_uint64 s) v rest
  unfolding read_uint64
  read_uint64-groups e hv =
      let (t, run, r) =
        decode_loop-groups 9 11 64 s 0 0 v rest h e (omega arith) (omega arith) (omega arith)
          (omega arith) (omega arith) in
      let sum : 0 + v * 2 ^ 0 ≡ v = omega arith in (t, run ∙ ap (λ x. ok (x, t)) sum, r)

  read_fixed_wire :
      (host : Endian) (k : ℕ)
      → unread s ≡ wire_fixed s.endian k v ++ rest
      → v < 256 ^ k
      → 0 < k
      → Returns s (read_fixed host k s) v rest
  unfolding read_fixed
  read_fixed_wire host k e hv hk =
      let (t, run, w, l, n) =
        read_front s (wire_fixed s.endian k v) rest k h e (sym (length-wire_fixed s.endian k v))
          hk in
      (
        t,
        ap
              (λ x. x >>= λ r. ok (
                if same_endian r.1.endian host then load host r.0 else byteswap k (load host r.0),
                r.1,
              ))
              run
            ∙ ap
                (λ d. ok (
                  if same_endian d host
                      then load host (wire_fixed s.endian k v)
                      else byteswap k (load host (wire_fixed s.endian k v)),
                  t,
                ))
                n
            ∙ ap (λ x. ok (x, t)) (load-wire_fixed host s.endian k v hv),
        record { valid = w; left = l; endian_same = n },
      )

module _ (s : ByteArray) (v : ℕ) (rest : List ℕ) (h : IsValid s) where
  read_int32-groups :
      unread s ≡ groups 4 (encode_zigzag 32 v) ++ rest
      → v < 2 ^ 32
      → Returns s (read_int32 s) v rest
  unfolding read_int32
  read_int32-groups e hv =
      let (t, run, r) =
        Returns-map (decode_zigzag 32) s (read_uint32 s) (encode_zigzag 32 v) rest
          (read_uint32-groups s (encode_zigzag 32 v) rest h e (encode-lt32 v)) in
      (t, run ∙ ap (λ x. ok (x, t)) (decode_encode32 v hv), r)

  read_int64-groups :
      unread s ≡ groups 9 (encode_zigzag 64 v) ++ rest
      → v < 2 ^ 64
      → Returns s (read_int64 s) v rest
  unfolding read_int64
  read_int64-groups e hv =
      let (t, run, r) =
        Returns-map (decode_zigzag 64) s (read_uint64 s) (encode_zigzag 64 v) rest
          (read_uint64-groups s (encode_zigzag 64 v) rest h e (encode-lt64 v)) in
      (t, run ∙ ap (λ x. ok (x, t)) (decode_encode64 v hv), r)

-- A length, and then as many bytes.
read_text :
    (s : ByteArray) (m : Outcome (ℕ × ByteArray)) (bs rest : List ℕ)
    → Returns s m (length bs) (bs ++ rest)
    → 0 < length bs
    → Returns s (m >>= λ r. read r.1 r.0) bs rest
read_text s m bs rest (t, run, r) h0 =
    let (u, run', w, l, n) = read_front t bs rest (length bs) r.valid r.left refl h0 in
    (
      u,
      ap (λ x. x >>= λ r. read r.1 r.0) run ∙ run',
      Rest-trans r (record { valid = w; left = l; endian_same = n }),
    )

-- Whatever item begins the unread bytes, asking for its kind returns it and passes over its bytes.
pub read_item-wire :
    (host : Endian) (s : ByteArray) (x : Item) (rest : List ℕ)
    → IsValid s
    → InRange x
    → unread s ≡ wire s.endian x ++ rest
    → (t : ByteArray) × (read_item host (kind_of x) s ≡ ok (x, t)) × Rest s rest t
unfolding read_item read_string read_string_vint
read_item-wire host s (number Kind.byte v) rest h r e =
    Returns-map (number Kind.byte) s _ v rest (read_fuint8_front s v rest h e)
read_item-wire host s (number Kind.uint32 v) rest h r e =
    Returns-map (number Kind.uint32) s _ v rest (read_uint32-groups s v rest h e r)
read_item-wire host s (number Kind.uint64 v) rest h r e =
    Returns-map (number Kind.uint64) s _ v rest (read_uint64-groups s v rest h e r)
read_item-wire host s (number Kind.int32 v) rest h r e =
    Returns-map (number Kind.int32) s _ v rest (read_int32-groups s v rest h e r)
read_item-wire host s (number Kind.int64 v) rest h r e =
    Returns-map (number Kind.int64) s _ v rest (read_int64-groups s v rest h e r)
read_item-wire host s (number (Kind.fixed k) v) rest h r e =
    Returns-map (number (Kind.fixed k)) s _ v rest (read_fixed_wire s v rest h host k e r.0 r.1)
read_item-wire host s (number Kind.vtext v) rest h r e = absurd r
read_item-wire host s (number (Kind.text k) v) rest h r e = absurd r
read_item-wire host s (chars (Kind.text k) bs) rest h r e =
    Returns-map (chars (Kind.text k)) s _ bs rest (
      read_text s (read_fixed host k s) bs rest
        (read_fixed_wire s (length bs) (bs ++ rest) h host k
          (e ∙ append_assoc (wire_fixed s.endian k (length bs)) bs rest) r.0 r.1)
        r.2)
read_item-wire host s (chars Kind.vtext bs) rest h r e =
    Returns-map (chars Kind.vtext) s _ bs rest (
      read_text s (read_uint64 s) bs rest
        (read_uint64-groups s (length bs) (bs ++ rest) h
          (e ∙ append_assoc (groups 9 (length bs)) bs rest) r.0)
        r.1)
read_item-wire host s (chars Kind.byte bs) rest h r e = absurd r
read_item-wire host s (chars Kind.uint32 bs) rest h r e = absurd r
read_item-wire host s (chars Kind.uint64 bs) rest h r e = absurd r
read_item-wire host s (chars Kind.int32 bs) rest h r e = absurd r
read_item-wire host s (chars Kind.int64 bs) rest h r e = absurd r
read_item-wire host s (chars (Kind.fixed k) bs) rest h r e = absurd r
