-- ===== src/Codec/Varint.antt =====
-- Variable-length integers: what the encoder's loop writes, and that the decoder's loop reads it.
use dag.Common.{
  ℕ, zero, suc, ◌+◌, ◌*◌, ◌/◌, ◌%◌, ◌^◌, ◌≤◌, ◌<◌, ◌≡◌, refl, ap, ◌∙◌, List, [], ◌∷◌, ◌++◌, length,
  length-append, append_assoc, arith, leb, if◌then◌else◌, bit_and, bit_or, ok,
}
use native.Mathlib.Decide.{dec_lt}
use native.Mathlib.Nat.{pow-suc, mod-eq_of_lt, div-add-mod}
use native.Mathlib.Numerals.{towards_suc}
use dag.Common.Bits.{bit_and_group, bit_or_top, bit_or_shift}
use dag.ByteArray.{ByteArray, read}
use dag.ByteArray.Valid.{IsValid, unread}
use dag.ByteArray.Read.{read_front}
use dag.Codec.{encode_loop, read_fuint8, decode_loop}

-- The groups of seven bits of `v`, lowest first, all but the last with the top bit set.
unfoldable pub groups : ℕ → ℕ → List ℕ
groups zero v = v ∷ []
groups (suc k) v =
    let rest = groups k (v / 128) in if leb 128 v then (v % 128 + 128) ∷ rest else v ∷ []

pub length-groups : (k v : ℕ) → (1 ≤ length (groups k v)) × (length (groups k v) ≤ k + 1)
unfolding groups
length-groups zero v = omega arith
length-groups (suc k) v = ground (arith, length-groups k (v / 128))

top_group : (v : ℕ) → bit_or (bit_and v 0x7F) 0x80 ≡ v % 128 + 128
top_group v = ap (λ g. bit_or g 0x80) (bit_and_group v) ∙ bit_or_top (v % 128) (omega arith)

-- The encoder stays within its array of `cap` bytes and appends the groups.
pub encode_loop-groups :
    (k cap : ℕ) (tmp : List ℕ) (v : ℕ)
    → v < 128 ^ suc k
    → length tmp + k < cap
    → encode_loop (suc k) cap tmp v ≡ ok (tmp ++ groups k v)
unfolding encode_loop groups
encode_loop-groups zero cap tmp v h hc = ground arith
encode_loop-groups (suc k) cap tmp v h hc =
    let longer : List ℕ = tmp ++ (v % 128 + 128) ∷ [] in
    ground (
      arith,
      top_group v,
      length-append tmp ((v % 128 + 128) ∷ []),
      encode_loop-groups k cap longer (v / 128) (omega (arith, pow-suc 128 (suc k)))
          (omega (arith, length-append tmp ((v % 128 + 128) ∷ []))),
      append_assoc tmp ((v % 128 + 128) ∷ []) (groups k (v / 128)),
    )

read_fuint8_run : (s t : ByteArray) (b : ℕ) → read s 1 ≡ ok (b ∷ [], t) → read_fuint8 s ≡ ok (b, t)
unfolding read_fuint8
read_fuint8_run s t b e = rw e

-- What is left after a value has been read.
pub record Rest (s : ByteArray) (rest : List ℕ) (t : ByteArray) : Type 0 where
  pub valid : IsValid t
  pub left : unread t ≡ rest
  pub endian_same : t.endian ≡ s.endian

pub read_fuint8_front :
    (s : ByteArray) (b : ℕ) (rest : List ℕ)
    → IsValid s
    → unread s ≡ b ∷ rest
    → (t : ByteArray) × (read_fuint8 s ≡ ok (b, t)) × Rest s rest t
read_fuint8_front s b rest v e =
    let (t, run, w, l, n) = read_front s (b ∷ []) rest 1 v e refl (omega arith) in
    (t, read_fuint8_run s t b run, record { valid = w; left = l; endian_same = n })

decode_last :
    (fuel w : ℕ) (s t : ByteArray) (i result b : ℕ)
    → i < w
    → read_fuint8 s ≡ ok (b, t)
    → b < 128
    → decode_loop (suc fuel) w s i result ≡ ok (bit_or result (b * 2 ^ i % 2 ^ w), t)
unfolding decode_loop
decode_last fuel w s t i result b hi e hb = ground arith

decode_more :
    (fuel w : ℕ) (s t : ByteArray) (i result b : ℕ)
    → i < w
    → read_fuint8 s ≡ ok (b, t)
    → 128 ≤ b
    → decode_loop (suc fuel) w s i result
      ≡ decode_loop fuel w t (i + 7) (bit_or result (bit_and b 0x7f * 2 ^ i % 2 ^ w))
unfolding decode_loop
decode_more fuel w s t i result b hi e hb = ground arith

-- `result |= g << i`, where nothing is lost, is a sum.
add_group :
    (w i result g : ℕ)
    → result < 2 ^ i
    → result + g * 2 ^ i < 2 ^ w
    → bit_or result (g * 2 ^ i % 2 ^ w) ≡ result + g * 2 ^ i
add_group w i result g h fits =
    ap (bit_or result) (mod-eq_of_lt (omega arith)) ∙ bit_or_shift i result g h

shift_seven : (i : ℕ) → 2 ^ (i + 7) ≡ 128 * 2 ^ i
shift_seven i = simp towards_suc (omega arith)

split_value : (v i : ℕ) → v * 2 ^ i ≡ v % 128 * 2 ^ i + v / 128 * 2 ^ (i + 7)
split_value v i = omega (
  arith,
  ap (λ (t : ℕ). t * 2 ^ i) (div-add-mod v 128),
  ap (λ (t : ℕ). v / 128 * t) (shift_seven i),
)

groups_last : (k v : ℕ) → v < 128 → groups k v ≡ v ∷ []
unfolding groups
groups_last zero v h = refl
groups_last (suc k) v h = ground arith

groups_more : (k v : ℕ) → 128 ≤ v → groups (suc k) v ≡ (v % 128 + 128) ∷ groups k (v / 128)
unfolding groups
groups_more k v h = ground arith

-- One round of the decoder: on the last byte, and on any other.
module _ (fuel w : ℕ) (s : ByteArray) (i result v : ℕ) (rest : List ℕ) (hs : IsValid s) where
  decode_last_group :
      unread s ≡ v ∷ rest
      → v < 128
      → i < w
      → result < 2 ^ i
      → result + v * 2 ^ i < 2 ^ w
      → (t : ByteArray) × (decode_loop (suc fuel) w s i result ≡ ok (result + v * 2 ^ i, t))
        × Rest s rest t
  decode_last_group e hv hi hr fits =
      let (t, run, r) = read_fuint8_front s v rest hs e in
      (
        t,
        decode_last fuel w s t i result v hi run hv
            ∙ ap (λ x. ok (x, t)) (add_group w i result v hr fits),
        r,
      )

  decode_inner_group :
      unread s ≡ (v % 128 + 128) ∷ rest
      → i < w
      → result < 2 ^ i
      → result + v % 128 * 2 ^ i < 2 ^ w
      → (t : ByteArray) × (decode_loop (suc fuel) w s i result
          ≡ decode_loop fuel w t (i + 7) (result + v % 128 * 2 ^ i))
        × Rest s rest t
  decode_inner_group e hi hr fits =
      let (t, run, r) = read_fuint8_front s (v % 128 + 128) rest hs e in
      let low : bit_and (v % 128 + 128) 0x7f ≡ v % 128 =
        omega (arith, bit_and_group (v % 128 + 128)) in
      (
        t,
        decode_more fuel w s t i result (v % 128 + 128) hi run (omega arith)
            ∙ ap (λ g. decode_loop fuel w t (i + 7) (bit_or result (g * 2 ^ i % 2 ^ w))) low
            ∙ ap (decode_loop fuel w t (i + 7)) (add_group w i result (v % 128) hr fits),
        r,
      )

group_below : (g p : ℕ) → g ≤ 127 → g * p ≤ 127 * p
group_below g p h = grind arith

pub Rest-trans :
    {s t u : ByteArray} {mid rest : List ℕ} → Rest s mid t → Rest t rest u → Rest s rest u
Rest-trans a b = record {
  valid = b.valid;
  left = b.left;
  endian_same = b.endian_same ∙ a.endian_same;
}

-- The decoder adds the groups up, at bit `i` and above, and takes just their bytes.
pub decode_loop-groups :
    (k fuel w : ℕ) (s : ByteArray) (i result v : ℕ) (rest : List ℕ)
    → IsValid s
    → unread s ≡ groups k v ++ rest
    → v < 128 ^ suc k
    → k < fuel
    → i + 7 * k < w
    → result < 2 ^ i
    → result + v * 2 ^ i < 2 ^ w
    → (t : ByteArray) × (decode_loop fuel w s i result ≡ ok (result + v * 2 ^ i, t)) × Rest s rest t
decode_loop-groups k zero w s i result v rest hs e hv hf hi hr fits = absurd (omega arith)
decode_loop-groups zero (suc fuel) w s i result v rest hs e hv hf hi hr fits =
    let small : v < 128 = omega arith in
    decode_last_group fuel w s i result v rest hs (e ∙ ap (λ l. l ++ rest) (groups_last 0 v small))
      small (omega arith) hr fits
decode_loop-groups (suc k) (suc fuel) w s i result v rest hs e hv hf hi hr fits =
    elim (dec_lt v 128) [
      | yes small ↦
          decode_last_group fuel w s i result v rest hs
            (e ∙ ap (λ l. l ++ rest) (groups_last (suc k) v small)) small (omega arith) hr fits
      | no big ↦
          let more : List ℕ = groups k (v / 128) ++ rest in
          let split = split_value v i in
          let (t, run, r) =
            decode_inner_group fuel w s i result v more hs
              (e ∙ ap (λ l. l ++ rest) (groups_more k v (omega arith))) (omega arith) hr
              (omega (arith, split)) in
          let next = result + v % 128 * 2 ^ i in
          let below = group_below (v % 128) (2 ^ i) (omega arith) in
          let (u, run', r') =
            decode_loop-groups k fuel w t (i + 7) next (v / 128) rest r.valid r.left
              (omega (arith, pow-suc 128 (suc k))) (omega arith) (omega arith)
              (omega (arith, shift_seven i, below)) (omega (arith, split)) in
          let sum : next + v / 128 * 2 ^ (i + 7) ≡ result + v * 2 ^ i = omega (arith, split) in
          (u, run ∙ run' ∙ ap (λ x. ok (x, u)) sum, Rest-trans r r')
    ]
