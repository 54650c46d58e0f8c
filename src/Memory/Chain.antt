-- ===== src/Memory/Chain.antt =====
-- Chains whose blocks all have one size: `flat` turns a block index and an offset into one index.
use dag.Common.{
  ℕ, zero, suc, ◌+◌, ◌*◌, ◌%◌, ◌/◌, ◌≤◌, ◌<◌, ◌≡◌, refl, sym, ap, ◌∙◌, List, [], ◌∷◌, ◌++◌, some,
  arith, length, get_elem?, length-append, append_assoc, append-nil,
}
use native.Mathlib.Decide.{dec_lt}
use native.Mathlib.Nat.{mul-add-mod_self_right, mul-add-div_right, mod-eq_of_lt, div-eq_of_lt}
use dag.Memory.{patch, slice, poke, flat}
use dag.Memory.Patch.{length-patch, patch-append_left, patch-append_right}

-- Every block has `base` bytes.
abbrev pub Blocks : ℕ → List (List ℕ) → Type 0
Blocks base [] = Unit
Blocks base (n ∷ ns) = (length n ≡ base) × Blocks base ns

pub length-flat :
    (base : ℕ) (ns : List (List ℕ)) → Blocks base ns → length (flat ns) ≡ length ns * base
unfolding flat
length-flat base [] h = omega arith
length-flat base (n ∷ ns) h = omega (arith, length-append n (flat ns), length-flat base ns h.1, h.0)

pub length-poke :
    (ns : List (List ℕ)) (i off : ℕ) (bs : List ℕ) → length (poke ns i off bs) ≡ length ns
unfolding poke
length-poke [] i off bs = refl
length-poke (n ∷ ns) zero off bs = refl
length-poke (n ∷ ns) (suc i) off bs = ap suc (length-poke ns i off bs)

pub poke-Blocks :
    (base : ℕ) (ns : List (List ℕ)) (i off : ℕ) (bs : List ℕ)
    → Blocks base ns
    → Blocks base (poke ns i off bs)
unfolding poke
poke-Blocks base [] i off bs h = tt
poke-Blocks base (n ∷ ns) zero off bs h = (length-patch n off bs ∙ h.0, h.1)
poke-Blocks base (n ∷ ns) (suc i) off bs h = (h.0, poke-Blocks base ns i off bs h.1)

-- A copy into block `i` is a copy into the run of bytes.
pub flat-poke :
    (base : ℕ) (ns : List (List ℕ)) (i off at : ℕ) (bs : List ℕ)
    → Blocks base ns
    → i < length ns
    → off + length bs ≤ base
    → at ≡ i * base + off
    → flat (poke ns i off bs) ≡ patch (flat ns) at bs
unfolding poke flat
flat-poke base [] i off at bs h hi ho e = absurd (omega arith)
flat-poke base (n ∷ ns) zero off at bs h hi ho e =
    let e' : off ≡ at = omega arith in
    sym (patch-append_left n (flat ns) off bs (omega (arith, h.0)))
    ∙ ap (λ o. patch (n ++ flat ns) o bs) e'
flat-poke base (n ∷ ns) (suc i) off at bs h hi ho e =
    ap (λ l. n ++ l) (flat-poke base ns i off (i * base + off) bs h.1 (omega arith) ho refl)
    ∙ sym (patch-append_right n (flat ns) at (i * base + off) bs (omega (arith, h.0)))

slice-append_left :
    (xs ys : List ℕ) (off k : ℕ) → off + k ≤ length xs → slice (xs ++ ys) off k ≡ slice xs off k
slice-append_left xs ys zero zero h = refl
slice-append_left [] ys zero (suc k) h = absurd (omega arith)
slice-append_left (x ∷ xs) ys zero (suc k) h =
    ap (λ l. x ∷ l) (slice-append_left xs ys zero k (omega arith))
slice-append_left [] ys (suc off) k h = absurd (omega arith)
slice-append_left (x ∷ xs) ys (suc off) k h = slice-append_left xs ys off k (omega arith)

slice-append_right :
    (xs ys : List ℕ) (off k at : ℕ) → at ≡ length xs + off → slice (xs ++ ys) at k ≡ slice ys off k
slice-append_right [] ys off k at e = let e' : at ≡ off = omega arith in ap (λ o. slice ys o k) e'
slice-append_right (x ∷ xs) ys off k zero e = absurd (omega arith)
slice-append_right (x ∷ xs) ys off k (suc at) e = slice-append_right xs ys off k at (omega arith)

-- Bytes of block `i` are bytes of the run.
pub slice-flat :
    (base : ℕ) (ns : List (List ℕ)) (i off at k : ℕ) {n : List ℕ}
    → Blocks base ns
    → get_elem? ns i ≡ some n
    → off + k ≤ base
    → at ≡ i * base + off
    → slice n off k ≡ slice (flat ns) at k
unfolding flat
slice-flat base [] i off at k h e ho ea = cc
slice-flat base (m ∷ ns) zero off at k {n} h e ho ea =
    let same : m ≡ n = cc in
    let e' : off ≡ at = omega arith in
    ap (λ l. slice l off k) (sym same)
    ∙ sym (slice-append_left m (flat ns) off k (omega (arith, h.0)))
    ∙ ap (λ o. slice (m ++ flat ns) o k) e'
slice-flat base (m ∷ ns) (suc i) off at k h e ho ea =
    slice-flat base ns i off (i * base + off) k h.1 e ho refl
    ∙ sym (slice-append_right m (flat ns) (i * base + off) k at (omega (arith, h.0)))

pub get_elem?-Blocks :
    (base : ℕ) (ns : List (List ℕ)) (i : ℕ)
    → Blocks base ns
    → i < length ns
    → (n : List ℕ) × (get_elem? ns i ≡ some n) × (length n ≡ base)
get_elem?-Blocks base [] i h hi = elim hi [ ]
get_elem?-Blocks base (n ∷ ns) zero h hi = (n, refl, h.0)
get_elem?-Blocks base (n ∷ ns) (suc i) h hi = get_elem?-Blocks base ns i h.1 (omega arith)

pub append-Blocks :
    (base : ℕ) (ns : List (List ℕ)) (n : List ℕ)
    → Blocks base ns
    → length n ≡ base
    → Blocks base (ns ++ n ∷ [])
append-Blocks base [] n h e = (e, tt)
append-Blocks base (m ∷ ns) n h e = (h.0, append-Blocks base ns n h.1 e)

pub flat-append : (ns : List (List ℕ)) (n : List ℕ) → flat (ns ++ n ∷ []) ≡ flat ns ++ n
unfolding flat
flat-append [] n = append-nil n
flat-append (m ∷ ns) n = ap (λ l. m ++ l) (flat-append ns n) ∙ sym (append_assoc m (flat ns) n)

-- Arithmetic of block indices.
pub index_bound : (i n base : ℕ) → i < n → i * base + base ≤ n * base
index_bound i n base h = grind arith

pub index_of_lt : (i n base off : ℕ) → i * base + off < n * base → i < n
index_of_lt i n base off h = elim (dec_lt i n) [
  | yes p ↦ p
  | no p ↦
      absurd
        (let q : n ≤ i = omega arith in let r : n * base ≤ i * base = grind arith in omega arith)
]

pub offset_mod : (i base off : ℕ) → off < base → (i * base + off) % base ≡ off
offset_mod i base off h = mul-add-mod_self_right i base off ∙ mod-eq_of_lt h

pub offset_div : (i base off : ℕ) → off < base → (i * base + off) / base ≡ i
offset_div i base off h = mul-add-div_right (omega arith) i off ∙ omega (arith, div-eq_of_lt h)
