-- ===== src/Memory/Patch.antt =====
-- Laws of `patch` and `slice` on one run of bytes.
use dag.Common.{
  ℕ, zero, suc, ◌+◌, ◌≤◌, max, ◌≡◌, refl, sym, ap, ◌∙◌, List, [], ◌∷◌, ◌++◌, arith, length, take,
  drop, drop-drop, drop-nil,
}
use dag.Memory.{patch, slice}

pub length-patch : (xs : List ℕ) (off : ℕ) (bs : List ℕ) → length (patch xs off bs) ≡ length xs
unfolding patch
length-patch [] off bs = refl
length-patch (x ∷ xs) zero [] = refl
length-patch (x ∷ xs) zero (b ∷ bs) = ap suc (length-patch xs zero bs)
length-patch (x ∷ xs) (suc off) bs = ap suc (length-patch xs off bs)

pub patch-nil : (xs : List ℕ) (off : ℕ) → patch xs off [] ≡ xs
unfolding patch
patch-nil [] off = refl
patch-nil (x ∷ xs) zero = refl
patch-nil (x ∷ xs) (suc off) = ap (λ l. x ∷ l) (patch-nil xs off)

-- Two adjacent copies are one.
pub patch-patch :
    (xs : List ℕ) (off : ℕ) (front bs : List ℕ) (next : ℕ)
    → next ≡ off + length front
    → patch (patch xs off front) next bs ≡ patch xs off (front ++ bs)
unfolding patch
patch-patch [] off front bs next e = refl
patch-patch (x ∷ xs) zero [] bs zero e = refl
patch-patch (x ∷ xs) zero [] bs (suc next) e = absurd (omega arith)
patch-patch (x ∷ xs) zero (a ∷ front) bs zero e = absurd (omega arith)
patch-patch (x ∷ xs) zero (a ∷ front) bs (suc next) e =
    ap (λ l. a ∷ l) (patch-patch xs zero front bs next (omega arith))
patch-patch (x ∷ xs) (suc off) front bs zero e = absurd (omega arith)
patch-patch (x ∷ xs) (suc off) front bs (suc next) e =
    ap (λ l. x ∷ l) (patch-patch xs off front bs next (omega arith))

-- A copy that ends inside the first of two runs stays there.
pub patch-append_left :
    (xs ys : List ℕ) (off : ℕ) (bs : List ℕ)
    → off + length bs ≤ length xs
    → patch (xs ++ ys) off bs ≡ patch xs off bs ++ ys
unfolding patch
patch-append_left [] ys off [] h = patch-nil ys off
patch-append_left [] ys off (b ∷ bs) h = absurd (omega arith)
patch-append_left (x ∷ xs) ys zero [] h = refl
patch-append_left (x ∷ xs) ys zero (b ∷ bs) h =
    ap (λ l. b ∷ l) (patch-append_left xs ys zero bs (omega arith))
patch-append_left (x ∷ xs) ys (suc off) bs h =
    ap (λ l. x ∷ l) (patch-append_left xs ys off bs (omega arith))

pub patch-append_right :
    (xs ys : List ℕ) (off k : ℕ) (bs : List ℕ)
    → off ≡ length xs + k
    → patch (xs ++ ys) off bs ≡ xs ++ patch ys k bs
unfolding patch
patch-append_right [] ys off k bs e = let e' : off ≡ k = omega arith in ap (λ o. patch ys o bs) e'
patch-append_right (x ∷ xs) ys zero k bs e = absurd (omega arith)
patch-append_right (x ∷ xs) ys (suc off) k bs e =
    ap (λ l. x ∷ l) (patch-append_right xs ys off k bs (omega arith))

pub length-slice : (xs : List ℕ) (off n : ℕ) → off + n ≤ length xs → length (slice xs off n) ≡ n
length-slice xs zero zero h = refl
length-slice [] zero (suc n) h = absurd (omega arith)
length-slice (x ∷ xs) zero (suc n) h = ap suc (length-slice xs zero n (omega arith))
length-slice [] (suc off) n h = absurd (omega arith)
length-slice (x ∷ xs) (suc off) n h = length-slice xs off n (omega arith)

take-empty : (n : ℕ) → [] ≡ take {A = ℕ} n []
take-empty zero = refl
take-empty (suc n) = refl

take-add : (xs : List ℕ) (a b n : ℕ) → n ≡ a + b → take a xs ++ take b (drop a xs) ≡ take n xs
take-add xs zero b n e = let e' : b ≡ n = omega arith in ap (λ k. take k xs) e'
take-add [] (suc a) zero n e = take-empty n
take-add [] (suc a) (suc b) n e = take-empty n
take-add (x ∷ xs) (suc a) b zero e = absurd (omega arith)
take-add (x ∷ xs) (suc a) b (suc n) e = ap (λ l. x ∷ l) (take-add xs a b n (omega arith))

-- Two adjacent slices are one.
pub slice-append :
    (xs : List ℕ) (off a b : ℕ) → slice xs off a ++ slice xs (off + a) b ≡ slice xs off (a + b)
slice-append xs off a b =
    ap (λ l. slice xs off a ++ take b l) (sym (drop-drop off a xs))
    ∙ take-add (drop off xs) a b (a + b) refl

-- What was copied in is read back.
pub slice-patch :
    (xs : List ℕ) (off : ℕ) (bs : List ℕ) (n : ℕ)
    → n ≡ length bs
    → off + n ≤ length xs
    → slice (patch xs off bs) off n ≡ bs
unfolding patch
slice-patch xs zero [] zero e h = refl
slice-patch xs zero [] (suc n) e h = absurd (omega arith)
slice-patch xs zero (b ∷ bs) zero e h = absurd (omega arith)
slice-patch [] zero (b ∷ bs) (suc n) e h = absurd (omega arith)
slice-patch (x ∷ xs) zero (b ∷ bs) (suc n) e h =
    ap (λ l. b ∷ l) (slice-patch xs zero bs n (omega arith) (omega arith))
slice-patch [] (suc off) bs n e h = absurd (omega arith)
slice-patch (x ∷ xs) (suc off) bs n e h = slice-patch xs off bs n e (omega arith)

-- What a write at `off` makes of a byte string, with no reference to blocks.
abbrev pub overwrite : List ℕ → ℕ → List ℕ → List ℕ
overwrite xs off bs = take off xs ++ (bs ++ drop (off + length bs) xs)

take-patch_at :
    (xs : List ℕ) (off : ℕ) (bs : List ℕ) (n m k : ℕ)
    → off ≤ n
    → n ≤ length xs
    → k ≤ length xs
    → k ≡ off + length bs
    → m ≡ max n k
    → take m (patch xs off bs) ≡ take off (take n xs) ++ (bs ++ drop k (take n xs))
unfolding patch
take-patch_at xs zero [] n m zero h1 h2 h3 ek em =
    let e : m ≡ n = omega arith in ap (take m) (patch-nil xs zero) ∙ ap (λ j. take j xs) e
take-patch_at xs zero [] n m (suc k) h1 h2 h3 ek em = absurd (omega arith)
take-patch_at xs zero (b ∷ bs) n m zero h1 h2 h3 ek em = absurd (omega arith)
take-patch_at xs zero (b ∷ bs) n zero (suc k) h1 h2 h3 ek em = absurd (omega arith)
take-patch_at [] zero (b ∷ bs) n (suc m) (suc k) h1 h2 h3 ek em = absurd (omega arith)
take-patch_at (x ∷ xs) zero (b ∷ bs) zero (suc m) (suc k) h1 h2 h3 ek em =
    ap (λ l. b ∷ l)
      (take-patch_at xs zero bs zero m k (omega arith) (omega arith) (omega arith) (omega arith)
          (omega arith)
        ∙ ap (λ l. bs ++ l) (drop-nil k))
take-patch_at (x ∷ xs) zero (b ∷ bs) (suc n) (suc m) (suc k) h1 h2 h3 ek em =
    ap (λ l. b ∷ l)
      (take-patch_at xs zero bs n m k (omega arith) (omega arith) (omega arith) (omega arith)
        (omega arith))
take-patch_at [] (suc off) bs n m k h1 h2 h3 ek em = absurd (omega arith)
take-patch_at (x ∷ xs) (suc off) bs zero m k h1 h2 h3 ek em = absurd (omega arith)
take-patch_at (x ∷ xs) (suc off) bs (suc n) zero k h1 h2 h3 ek em = absurd (omega arith)
take-patch_at (x ∷ xs) (suc off) bs (suc n) (suc m) zero h1 h2 h3 ek em = absurd (omega arith)
take-patch_at (x ∷ xs) (suc off) bs (suc n) (suc m) (suc k) h1 h2 h3 ek em =
    ap (λ l. x ∷ l)
      (take-patch_at xs off bs n m k (omega arith) (omega arith) (omega arith) (omega arith)
        (omega arith))

pub take-patch :
    (xs : List ℕ) (off : ℕ) (bs : List ℕ) (n m : ℕ)
    → off ≤ n
    → n ≤ length xs
    → off + length bs ≤ length xs
    → m ≡ max n (off + length bs)
    → take m (patch xs off bs) ≡ overwrite (take n xs) off bs
take-patch xs off bs n m h1 h2 h3 e = take-patch_at xs off bs n m _ h1 h2 h3 refl e

-- A slice that ends before `n` is a slice of the first `n` bytes.
pub slice-take :
    (xs : List ℕ) (n off k : ℕ) → off + k ≤ n → slice (take n xs) off k ≡ slice xs off k
slice-take xs n zero zero h = refl
slice-take xs zero zero (suc k) h = absurd (omega arith)
slice-take [] (suc n) zero (suc k) h = refl
slice-take (x ∷ xs) (suc n) zero (suc k) h = ap (λ l. x ∷ l) (slice-take xs n zero k (omega arith))
slice-take xs zero (suc off) k h = absurd (omega arith)
slice-take [] (suc n) (suc off) k h = refl
slice-take (x ∷ xs) (suc n) (suc off) k h = slice-take xs n off k (omega arith)
