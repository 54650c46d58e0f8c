-- ===== src/Memory.antt =====
-- The memory of dag/bytearray.cpp: a chain of blocks, each the list of its bytes, and `memcpy`
-- into and out of one of them. `flat` is the chain as one run of bytes.
pub mod Patch
pub mod Chain
use dag.Common.{ℕ, zero, suc, ◌+◌, List, [], ◌∷◌, ◌++◌, take, drop}

-- `memcpy(dst + off, src, length src)` on the block `dst`; what lies outside the block is dropped.
unfoldable pub patch : List ℕ → ℕ → List ℕ → List ℕ
patch [] off src = []
patch (x ∷ xs) zero [] = x ∷ xs
patch (x ∷ xs) zero (b ∷ bs) = b ∷ patch xs zero bs
patch (x ∷ xs) (suc off) src = x ∷ patch xs off src

-- The bytes `src[off .. off + n)`.
abbrev pub slice : List ℕ → ℕ → ℕ → List ℕ
slice src off n = take n (drop off src)

-- `patch` on block `i` of a chain.
unfoldable pub poke : List (List ℕ) → ℕ → ℕ → List ℕ → List (List ℕ)
poke [] i off src = []
poke (n ∷ ns) zero off src = patch n off src ∷ ns
poke (n ∷ ns) (suc i) off src = n ∷ poke ns i off src

unfoldable pub flat : List (List ℕ) → List ℕ
flat [] = []
flat (n ∷ ns) = n ++ flat ns
