-- ===== src/Address/Order.antt =====
-- The order of addresses and their equality, against the lexicographic order of their bytes.
use dag.Common.{
  ℕ, suc, ◌≡◌, refl, ap, ◌∙◌, Bool, true, false, ◌&&◌, List, [], ◌∷◌, length, ltb, ◌==◌,
  if◌then◌else◌, Bool-cases, lt→ltb, le→ltb, ne→==, inl, inr, arith,
}
use dag.Address.{memcmp, is_less, less, equals, is_same}

-- The lexicographic order: a list goes before each longer one that it begins.
abbrev pub precedes : List ℕ → List ℕ → Bool
precedes [] [] = false
precedes [] (y ∷ ys) = true
precedes (x ∷ xs) [] = false
precedes (x ∷ xs) (y ∷ ys) = if ltb x y then true else if ltb y x then false else precedes xs ys

-- The same elements in the same places.
abbrev pub matches : List ℕ → List ℕ → Bool
matches [] [] = true
matches [] (y ∷ ys) = false
matches (x ∷ xs) [] = false
matches (x ∷ xs) (y ∷ ys) = (x == y) && matches xs ys

ltb-suc : (a b : ℕ) → ltb (suc a) (suc b) ≡ ltb a b
ltb-suc a b = ground arith

==-suc : (a b : ℕ) → (suc a == suc b) ≡ (a == b)
==-suc a b = ground arith

equal_of : (x y : ℕ) → ltb x y ≡ false → ltb y x ≡ false → (x == y) ≡ true
equal_of x y h k = ground arith

unequal_below : (x y : ℕ) → ltb x y ≡ true → (x == y) ≡ false
unequal_below x y h = ground arith

unequal_above : (x y : ℕ) → ltb y x ≡ true → (x == y) ≡ false
unequal_above x y h = ground arith

and_false : (a : Bool) → a && false ≡ false
and_false true = refl
and_false false = refl

-- The order of addresses is the lexicographic order of their bytes, and two addresses are equal just if they
-- have the same bytes.
pub less_lem : (l r : List ℕ) → (less l r ≡ precedes l r) × (equals l r ≡ matches l r)
unfolding less equals memcmp
less_lem [] [] = (refl, refl)
less_lem [] (y ∷ ys) = (
  lt→ltb 0 (suc (length ys)) (omega arith),
  ap (λ b. b && true) (ne→== 0 (suc (length ys)) (λ e. omega (arith, e))),
)
less_lem (x ∷ xs) [] = (
  le→ltb (suc (length xs)) 0 (omega arith),
  ap (λ b. b && true) (ne→== (suc (length xs)) 0 (λ e. omega (arith, e))),
)
less_lem (x ∷ xs) (y ∷ ys) =
    let (order, equal) = less_lem xs ys in
    let shorter = ltb-suc (length xs) (length ys) in
    let alike = ==-suc (length xs) (length ys) in
    elim (Bool-cases (ltb x y)) [
      | inl e ↦ (rw e refl, rw (e, unequal_below x y e) (and_false _))
      | inr e ↦ elim (Bool-cases (ltb y x)) [
        | inl e2 ↦ (rw (e, e2) refl, rw (e, e2, unequal_above x y e2) (and_false _))
        | inr e2 ↦ (
          rw (e, e2) (ap (is_less (memcmp xs ys)) shorter ∙ order),
          rw (e, e2, equal_of x y e e2) (ap (λ b. b && is_same (memcmp xs ys)) alike ∙ equal),
        )
      ]
    ]
