-- ===== src/Timer/Order.antt =====
-- The set as a strictly sorted list.
use dag.Common.{
  ℕ, ◌≤◌, ◌<◌, ◌≡◌, sym, ap, subst, ◌∙◌, ◌⊎◌, inl, inr, List, [], ◌∷◌, some, arith, ◌==◌, update,
  update_ne, ==_iff, eq→==, if_split,
}
use mathlib.Core.Bool.{false≢true}
use dag.Timer.{Timer, less, insert, find, erase}

-- Every timer of the list is due after `n`.
abbrev pub Above : (ℕ → Timer) → ℕ → List ℕ → Type 0
Above f n [] = Unit
Above f n (x ∷ xs) = (n < (f x).next) × Above f n xs

abbrev pub Sorted : (ℕ → Timer) → List ℕ → Type 0
Sorted f [] = Unit
Sorted f (x ∷ xs) = Above f (f x).next xs × Sorted f xs

abbrev pub Has : ℕ → List ℕ → Type 0
Has id [] = ⊥
Has id (x ∷ xs) = (x ≡ id) ⊎ Has id xs

pub Above-mono : (f : ℕ → Timer) (n m : ℕ) (xs : List ℕ) → m ≤ n → Above f n xs → Above f m xs
Above-mono f n m [] h a = tt
Above-mono f n m (x ∷ xs) h a = (omega (arith, a.0), Above-mono f n m xs h a.1)

pub Above-Has :
    (f : ℕ → Timer) (n : ℕ) (xs : List ℕ) (id : ℕ) → Above f n xs → Has id xs → n < (f id).next
Above-Has f n [] id a h = absurd h
Above-Has f n (x ∷ xs) id a (inl e) = ground (arith, a.0)
Above-Has f n (x ∷ xs) id a (inr h) = Above-Has f n xs id a.1 h

-- A list does not see a change of a timer that is not in it.
pub Above-update :
    (f : ℕ → Timer) (n : ℕ) (id : ℕ) (t : Timer) (xs : List ℕ)
    → ¬ Has id xs
    → Above f n xs
    → Above (update f id t) n xs
Above-update f n id t [] h a = tt
Above-update f n id t (x ∷ xs) h a = (
  subst (λ (u : Timer). n < u.next) (sym (update_ne f id t x (λ e. h (inl (sym e))))) a.0,
  Above-update f n id t xs (λ k. h (inr k)) a.1,
)

pub Sorted-update :
    (f : ℕ → Timer) (id : ℕ) (t : Timer) (xs : List ℕ)
    → ¬ Has id xs
    → Sorted f xs
    → Sorted (update f id t) xs
Sorted-update f id t [] h s = tt
Sorted-update f id t (x ∷ xs) h s = (
  subst (λ (u : Timer). Above (update f id t) u.next xs)
      (sym (update_ne f id t x (λ e. h (inl (sym e)))))
      (Above-update f (f x).next id t xs (λ k. h (inr k)) s.0),
  Sorted-update f id t xs (λ k. h (inr k)) s.1,
)

insert-Above :
    (f : ℕ → Timer) (id n : ℕ) (xs : List ℕ)
    → n < (f id).next
    → Above f n xs
    → Above f n (insert f id xs)
unfolding insert
insert-Above f id n [] h a = (h, tt)
insert-Above f id n (x ∷ xs) h a = ground (arith, insert-Above f id n xs h a.1)

-- `insert` keeps the order strict.
pub insert-Sorted : (f : ℕ → Timer) (id : ℕ) (xs : List ℕ) → Sorted f xs → Sorted f (insert f id xs)
unfolding insert
insert-Sorted f id [] s = (tt, tt)
insert-Sorted f id (x ∷ xs) s = ground (
  arith,
  insert-Sorted f id xs s.1,
  insert-Above f id (f x).next xs,
  Above-mono f (f x).next (f id).next xs,
)

erase-Above : (f : ℕ → Timer) (id n : ℕ) (xs : List ℕ) → Above f n xs → Above f n (erase id xs)
unfolding erase
erase-Above f id n [] a = tt
erase-Above f id n (x ∷ xs) a = ground (arith, erase-Above f id n xs a.1)

pub erase-Sorted : (f : ℕ → Timer) (id : ℕ) (xs : List ℕ) → Sorted f xs → Sorted f (erase id xs)
unfolding erase
erase-Sorted f id [] s = tt
erase-Sorted f id (x ∷ xs) s =
    ground (arith, erase-Sorted f id xs s.1, erase-Above f id (f x).next xs s.0)

pub Has-erase : (id y : ℕ) (xs : List ℕ) → Has y (erase id xs) → Has y xs
unfolding erase
Has-erase id y [] h = h
Has-erase id y (x ∷ xs) h = elim (if_split (Has y) (x == id) h) [
  | inl (_, p) ↦ inr p
  | inr (_, inl p) ↦ inl p
  | inr (_, inr p) ↦ inr (Has-erase id y xs p)
]

pub Has-insert :
    (f : ℕ → Timer) (id y : ℕ) (xs : List ℕ) → Has y (insert f id xs) → (id ≡ y) ⊎ Has y xs
unfolding insert
Has-insert f id y [] h = h
Has-insert f id y (x ∷ xs) h = elim (if_split (Has y) (less (f x) (f id)) h) [
  | inl (_, inl p) ↦ inr (inl p)
  | inl (_, inr p) ↦ elim (Has-insert f id y xs p) [ inl q ↦ inl q | inr q ↦ inr (inr q) ]
  | inr (_, p) ↦ elim (if_split (Has y) (less (f id) (f x)) p) [
    | inl (_, q) ↦ q
    | inr (_, q) ↦ inr q
  ]
]

-- A strictly sorted list holds a timer at most once.
pub not-Has-Above : (f : ℕ → Timer) (x : ℕ) (xs : List ℕ) → Above f (f x).next xs → ¬ Has x xs
not-Has-Above f x xs a h = absurd (omega (arith, Above-Has f (f x).next xs x a h))

pub not-Has-erase : (f : ℕ → Timer) (id : ℕ) (xs : List ℕ) → Sorted f xs → ¬ Has id (erase id xs)
unfolding erase
not-Has-erase f id [] s h = h
not-Has-erase f id (x ∷ xs) s h = elim (if_split (Has id) (x == id) h) [
  | inl (e, p) ↦
      not-Has-Above f id xs (subst (λ y. Above f (f y).next xs) ((==_iff x id).0 e) s.0) p
  | inr (e, inl p) ↦ absurd (false≢true (sym e ∙ eq→== x id p))
  | inr (e, inr p) ↦ not-Has-erase f id xs s.1 p
]

find_equal :
    (f : ℕ → Timer) (id x : ℕ) (xs : List ℕ)
    → (f x).next ≡ (f id).next
    → find f id (x ∷ xs) ≡ some x
unfolding find
find_equal f id x xs e = ground arith

find_later :
    (f : ℕ → Timer) (id x : ℕ) (xs : List ℕ)
    → (f x).next < (f id).next
    → find f id (x ∷ xs) ≡ find f id xs
unfolding find
find_later f id x xs e = ground arith

-- In a strictly sorted list `find` returns the very timer, if it is there.
pub find-Has :
    (f : ℕ → Timer) (id : ℕ) (xs : List ℕ) → Sorted f xs → Has id xs → find f id xs ≡ some id
find-Has f id [] s h = absurd h
find-Has f id (x ∷ xs) s (inl e) = find_equal f id x xs (ap (λ i. (f i).next) e) ∙ ap some e
find-Has f id (x ∷ xs) s (inr h) =
    find_later f id x xs (Above-Has f (f x).next xs id s.0 h) ∙ find-Has f id xs s.1 h

pub Has-find : (f : ℕ → Timer) (id x : ℕ) (xs : List ℕ) → find f id xs ≡ some x → Has x xs
unfolding find
Has-find f id x [] e = absurd (cc e)
Has-find f id x (y ∷ xs) e = elim (if_split (λ o. o ≡ some x) (less (f y) (f id)) e) [
  | inl (_, p) ↦ inr (Has-find f id x xs p)
  | inr (_, p) ↦ elim (if_split (λ o. o ≡ some x) (less (f id) (f y)) p) [
    | inl (_, q) ↦ absurd (cc q)
    | inr (_, q) ↦ inl (cc q)
  ]
]
