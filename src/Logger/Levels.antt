-- ===== src/Logger/Levels.antt =====
-- The names of levels.
use dag.Common.{
  and_left, and_right, ℕ, ◌≡◌, ◌⊎◌, refl, ap, sym, ◌∙◌, true, List, [], ◌∷◌, ◌==◌, Bool-cases, inl,
  inr, ==_iff, if◌then◌else◌,
}
use dag.Logger.{Level, debug, info, error, fatal, unknown, to_string, from_string, same}

pub same→≡ : (xs ys : List ℕ) → same xs ys ≡ true → xs ≡ ys
same→≡ [] [] h = refl
same→≡ [] (y ∷ ys) h = absurd (cc h)
same→≡ (x ∷ xs) [] h = absurd (cc h)
same→≡ (x ∷ xs) (y ∷ ys) h =
    let e : x ≡ y = (==_iff x y).0 (and_left (x == y) (same xs ys) h) in
    ap (λ z. z ∷ xs) e ∙ ap (λ l. y ∷ l) (same→≡ xs ys (and_right (x == y) (same xs ys) h))

pub same_self : (xs : List ℕ) → same xs xs ≡ true
same_self [] = refl
same_self (x ∷ xs) = rw ((==_iff x x).1 refl) (same_self xs)

abbrev Reads : List ℕ → Level → Type 0
Reads name level = (level ≡ unknown) ⊎ (to_string level ≡ name)

Reads-if :
    (name : List ℕ) (level other : Level)
    → Reads name other
    → Reads name (if same name (to_string level) then level else other)
Reads-if name level other h = elim (Bool-cases (same name (to_string level))) [
  | inl e ↦ rw e (inr (sym (same→≡ name (to_string level) e)))
  | inr e ↦ rw e h
]

read_back : (level : Level) → from_string (to_string level) ≡ level
unfolding from_string
read_back debug = refl
read_back info = refl
read_back error = refl
read_back fatal = refl
read_back unknown = refl

-- `FromString` reads back what `ToString` prints, and a string that it reads as another level than
-- `UNKNOWN` is the one that `ToString` prints for that level.
pub from_string-to_string :
    ((level : Level) → from_string (to_string level) ≡ level)
    × ((name : List ℕ) → (from_string name ≡ unknown) ⊎ (to_string (from_string name) ≡ name))
unfolding from_string
from_string-to_string = (
  read_back,
  λ name.
      Reads-if name debug _
        (Reads-if name info _ (Reads-if name error _ (Reads-if name fatal unknown (inl refl)))),
)
