-- ===== src/Common/Effects.antt =====
-- What a C++ call can do: return, throw, fail an assertion, or go where the language gives no
-- meaning (`fault`: a null or dangling dereference). `stuck` is no C++ outcome: fuel ran out.
use mathlib.Core.Path.{◌≡◌, refl}
use mathlib.Core.Bool.{Bool, true, false}
use mathlib.Core.Option.{Option, none, some}

pub data Outcome {ℓ} (A : Type ℓ) : Type ℓ where
  ok : A → Outcome A
  out_of_range : Outcome A
  assert_failed : Outcome A
  fault : Outcome A
  stuck : Outcome A

infixl 5 ◌>>=◌ ◌>>◌
abbrev pub ◌>>=◌ {ℓ κ} : {A : Type ℓ} {B : Type κ} → Outcome A → (A → Outcome B) → Outcome B
ok a >>= f = f a
out_of_range >>= f = out_of_range
assert_failed >>= f = assert_failed
fault >>= f = fault
stuck >>= f = stuck

abbrev pub ◌>>◌ {ℓ} : {B : Type ℓ} → Outcome (Unit {0}) → Outcome B → Outcome B
m >> k = m >>= λ _. k

-- `assert(b)`
abbrev pub assert : Bool → Outcome (Unit {0})
assert true = ok tt
assert false = assert_failed

-- A dereference.
abbrev pub deref {ℓ} : {A : Type ℓ} → Option A → Outcome A
deref none = fault
deref (some a) = ok a

-- What a chain that returns went through.
pub bind-ok {ℓ κ} :
    {A : Type ℓ} {B : Type κ} (o : Outcome A) (f : A → Outcome B) (b : B)
    → (o >>= f) ≡ ok b
    → (a : A) × (o ≡ ok a) × (f a ≡ ok b)
bind-ok (ok a) f b h = (a, refl, h)
bind-ok out_of_range f b h = absurd (cc h)
bind-ok assert_failed f b h = absurd (cc h)
bind-ok fault f b h = absurd (cc h)
bind-ok stuck f b h = absurd (cc h)

pub bind-deref {ℓ κ} :
    {A : Type ℓ} {B : Type κ} (o : Option A) (f : A → Outcome B) (b : B)
    → (deref o >>= f) ≡ ok b
    → (a : A) × (o ≡ some a) × (f a ≡ ok b)
bind-deref none f b h = absurd (cc h)
bind-deref (some a) f b h = (a, refl, h)
