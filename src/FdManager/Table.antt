-- ===== src/FdManager/Table.antt =====
-- What `get` and `del` do to the table.
use dag.Common.{
  ℕ, zero, suc, ◌+◌, ◌-◌, ◌/◌, ◌≤◌, ◌<◌, ◌≡◌, ◌≢◌, refl, ap, ◌∙◌, Bool, true, false, leb, Option,
  some, none, [], ◌∷◌, ◌++◌, arith, le→leb, lt→leb, lt→ltb, le→ltb, ok, fault, length, set, take,
  replicate, length-append, length-take, length-replicate, take_all, get_elem?-set_self,
  get_elem?-set_ne, get_elem?_ge, Option-cases, inl, inr,
}
use native.Mathlib.Decide.{dec_le}
use dag.FdManager.{FdCtx, Stat, new_ctx, Datas, resize, data_at, create, get, del}

kept : Option (Option FdCtx) → Option FdCtx
kept o = elim o [ none ↦ none | some c ↦ c ]

absent : (xs : Datas) (j : ℕ) → length xs ≤ j → data_at xs j ≡ none
unfolding kept
absent xs j h = ap kept (get_elem?_ge xs j h)

-- More slots at the end hold nothing.
data_at-append : (xs : Datas) (k j : ℕ) → data_at (xs ++ replicate k none) j ≡ data_at xs j
data_at-append [] zero j = refl
data_at-append [] (suc k) zero = refl
data_at-append [] (suc k) (suc j) = data_at-append [] k j
data_at-append (x ∷ xs) k zero = refl
data_at-append (x ∷ xs) k (suc j) = data_at-append xs k j

data_at-resize :
    (n : ℕ) (xs : Datas) (j : ℕ) → length xs ≤ n → data_at (resize n xs) j ≡ data_at xs j
data_at-resize n xs j h =
    ap (λ l. data_at (l ++ replicate (n - length xs) none) j) (take_all n xs h)
    ∙ data_at-append xs (n - length xs) j

length-resize : (n : ℕ) (xs : Datas) → length xs ≤ n → length (resize n xs) ≡ n
length-resize n xs h = omega (
  arith,
  h,
  length-append (take n xs) (replicate {A = Option FdCtx} (n - length xs) none),
  length-take n xs,
  length-replicate {A = Option FdCtx} (n - length xs) none,
)

-- `n` is `xs` with `v` in the slot `fd`.
abbrev pub Stored : Datas → ℕ → Option FdCtx → Datas → Type 0
Stored xs fd v n = (data_at n fd ≡ v) × ((j : ℕ) → fd ≢ j → data_at n j ≡ data_at xs j)

set-Stored :
    (xs : Datas) (fd : ℕ) (v : Option FdCtx) → fd < length xs → Stored xs fd v (set xs fd v)
unfolding kept
set-Stored xs fd v h =
    (ap kept (get_elem?-set_self xs fd v h), λ j d. ap kept (get_elem?-set_ne xs fd j v d))

create-Stored :
    (xs : Datas) (fd : ℕ) (stat : Stat)
    → 2 ≤ length xs
    → (n : Datas) × (create xs fd stat ≡ ok (some (new_ctx fd stat), n))
      × Stored xs fd (some (new_ctx fd stat)) n
unfolding create
create-Stored xs fd stat two = elim (dec_le (length xs) fd) [
  | yes h ↦
      let size = fd + fd / 2 in
      let long = length-resize size xs (omega (arith, h)) in
      let inside : fd < length (resize size xs) = omega (arith, long, h, two) in
      let (here, others) = set-Stored (resize size xs) fd (some (new_ctx fd stat)) inside in
      (
        set (resize size xs) fd (some (new_ctx fd stat)),
        rw (le→leb (length xs) fd h, lt→ltb fd (length (resize size xs)) inside) refl,
        (here, λ j d. others j d ∙ data_at-resize size xs j (omega (arith, h))),
      )
  | no n ↦
      let inside : fd < length xs = omega (arith, n) in
      (
        set xs fd (some (new_ctx fd stat)),
        rw (lt→leb (length xs) fd inside, lt→ltb fd (length xs) inside) refl,
        set-Stored xs fd (some (new_ctx fd stat)) inside,
      )
]

-- With `auto_create`, a table of two slots or more and a descriptor of which nothing is kept, `get`
-- returns a new context of it and keeps that in its slot, also where it has to enlarge the table, and
-- changes no other slot.
pub get_created :
    (xs : Datas) (fd : ℕ) (stat : Stat)
    → 2 ≤ length xs
    → data_at xs fd ≡ none
    → (n : Datas) × (get xs (some fd) true stat ≡ ok (some (new_ctx fd stat), n))
      × Stored xs fd (some (new_ctx fd stat)) n
unfolding get
get_created xs fd stat two empty =
    let (n, run, stored) = create-Stored xs fd stat two in
    elim (dec_le (length xs) fd) [
      | yes h ↦ (n, rw (le→leb (length xs) fd h) run, stored)
      | no k ↦ (n, rw (lt→leb (length xs) fd (omega (arith, k)), empty) run, stored)
    ]

get_kept :
    (xs : Datas) (fd : ℕ) (auto_create : Bool) (stat : Stat) (c : FdCtx)
    → data_at xs fd ≡ some c
    → get xs (some fd) auto_create stat ≡ ok (some c, xs)
unfolding get
get_kept xs fd auto_create stat c e = elim (dec_le (length xs) fd) [
  | yes h ↦ absurd (cc (e, absent xs fd h))
  | no n ↦ rw (lt→leb (length xs) fd (omega (arith, n)), e) refl
]

-- With a table of two slots or more, `get` with `auto_create` returns a context, and another `get`
-- of the descriptor, with `auto_create` or not, returns the same one and changes nothing.
pub get-get :
    (xs : Datas) (fd : ℕ) (auto_create : Bool) (stat later : Stat)
    → 2 ≤ length xs
    → (n : Datas) × (c : FdCtx) × (get xs (some fd) true stat ≡ ok (some c, n))
      × (get n (some fd) auto_create later ≡ ok (some c, n))
get-get xs fd auto_create stat later two = elim (Option-cases (data_at xs fd)) [
  | inl e ↦
      let (n, run, stored) = get_created xs fd stat two e in
      (n, new_ctx fd stat, run, get_kept n fd auto_create later (new_ctx fd stat) stored.0)
  | inr (c, e) ↦ (xs, c, get_kept xs fd true stat c e, get_kept xs fd auto_create later c e)
]

-- `del` forgets the context of its descriptor and of no other, also for one beyond the table.
pub del-Stored : (xs : Datas) (fd : ℕ) → Stored xs fd none (del xs fd)
unfolding del
del-Stored xs fd = elim (dec_le (length xs) fd) [
  | yes h ↦ rw (le→leb (length xs) fd h) (absent xs fd h, λ j d. refl)
  | no n ↦ rw (lt→leb (length xs) fd (omega (arith, n))) (set-Stored xs fd none (omega (arith, n)))
]

-- With a descriptor 0 or 1 and a table of just that many slots, the table is not enlarged, and
-- `get` writes beyond its end.
pub get_small :
    (xs : Datas) (fd : ℕ) (stat : Stat)
    → fd ≤ 1
    → length xs ≡ fd
    → get xs (some fd) true stat ≡ fault
unfolding get create
get_small xs fd stat small e =
    let size = fd + fd / 2 in
    let long = length-resize size xs (omega (arith, e)) in
    rw
      (
        le→leb (length xs) fd (omega (arith, e)),
        le→ltb fd (length (resize size xs)) (omega (arith, long, small)),
      )
      refl

-- Without `auto_create` nothing is made.
pub get_lookup :
    (xs : Datas) (fd : ℕ) (stat : Stat) → get xs (some fd) false stat ≡ ok (data_at xs fd, xs)
unfolding get
get_lookup xs fd stat = elim (dec_le (length xs) fd) [
  | yes h ↦ rw (le→leb (length xs) fd h, absent xs fd h) refl
  | no n ↦
      let inside : (leb (length xs) fd) ≡ false = lt→leb (length xs) fd (omega (arith, n)) in
      elim (Option-cases (data_at xs fd)) [
        | inl e ↦ rw (inside, e) refl
        | inr (c, e) ↦ rw (inside, e) refl
      ]
]

-- A context that is kept can be replaced.
pub data_at-set :
    (xs : Datas) (fd : ℕ) (c new : FdCtx)
    → data_at xs fd ≡ some c
    → Stored xs fd (some new) (set xs fd (some new))
data_at-set xs fd c new e = elim (dec_le (length xs) fd) [
  | yes h ↦ absurd (cc (e, absent xs fd h))
  | no n ↦ set-Stored xs fd (some new) (omega (arith, n))
]
