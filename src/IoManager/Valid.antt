-- ===== src/IoManager/Valid.antt =====
-- The invariant of the table of descriptors, and what a change of one slot does to it.
use dag.Common.{
  ℕ, zero, suc, ◌+◌, ◌-◌, ◌*◌, ◌^◌, ◌≤◌, ◌<◌, ◌≡◌, refl, sym, ap, subst, ◌∙◌, ◌⊎◌, inl, inr, List,
  [], ◌∷◌, Option, some, none, arith, Bool, true, false, ◌&&◌, ◌||◌, is_some, length, get_elem?,
  set, length-set, get_elem?-set_self, get_elem?-set_ne, if◌then◌else◌, get_elem?_lt,
}
use native.Mathlib.Decide.{ℕ_discrete}
use dag.IoManager.{
  Event, on_read, on_write, Events, EventContext, FdContext, IoManager, no_events, has_event,
  with_event, without_event, new_context, resize_from, decrement, increment, get_event_context,
  set_event_context, empty_context, reset_event_context,
}

-- An event context is in use exactly if the event's bit is set: it has a scheduler and either a fiber
-- or a callback, and else it is empty.
pub record Slot (c : EventContext) (b : Bool) : Type 0 where
  pub has_scheduler : is_some c.scheduler ≡ b
  pub has_task : (is_some c.cb || is_some c.fiber) ≡ b
  pub one_task : (is_some c.cb && is_some c.fiber) ≡ false

pub record Coherent (ctx : FdContext) : Type 0 where
  pub slot : (event : Event) → Slot (get_event_context ctx event) (has_event ctx.events event)

abbrev pub bit : Bool → ℕ
bit b = if b then 1 else 0

abbrev pub count : Events → ℕ
count events = bit events.reads + bit events.writes

abbrev pub registered : List FdContext → ℕ
registered [] = 0
registered (x ∷ xs) = count x.events + registered xs

-- Each slot is coherent and has its own number, and the pending count is the number of bits set.
pub record Table (contexts : List FdContext) (pending : ℕ) : Type 0 where
  pub coherent :
      (fd : ℕ) (ctx : FdContext) → get_elem? contexts fd ≡ some ctx → Coherent ctx × (ctx.fd ≡ fd)
  pub counted : pending ≡ registered contexts
  pub bounded : length contexts ≤ 2 ^ 32

abbrev pub IsValid : IoManager → Type 0
IsValid m = Table m.contexts m.pending

count-with :
    (e : Events) (event : Event)
    → has_event e event ≡ false
    → count (with_event e event) ≡ suc (count e)
count-with e on_read h = ground arith
count-with e on_write h = ground arith

count-without :
    (e : Events) (event : Event)
    → has_event e event ≡ true
    → suc (count (without_event e event)) ≡ count e
count-without e on_read h = ground arith
count-without e on_write h = ground arith

registered-bound : (xs : List FdContext) → registered xs ≤ 2 * length xs
registered-bound [] = ground arith
registered-bound (x ∷ xs) = ground (arith, registered-bound xs)

registered-set :
    (xs : List FdContext) (i : ℕ) (x y : FdContext)
    → get_elem? xs i ≡ some x
    → registered (set xs i y) + count x.events ≡ registered xs + count y.events
registered-set [] i x y h = absurd (cc h)
registered-set (z ∷ xs) zero x y h =
    let same : z ≡ x = cc h in
    subst
      (λ (w : FdContext).
        count y.events + registered xs + count w.events
        ≡ count z.events + registered xs + count y.events)
      same (omega arith)
registered-set (z ∷ xs) (suc i) x y h = omega (arith, registered-set xs i x y h)

pub decrement-suc : (n : ℕ) → 0 < n → n < 2 ^ 64 → suc (decrement n) ≡ n
decrement-suc n h k = omega arith

pub increment-suc : (n : ℕ) → n < 2 ^ 64 - 1 → increment n ≡ suc n
increment-suc n h = omega arith

pub get_elem?-lt :
    (xs : List FdContext) (i : ℕ) (x : FdContext) → get_elem? xs i ≡ some x → i < length xs
get_elem?-lt [] i x h = absurd (cc h)
get_elem?-lt (z ∷ xs) zero x h = omega arith
get_elem?-lt (z ∷ xs) (suc i) x h = omega (arith, get_elem?-lt xs i x h)

-- A slot changed, and the count with it.
pub set-Table :
    (xs : List FdContext) (p q i : ℕ) (x y : FdContext)
    → Table xs p
    → get_elem? xs i ≡ some x
    → Coherent y
    → y.fd ≡ x.fd
    → q + count x.events ≡ p + count y.events
    → Table (set xs i y) q
set-Table xs p q i x y t e c f h = record {
  coherent = λ fd ctx g. elim (ℕ_discrete i fd) [
    | yes s ↦
        let same : y ≡ ctx = cc (
          g,
          get_elem?-set_self xs fd y
              (get_elem?-lt xs fd x (subst (λ j. get_elem? xs j ≡ some x) s e)),
          ap (λ j. get_elem? (set xs j y) fd) s,
        ) in
        subst (λ c. Coherent c × (c.fd ≡ fd)) same (c, f ∙ (t.coherent i x e).1 ∙ s)
    | no n ↦ t.coherent fd ctx (sym (get_elem?-set_ne xs i fd y n) ∙ g)
  ];
  counted = omega (arith, h, t.counted, registered-set xs i x y e);
  bounded = omega (arith, t.bounded, length-set xs i y);
}

resize_from-length : (i n : ℕ) (xs : List FdContext) → length (resize_from i n xs) ≡ n
unfolding resize_from
resize_from-length i zero xs = refl
resize_from-length i (suc n) [] = ap suc (resize_from-length (i + 1) n [])
resize_from-length i (suc n) (x ∷ xs) = ap suc (resize_from-length (i + 1) n xs)

resize_from-registered :
    (i n : ℕ) (xs : List FdContext)
    → length xs ≤ n
    → registered (resize_from i n xs) ≡ registered xs
unfolding resize_from
resize_from-registered i zero [] h = refl
resize_from-registered i zero (x ∷ xs) h = absurd (omega (arith, h))
resize_from-registered i (suc n) [] h =
    omega (arith, resize_from-registered (i + 1) n [] (omega arith))
resize_from-registered i (suc n) (x ∷ xs) h =
    ap (count x.events +◌) (resize_from-registered (i + 1) n xs (omega (arith, h)))

-- A slot of the larger table is one of the smaller, or a new one of its own number.
resize_from-slot :
    (i n : ℕ) (xs : List FdContext) (j : ℕ) (ctx : FdContext)
    → get_elem? (resize_from i n xs) j ≡ some ctx
    → (get_elem? xs j ≡ some ctx) ⊎ ((get_elem? xs j ≡ none) × (ctx ≡ new_context (i + j)))
unfolding resize_from
resize_from-slot i zero xs j ctx h = absurd (cc h)
resize_from-slot i (suc n) [] zero ctx h =
    inr (refl, (let e : ctx ≡ new_context i = cc h in e ∙ ap new_context (omega arith)))
resize_from-slot i (suc n) [] (suc j) ctx h = elim (resize_from-slot (i + 1) n [] j ctx h) [
  | inl e ↦ absurd (cc e)
  | inr (e, f) ↦ inr (refl, f ∙ ap new_context (omega arith))
]
resize_from-slot i (suc n) (x ∷ xs) zero ctx h = inl h
resize_from-slot i (suc n) (x ∷ xs) (suc j) ctx h = elim (resize_from-slot (i + 1) n xs j ctx h) [
  | inl e ↦ inl e
  | inr (e, f) ↦ inr (e, f ∙ ap new_context (omega arith))
]

abbrev pub events_of : Option FdContext → Events
events_of none = no_events
events_of (some ctx) = ctx.events

pub resize_from-events :
    (i n : ℕ) (xs : List FdContext) (j : ℕ)
    → length xs ≤ n
    → events_of (get_elem? (resize_from i n xs) j) ≡ events_of (get_elem? xs j)
unfolding resize_from
resize_from-events i zero [] j h = refl
resize_from-events i zero (x ∷ xs) j h = absurd (omega (arith, h))
resize_from-events i (suc n) [] zero h = refl
resize_from-events i (suc n) [] (suc j) h = resize_from-events (i + 1) n [] j (omega arith)
resize_from-events i (suc n) (x ∷ xs) zero h = refl
resize_from-events i (suc n) (x ∷ xs) (suc j) h =
    resize_from-events (i + 1) n xs j (omega (arith, h))

pub resize_from-there :
    (n : ℕ) (xs : List FdContext) (j : ℕ)
    → j < n
    → (ctx : FdContext) × (get_elem? (resize_from 0 n xs) j ≡ some ctx)
resize_from-there n xs j h =
    get_elem?_lt (resize_from 0 n xs) j (omega (arith, h, resize_from-length 0 n xs))

empty_Slot : Slot empty_context false
empty_Slot = record { has_scheduler = refl; has_task = refl; one_task = refl }

new_context-Coherent : (fd : ℕ) → Coherent (new_context fd)
new_context-Coherent fd = record { slot = elim [ on_read ↦ empty_Slot | on_write ↦ empty_Slot ] }

pub resize-Table :
    (xs : List FdContext) (p n : ℕ)
    → Table xs p
    → length xs ≤ n
    → n ≤ 2 ^ 32
    → Table (resize_from 0 n xs) p
resize-Table xs p n t h k = record {
  coherent = λ fd ctx g. elim (resize_from-slot 0 n xs fd ctx g) [
    | inl e ↦ t.coherent fd ctx e
    | inr (e, f) ↦
        subst (λ c. Coherent c × (c.fd ≡ fd)) (sym f) (new_context-Coherent (0 + fd), omega arith)
  ];
  counted = t.counted ∙ sym (resize_from-registered 0 n xs h);
  bounded = subst (λ l. l ≤ 2 ^ 32) (sym (resize_from-length 0 n xs)) k;
}

pub reset-Coherent :
    (ctx : FdContext) (event : Event)
    → Coherent ctx
    → Coherent (reset_event_context (record ctx { events = without_event ctx.events event }) event)
reset-Coherent ctx on_read c = record {
  slot = elim [ on_read ↦ empty_Slot | on_write ↦ c.slot on_write ];
}
reset-Coherent ctx on_write c = record {
  slot = elim [ on_read ↦ c.slot on_read | on_write ↦ empty_Slot ];
}

pub add-Coherent :
    (ctx : FdContext) (event : Event) (added : EventContext)
    → Coherent ctx
    → Slot added true
    → Coherent (set_event_context (record ctx { events = with_event ctx.events event }) event added)
add-Coherent ctx on_read added c s = record {
  slot = elim [ on_read ↦ s | on_write ↦ c.slot on_write ];
}
add-Coherent ctx on_write added c s = record {
  slot = elim [ on_read ↦ c.slot on_read | on_write ↦ s ];
}

pub set_event_context-kept :
    (ctx : FdContext) (event : Event) (c : EventContext)
    → ((set_event_context ctx event c).fd ≡ ctx.fd)
      × ((set_event_context ctx event c).events ≡ ctx.events)
set_event_context-kept ctx on_read c = (refl, refl)
set_event_context-kept ctx on_write c = (refl, refl)

-- One event less, or more, in a slot.
pub drop-Table :
    (xs : List FdContext) (p i : ℕ) (x : FdContext) (event : Event)
    → Table xs p
    → get_elem? xs i ≡ some x
    → has_event x.events event ≡ true
    → (suc (decrement p) ≡ p)
      × Table
          (set xs i
            (reset_event_context (record x { events = without_event x.events event }) event))
          (decrement p)
drop-Table xs p i x event t e h =
    let y = reset_event_context (record x { events = without_event x.events event }) event in
    let less : suc (count (without_event x.events event)) ≡ count x.events =
      count-without x.events event h in
    let some_event : 0 < p = omega (
      arith,
      less,
      t.counted,
      registered-set xs i x (record x { events = without_event x.events event }) e,
    ) in
    let one : suc (decrement p) ≡ p =
      decrement-suc p some_event (omega (arith, t.counted, t.bounded, registered-bound xs)) in
    let kept =
      set_event_context-kept (record x { events = without_event x.events event }) event
        empty_context in
    (
      one,
      set-Table xs p (decrement p) i x y t e (reset-Coherent x event (t.coherent i x e).0) kept.0
          (omega (arith, less, one, ap count kept.1)),
    )

pub add-Table :
    (xs : List FdContext) (p i : ℕ) (x : FdContext) (event : Event) (added : EventContext)
    → Table xs p
    → get_elem? xs i ≡ some x
    → has_event x.events event ≡ false
    → Slot added true
    → (increment p ≡ suc p)
      × Table
          (set xs i
            (set_event_context (record x { events = with_event x.events event }) event added))
          (increment p)
add-Table xs p i x event added t e h s =
    let more : count (with_event x.events event) ≡ suc (count x.events) =
      count-with x.events event h in
    let one : increment p ≡ suc p =
      increment-suc p (omega (arith, t.counted, t.bounded, registered-bound xs)) in
    let kept =
      set_event_context-kept (record x { events = with_event x.events event }) event added in
    (
      one,
      set-Table xs p (increment p) i x _ t e (add-Coherent x event added (t.coherent i x e).0 s)
          kept.0 (omega (arith, more, one, ap count kept.1)),
    )
