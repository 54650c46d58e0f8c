-- ===== src/Timer/Invariant.antt =====
-- The manager's invariant, and that every operation keeps it.
use dag.Common.{
  ℕ, ◌+◌, ◌<◌, ◌≡◌, ◌≢◌, refl, sym, ap, subst, ◌∙◌, inl, inr, List, [], ◌∷◌, Option, some, none,
  arith, ◌==◌, Bool, true, not, ◌&&◌, update, update_ne, update_self, is_some, Bool-cases,
  Option-cases,
}
use native.Mathlib.Decide.{ℕ_discrete}
use dag.Timer.{
  Timer, TimerManager, later, insert, find, erase, erase_found, init, cancel, refresh, reset,
  add_timer_ptr, add_timer, fire,
}
use dag.Timer.Order.{
  Above, Sorted, Has, Sorted-update, insert-Sorted, erase-Sorted, Has-erase, Has-insert,
  not-Has-Above, not-Has-erase, find-Has,
}

-- The set is strictly sorted by deadline, holds timers that exist, and each has a callback.
pub record Inv (m : TimerManager) : Type 0 where
  pub sorted : Sorted m.store m.timers
  pub live : (id : ℕ) → Has id m.timers → is_some (m.store id).cb ≡ true
  pub known : (id : ℕ) → Has id m.timers → id < m.allocated

pub init-Inv : (now : ℕ) → Inv (init now)
unfolding init
init-Inv now = record { sorted = tt; live = λ id h. absurd h; known = λ id h. absurd h }

-- Only deadlines matter to the order.
Above-next :
    (f g : ℕ → Timer) (n : ℕ) (xs : List ℕ)
    → ((y : ℕ) → (g y).next ≡ (f y).next)
    → Above f n xs
    → Above g n xs
Above-next f g n [] e a = tt
Above-next f g n (x ∷ xs) e a = (omega (arith, a.0, e x), Above-next f g n xs e a.1)

Sorted-next :
    (f g : ℕ → Timer) (xs : List ℕ)
    → ((y : ℕ) → (g y).next ≡ (f y).next)
    → Sorted f xs
    → Sorted g xs
Sorted-next f g [] e s = tt
Sorted-next f g (x ∷ xs) e s = (
  subst (λ n. Above g n xs) (sym (e x)) (Above-next f g (f x).next xs e s.0),
  Sorted-next f g xs e s.1,
)

cleared_next :
    (f : ℕ → Timer) (id y : ℕ) → (update f id (record (f id) { cb = none }) y).next ≡ (f y).next
cleared_next f id y = elim (ℕ_discrete id y) [
  | yes e ↦
      subst (λ z. (update f id (record (f id) { cb = none }) z).next ≡ (f z).next) e
        (ap (λ (t : Timer). t.next) (update_self f id (record (f id) { cb = none })))
  | no n ↦ ap (λ (t : Timer). t.next) (update_ne f id _ y n)
]

module _ {m : TimerManager} (inv : Inv m) (id : ℕ) where
  abbrev cleared : TimerManager
  cleared = record m { store = update m.store id (record (m.store id) { cb = none }) }

  cleared-Sorted : Sorted cleared.store m.timers
  cleared-Sorted = Sorted-next m.store cleared.store m.timers (cleared_next m.store id) inv.sorted

  cleared_live : (y : ℕ) → id ≢ y → Has y m.timers → is_some (cleared.store y).cb ≡ true
  cleared_live y n h = ap (λ (t : Timer). is_some t.cb) (update_ne m.store id _ y n) ∙ inv.live y h

  erase_found-Inv :
      (o : Option ℕ) → find cleared.store id m.timers ≡ o → Inv (erase_found cleared o)
  erase_found-Inv none e = record {
    sorted = cleared-Sorted;
    live = λ y h.
        cleared_live y
          (λ p. cc (
            e,
            find-Has cleared.store id m.timers cleared-Sorted
                (subst (λ z. Has z m.timers) (sym p) h),
          ))
          h;
    known = inv.known;
  }
  erase_found-Inv (some x) e = record {
    sorted = erase-Sorted cleared.store x m.timers cleared-Sorted;
    live = λ y h.
        cleared_live y (λ p. gone (subst (λ z. Has z (erase x m.timers)) (sym p) h))
          (Has-erase x y m.timers h);
    known = λ y h. inv.known y (Has-erase x y m.timers h);
  }
    where
      gone : ¬ Has id (erase x m.timers)
      gone h =
          let hit : x ≡ id =
            cc (e, find-Has cleared.store id m.timers cleared-Sorted (Has-erase x id m.timers h)) in
          not-Has-erase cleared.store id m.timers cleared-Sorted
            (subst (λ z. Has id (erase z m.timers)) hit h)

  -- `cancel` keeps the invariant: the set is strictly sorted by
  -- deadline, and its timers exist and have a callback.
  pub cancel-Inv : Inv (cancel m id).1
  unfolding cancel
  cancel-Inv = elim (Bool-cases (is_some (m.store id).cb)) [
    | inl e ↦ rw e (erase_found-Inv _ refl)
    | inr e ↦ rw e inv
  ]

  gone : (x : ℕ) → find m.store id m.timers ≡ some x → ¬ Has id (erase x m.timers)
  gone x e h =
      let hit : x ≡ id =
        cc (e, find-Has m.store id m.timers inv.sorted (Has-erase x id m.timers h)) in
      not-Has-erase m.store id m.timers inv.sorted (subst (λ z. Has id (erase z m.timers)) hit h)

-- A timer that the list does not hold, changed and put in.
reinsert-Inv :
    (m : TimerManager) (id : ℕ) (t : Timer) (xs : List ℕ)
    → ¬ Has id xs
    → Sorted m.store xs
    → ((y : ℕ) → Has y xs → is_some (m.store y).cb ≡ true)
    → ((y : ℕ) → Has y xs → y < m.allocated)
    → is_some t.cb ≡ true
    → id < m.allocated
    → Inv (record m { timers = insert (update m.store id t) id xs; store = update m.store id t })
reinsert-Inv m id t xs out s live known lt hid = record {
  sorted = insert-Sorted store id xs (Sorted-update m.store id t xs out s);
  live = λ y h. elim (Has-insert store id y xs h) [
    | inl e ↦ subst (λ z. is_some (store z).cb ≡ true) e (here lt)
    | inr k ↦
        ap (λ (u : Timer). is_some u.cb)
          (update_ne m.store id t y (λ e. out (subst (λ z. Has z xs) (sym e) k)))
        ∙ live y k
  ];
  known = λ y h. elim (Has-insert store id y xs h) [
    | inl e ↦ subst (λ z. z < m.allocated) e hid
    | inr k ↦ known y k
  ];
}
  where
    store : ℕ → Timer
    store = update m.store id t

    here : is_some t.cb ≡ true → is_some (store id).cb ≡ true
    here p = ap (λ (u : Timer). is_some u.cb) (update_self m.store id t) ∙ p

module _ {m : TimerManager} (inv : Inv m) (id : ℕ) (known : id < m.allocated) where
  moved-Inv :
      (x : ℕ) (t : Timer)
      → find m.store id m.timers ≡ some x
      → is_some t.cb ≡ true
      → Inv (record m {
        timers = insert (update m.store id t) id (erase x m.timers);
        store = update m.store id t;
      })
  moved-Inv x t e lt =
      reinsert-Inv m id t (erase x m.timers) (gone inv id x e)
        (erase-Sorted m.store x m.timers inv.sorted) (λ y h. inv.live y (Has-erase x y m.timers h))
        (λ y h. inv.known y (Has-erase x y m.timers h)) lt known

  -- `refresh` of a timer that the manager made keeps the invariant, at any time.
  pub refresh-Inv : (now : ℕ) → Inv (refresh m id now).1
  unfolding refresh
  refresh-Inv now = elim (Bool-cases (is_some (m.store id).cb)) [
    | inr e ↦ rw e inv
    | inl e ↦ elim (Option-cases (find m.store id m.timers)) [
      | inl n ↦ rw (e, n) inv
      | inr (x, h) ↦ rw (e, h) (moved-Inv x _ h e)
    ]
  ]

  retouch : (t : Bool) {n : TimerManager} → Inv n → Inv (record n { tickled = t })
  retouch t v = record { sorted = v.sorted; live = v.live; known = v.known }

  -- `reset` of a timer that the manager made keeps the invariant, for any period, from now or from
  -- the last start.
  pub reset-Inv : (ms : ℕ) (from_now : Bool) (now : ℕ) → Inv (reset m id ms from_now now).2
  unfolding reset add_timer_ptr
  reset-Inv ms from_now now = elim (Bool-cases ((ms == (m.store id).ms) && not from_now)) [
    | inl s ↦ rw s inv
    | inr s ↦ elim (Bool-cases (is_some (m.store id).cb)) [
      | inr e ↦ rw (s, e) inv
      | inl e ↦ elim (Option-cases (find m.store id m.timers)) [
        | inl n ↦ rw (s, e, n) inv
        | inr (x, h) ↦ rw (s, e, h) (retouch _ (moved-Inv x _ h e))
      ]
    ]
  ]

-- `addTimer` with a callback keeps the invariant, for any period, recurring or not.
pub add_timer-Inv :
    {m : TimerManager} (ms cb : ℕ) (recurring : Bool) (now : ℕ)
    → Inv m
    → Inv (add_timer m ms (some cb) recurring now).2
unfolding add_timer add_timer_ptr
add_timer-Inv {m} ms cb recurring now inv =
    let v =
      reinsert-Inv (record m { allocated = m.allocated + 1 }) m.allocated
        (record { recurring = recurring; ms = ms; next = later now ms; cb = some cb }) m.timers
        (λ h. absurd (omega (arith, inv.known m.allocated h))) inv.sorted inv.live
        (λ y h. omega (arith, inv.known y h)) refl (omega arith) in
    record { sorted = v.sorted; live = v.live; known = v.known }

-- A round of the expiry loop.
pub fire-Inv :
    {m : TimerManager} (now x : ℕ) (rest : List ℕ)
    → Inv m
    → m.timers ≡ x ∷ rest
    → Inv (fire m now x rest)
unfolding fire
fire-Inv {m} now x rest inv e = elim (Bool-cases (m.store x).recurring) [
  | inl r ↦
      rw r (reinsert-Inv m x _ rest out sorted.1 live known (inv.live x here) (inv.known x here))
  | inr r ↦ rw r (record {
    sorted = Sorted-update m.store x _ rest out sorted.1;
    live = λ y h.
        ap (λ (u : Timer). is_some u.cb)
          (update_ne m.store x _ y (λ p. out (subst (λ z. Has z rest) (sym p) h)))
        ∙ live y h;
    known = known;
  })
]
  where
    sorted : Sorted m.store (x ∷ rest)
    sorted = subst (Sorted m.store) e inv.sorted

    out : ¬ Has x rest
    out = not-Has-Above m.store x rest sorted.0

    here : Has x m.timers
    here = subst (Has x) (sym e) (inl refl)

    live : (y : ℕ) → Has y rest → is_some (m.store y).cb ≡ true
    live y h = inv.live y (subst (Has y) (sym e) (inr h))

    known : (y : ℕ) → Has y rest → y < m.allocated
    known y h = inv.known y (subst (Has y) (sym e) (inr h))
