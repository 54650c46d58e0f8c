-- ===== src/Timer/Expiry.antt =====
-- `listExpiredCb`: which callbacks it returns, that it ends, and what is left in the set.
use dag.Common.{
  ℕ, zero, suc, ◌+◌, ◌≤◌, ◌<◌, ◌≡◌, refl, sym, ap, subst, ◌∙◌, inl, inr, List, [], ◌∷◌, ◌++◌,
  Option, append-nil, append_assoc, length, arith, leb, lt→ltb, ◌^◌, if◌then◌else◌, true, false,
  update, update_ne, update_self, Bool-cases, ok,
}
use mathlib.Core.Bool.{false≢true}
use dag.Timer.{Timer, TimerManager, millis, later, insert, due, fire, expire_loop}
use dag.Timer.Order.{Above, Sorted, Has, Above-mono, Has-insert, not-Has-Above}
use dag.Timer.Invariant.{Inv, fire-Inv}

-- The callbacks of the timers that are due, in the order of their deadlines.
abbrev pub due_cbs : (ℕ → Timer) → ℕ → List ℕ → List (Option ℕ)
due_cbs f now [] = []
due_cbs f now (x ∷ xs) = if leb (f x).next now then (f x).cb ∷ due_cbs f now xs else []

due_cbs-update :
    (f : ℕ → Timer) (now x : ℕ) (t : Timer) (xs : List ℕ)
    → ¬ Has x xs
    → due_cbs (update f x t) now xs ≡ due_cbs f now xs
due_cbs-update f now x t [] h = refl
due_cbs-update f now x t (y ∷ ys) h =
    ap (λ (u : Timer). if leb u.next now then u.cb ∷ due_cbs (update f x t) now ys else [])
      (update_ne f x t y (λ e. h (inl (sym e))))
    ∙ ap (λ l. if leb (f y).next now then (f y).cb ∷ l else [])
        (due_cbs-update f now x t ys (λ k. h (inr k)))

due_cbs-insert :
    (f : ℕ → Timer) (now x : ℕ) (xs : List ℕ)
    → now < (f x).next
    → due_cbs f now (insert f x xs) ≡ due_cbs f now xs
unfolding insert
due_cbs-insert f now x [] h = ground arith
due_cbs-insert f now x (y ∷ ys) h = ground (arith, due_cbs-insert f now x ys h)

-- A recurring timer comes round no sooner than a millisecond after `now`, at a time that is still
-- one of 64 bits.
abbrev pub Periodic : ℕ → TimerManager → Type 0
Periodic now m =
    (id : ℕ)
    → Has id m.timers
    → (m.store id).recurring ≡ true
    → (0 < (m.store id).ms) × (now + millis (m.store id).ms < 2 ^ 64)

later_lt : (now ms : ℕ) → 0 < ms → now + millis ms < 2 ^ 64 → now < later now ms
later_lt now ms h k = rw (lt→ltb ms (2 ^ 63) (omega (arith, k))) (omega (arith, h))

module _ {m : TimerManager} (inv : Inv m) (now x : ℕ) (rest : List ℕ)
    (e : m.timers ≡ x ∷ rest) where
  out : ¬ Has x rest
  out = not-Has-Above m.store x rest (subst (Sorted m.store) e inv.sorted).0

  fire_timers : (y : ℕ) → Has y (fire m now x rest).timers → Has y m.timers
  unfolding fire
  fire_timers y = elim (Bool-cases (m.store x).recurring) [
    | inl r ↦ rw r (λ h. elim (Has-insert _ x y rest h) [
      | inl p ↦ subst (Has y) (sym e) (inl p)
      | inr p ↦ subst (Has y) (sym e) (inr p)
    ])
    | inr r ↦ rw r (λ h. subst (Has y) (sym e) (inr h))
  ]

  fire_same :
      (y : ℕ)
      → (((fire m now x rest).store y).ms ≡ (m.store y).ms)
        × (((fire m now x rest).store y).recurring ≡ (m.store y).recurring)
  unfolding fire
  fire_same y = elim (Bool-cases (m.store x).recurring) [
    | inl r ↦ rw r (ground arith)
    | inr r ↦ rw r (ground arith)
  ]

  fire-Periodic : Periodic now m → Periodic now (fire m now x rest)
  fire-Periodic p y h r =
      let (em, er) = fire_same y in
      let (positive, fits) = p y (fire_timers y h) (sym er ∙ r) in
      (omega (arith, positive, em), omega (arith, fits, em))

  reinserted :
      (t : Timer)
      → now < t.next
      → due_cbs (update m.store x t) now (insert (update m.store x t) x rest)
        ≡ due_cbs m.store now rest
  reinserted t after =
      due_cbs-insert (update m.store x t) now x rest
        (subst (λ (u : Timer). now < u.next) (sym (update_self m.store x t)) after)
      ∙ due_cbs-update m.store now x t rest out

  fire_due :
      Periodic now m
      → due_cbs (fire m now x rest).store now (fire m now x rest).timers ≡ due_cbs m.store now rest
  unfolding fire
  fire_due p = elim (Bool-cases (m.store x).recurring) [
    | inl r ↦
        let (positive, fits) = p x (subst (Has x) (sym e) (inl refl)) r in
        let after : now < later now (m.store x).ms = later_lt now (m.store x).ms positive fits in
        rw r (reinserted _ after)
    | inr r ↦ rw r (due_cbs-update m.store now x _ rest out)
  ]

  -- A round gives its callback and leaves the others that are due.
  fire_next :
      leb (m.store x).next now ≡ true
      → Periodic now m
      → due_cbs m.store now m.timers
        ≡ (m.store x).cb ∷ due_cbs (fire m now x rest).store now (fire m now x rest).timers
  fire_next d p =
      ap (due_cbs m.store now) e
      ∙ ap (λ b. if b then (m.store x).cb ∷ due_cbs m.store now rest else []) d
      ∙ ap ((m.store x).cb ∷◌) (sym (fire_due p))

-- With no timer due, none is late.
nothing_due :
    (f : ℕ → Timer) (now : ℕ) (xs : List ℕ)
    → Sorted f xs
    → due false now f xs ≡ false
    → (due_cbs f now xs ≡ []) × Above f now xs
nothing_due f now [] s h = (refl, tt)
nothing_due f now (x ∷ xs) s h =
    let late : now < (f x).next = ground (arith, h) in
    (rw h refl, (late, Above-mono f (f x).next now xs (omega (arith, late)) s.0))

due_front :
    (f : ℕ → Timer) (now : ℕ) (xs : List ℕ)
    → due false now f xs ≡ true
    → (x : ℕ) × (rest : List ℕ) × (xs ≡ x ∷ rest) × (leb (f x).next now ≡ true)
due_front f now [] h = absurd (false≢true h)
due_front f now (x ∷ xs) h = (x, xs, refl, h)

expire_loop-stop :
    (fuel now : ℕ) (m : TimerManager) (cbs : List (Option ℕ))
    → due false now m.store m.timers ≡ false
    → expire_loop fuel false now m cbs ≡ ok (cbs, m)
unfolding expire_loop
expire_loop-stop zero now m cbs d = rw d refl
expire_loop-stop (suc fuel) now m cbs d = rw (expire_loop, d) refl

expire_loop-step :
    (fuel now : ℕ) (m : TimerManager) (cbs : List (Option ℕ)) (x : ℕ) (rest : List ℕ)
    → m.timers ≡ x ∷ rest
    → due false now m.store m.timers ≡ true
    → expire_loop (suc fuel) false now m cbs
      ≡ expire_loop fuel false now (fire m now x rest) (cbs ++ (m.store x).cb ∷ [])
unfolding expire_loop fire
expire_loop-step fuel now m cbs x rest e d = rw (expire_loop, d, e) refl

abbrev Expired : ℕ → ℕ → TimerManager → List (Option ℕ) → Type 0
Expired fuel now m cbs =
    (n : TimerManager) × (expire_loop fuel false now m cbs
      ≡ ok (cbs ++ due_cbs m.store now m.timers, n))
    × Inv n
    × Above n.store now n.timers

stop_Expired :
    (fuel now : ℕ) (m : TimerManager) (cbs : List (Option ℕ))
    → Inv m
    → due false now m.store m.timers ≡ false
    → Expired fuel now m cbs
stop_Expired fuel now m cbs inv d =
    let (none_due, above) = nothing_due m.store now m.timers inv.sorted d in
    (
      m,
      expire_loop-stop fuel now m cbs d
          ∙ ap (λ l. ok (l, m)) (sym (append-nil cbs) ∙ ap (cbs ++◌) (sym none_due)),
      inv,
      above,
    )

-- Where no clock rollover is seen, the invariant holds, and recurring timers have a positive
-- period that added to the present stays within the 64 bits of a time, the loop of `listExpiredCb` ends within as many rounds as timers are due. It appends
-- exactly the callbacks of the timers that are due, in the order of their deadlines, keeps the
-- invariant, and leaves in the set only timers that are not due.
pub expire_loop-due :
    (fuel now : ℕ) (m : TimerManager) (cbs : List (Option ℕ))
    → Inv m
    → Periodic now m
    → length (due_cbs m.store now m.timers) ≤ fuel
    → Expired fuel now m cbs
expire_loop-due zero now m cbs inv p h = elim (Bool-cases (due false now m.store m.timers)) [
  | inl d ↦
      let (x, rest, e, l) = due_front m.store now m.timers d in
      let len = ap length (fire_next inv now x rest e l p) in absurd (omega (arith, h, len))
  | inr d ↦ stop_Expired zero now m cbs inv d
]
expire_loop-due (suc k) now m cbs inv p h = elim (Bool-cases (due false now m.store m.timers)) [
  | inl d ↦
      let (x, rest, e, l) = due_front m.store now m.timers d in
      let next = fire_next inv now x rest e l p in
      let len = ap length next in
      let (n, run, keep, after) =
        expire_loop-due k now (fire m now x rest) (cbs ++ (m.store x).cb ∷ [])
          (fire-Inv now x rest inv e) (fire-Periodic inv now x rest e p) (omega (arith, h, len)) in
      (
        n,
        expire_loop-step k now m cbs x rest e d
            ∙ run
            ∙ ap (λ l. ok (l, n)) (append_assoc cbs _ _ ∙ ap (cbs ++◌) (sym next)),
        keep,
        after,
      )
  | inr d ↦ stop_Expired (suc k) now m cbs inv d
]
