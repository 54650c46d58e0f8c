-- ===== src/Timer/Reachable.antt =====
-- The managers that calls of the class lead to.
use dag.Common.{
  ℕ, zero, suc, ◌<◌, ◌≡◌, refl, ap, sym, subst, ◌∙◌, Bool, true, false, Option, some, List, [], ◌∷◌,
  ◌++◌, Outcome, ok, stuck, Bool-cases, List-cases, inl, inr,
}
use dag.Timer.{
  TimerManager, init, cancel, refresh, reset, add_timer, get_next_timer, detect_clock_rollover, due,
  fire, expire_loop, list_expired_cb,
}
use dag.Timer.Invariant.{Inv, init-Inv, cancel-Inv, refresh-Inv, reset-Inv, add_timer-Inv, fire-Inv}

-- A call, on a timer that the manager made where it is on one; a call of `addTimer` with a callback that
-- is not null, and one of `listExpiredCb` that comes to an end.
pub data Step : TimerManager → TimerManager → Type 0 where
  cancels : (m : TimerManager) (id : ℕ) → Step m (cancel m id).1
  refreshes : (m : TimerManager) (id now : ℕ) → id < m.allocated → Step m (refresh m id now).1
  resets :
      (m : TimerManager) (id ms : ℕ) (from_now : Bool) (now : ℕ)
      → id < m.allocated
      → Step m (reset m id ms from_now now).2
  adds :
      (m : TimerManager) (ms cb : ℕ) (recurring : Bool) (now : ℕ)
      → Step m (add_timer m ms (some cb) recurring now).2
  waits : (m : TimerManager) (now : ℕ) → Step m (get_next_timer m now).1
  expires :
      (fuel : ℕ) (m : TimerManager) (now later : ℕ) (cbs : List (Option ℕ)) (n : TimerManager)
      → list_expired_cb fuel m now later ≡ ok (cbs, n)
      → Step m n

pub data Reachable : TimerManager → Type 0 where
  made : (now : ℕ) → Reachable (init now)
  called : (m n : TimerManager) → Reachable m → Step m n → Reachable n

abbrev last : TimerManager → Outcome (List (Option ℕ) × TimerManager) → TimerManager
last m o = elim o [ ok r ↦ r.1 | _ ↦ m ]

module _ (rollover : Bool) (now : ℕ) (m : TimerManager) (cbs : List (Option ℕ)) where
  loop_stuck :
      due rollover now m.store m.timers ≡ true → expire_loop zero rollover now m cbs ≡ stuck
  unfolding expire_loop
  loop_stuck d = rw d refl

  loop_stops :
      (fuel : ℕ)
      → due rollover now m.store m.timers ≡ false
      → expire_loop fuel rollover now m cbs ≡ ok (cbs, m)
  unfolding expire_loop
  loop_stops zero d = rw d refl
  loop_stops (suc fuel) d = rw (expire_loop, d) refl

  loop_empty :
      (fuel : ℕ)
      → due rollover now m.store m.timers ≡ true
      → m.timers ≡ []
      → expire_loop (suc fuel) rollover now m cbs ≡ ok (cbs, m)
  loop_empty fuel d e = absurd (cc (sym d ∙ ap (due rollover now m.store) e))

  loop_fires :
      (fuel x : ℕ) (rest : List ℕ)
      → due rollover now m.store m.timers ≡ true
      → m.timers ≡ x ∷ rest
      → expire_loop (suc fuel) rollover now m cbs
        ≡ expire_loop fuel rollover now (fire m now x rest) (cbs ++ (m.store x).cb ∷ [])
  unfolding expire_loop fire
  loop_fires fuel x rest d e = rw (expire_loop, d, e) refl

Inv-last :
    (m n : TimerManager) (o : Outcome (List (Option ℕ) × TimerManager))
    (cbs found : List (Option ℕ))
    → Inv m
    → o ≡ ok (cbs, m)
    → o ≡ ok (found, n)
    → Inv n
Inv-last m n o cbs found inv e h = subst Inv (ap (last m) (sym e ∙ h)) inv

Inv-expire_loop :
    (fuel : ℕ) (rollover : Bool) (now : ℕ) (m : TimerManager) (cbs found : List (Option ℕ))
    (n : TimerManager)
    → Inv m
    → expire_loop fuel rollover now m cbs ≡ ok (found, n)
    → Inv n
Inv-expire_loop zero rollover now m cbs found n inv h =
    elim (Bool-cases (due rollover now m.store m.timers)) [
      | inl d ↦ absurd (cc (sym (loop_stuck rollover now m cbs d) ∙ h))
      | inr d ↦ Inv-last m n _ cbs found inv (loop_stops rollover now m cbs zero d) h
    ]
Inv-expire_loop (suc fuel) rollover now m cbs found n inv h =
    elim (Bool-cases (due rollover now m.store m.timers)) [
      | inr d ↦ Inv-last m n _ cbs found inv (loop_stops rollover now m cbs (suc fuel) d) h
      | inl d ↦ elim (List-cases m.timers) [
        | inl e ↦ Inv-last m n _ cbs found inv (loop_empty rollover now m cbs fuel d e) h
        | inr (x, rest, e) ↦
            Inv-expire_loop fuel rollover now (fire m now x rest) (cbs ++ (m.store x).cb ∷ []) found
              n (fire-Inv now x rest inv e)
              (sym (loop_fires rollover now m cbs fuel x rest d e) ∙ h)
      ]
    ]

get_next-tickled :
    (m : TimerManager) (now : ℕ) → (get_next_timer m now).1 ≡ record m { tickled = false }
unfolding get_next_timer
get_next-tickled m now = elim (List-cases m.timers) [
  | inl e ↦
      rw (e, get_next_timer) (ap (λ (xs : List ℕ). record m { timers = xs; tickled = false }) e)
  | inr (x, rest, e) ↦
      rw (e, get_next_timer) (ap (λ (xs : List ℕ). record m { timers = xs; tickled = false }) e)
]

Step-Inv : {m n : TimerManager} → Step m n → Inv m → Inv n
unfolding list_expired_cb detect_clock_rollover
Step-Inv (cancels m id) inv = cancel-Inv inv id
Step-Inv (refreshes m id now known) inv = refresh-Inv inv id known now
Step-Inv (resets m id ms from_now now known) inv = reset-Inv inv id known ms from_now now
Step-Inv (adds m ms cb recurring now) inv = add_timer-Inv ms cb recurring now inv
Step-Inv (waits m now) inv =
    subst Inv (sym (get_next-tickled m now))
      (record { sorted = inv.sorted; live = inv.live; known = inv.known })
Step-Inv (expires fuel m now later cbs n e) inv =
    Inv-expire_loop fuel (detect_clock_rollover m later).0 now (detect_clock_rollover m later).1 []
      cbs n (record { sorted = inv.sorted; live = inv.live; known = inv.known }) e

-- Whatever is called on a new manager and on the timers that it made, as long as no timer is added with a
-- null callback, the set of timers is sorted by
-- deadline without two equal ones, its timers have a callback, and each was made by the manager.
pub Reachable-Inv : {m : TimerManager} → Reachable m → Inv m
Reachable-Inv (made now) = init-Inv now
Reachable-Inv (called m n r s) = Step-Inv s (Reachable-Inv r)
