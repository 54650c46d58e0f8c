-- ===== src/Timer/Tests.antt =====
-- Runs of the timers at concrete inputs, and the theorems on them applied there.
use dag.Common.{
  ◌+◌, ◌⊎◌, ◌<◌, ◌≤◌, ℕ, zero, suc, ◌≡◌, refl, [], ◌∷◌, ◌++◌, some, inl, inr, arith, ok, stuck,
  true, false, is_some,
}
use dag.Timer.{TimerManager, init, cancel, add_timer, expire_loop}
use dag.Timer.{millis, get_next_timer}
use dag.Timer.Waiting.{get_next_timer_lem}
use dag.Timer.Order.{Has, Above}
use dag.Timer.Invariant.{Inv}
use dag.Timer.Reachable.{adds, cancels, Reachable, made, called, Reachable-Inv}
use dag.Timer.Expiry.{Periodic, due_cbs, expire_loop-due}
use dag.Timer.Defects.{add_timer-dropped, expire_loop-rollover}

-- Timer 0 recurs each millisecond and is due at 5, timer 1 is due once at 7, timer 2 is not set but has
-- the deadline of timer 0.
abbrev two_timers : TimerManager
two_timers = record {
  timers = 0 ∷ 1 ∷ [];
  tickled = false;
  previous_time = 0;
  store = elim [
    | zero ↦ record { recurring = true; ms = 1; next = 5; cb = some 10 }
    | suc n ↦ record { recurring = false; ms = 1; next = 7; cb = some 11 }
  ];
  allocated = 2;
}

two_timers-live : (id : ℕ) → is_some (two_timers.store id).cb ≡ true
two_timers-live zero = refl
two_timers-live (suc n) = refl

two_timers-Periodic : Periodic 6 two_timers
two_timers-Periodic zero h r = (omega arith, omega arith)
two_timers-Periodic (suc n) h r = (omega arith, omega arith)

two_timers-Inv : Inv two_timers
two_timers-Inv = record {
  sorted = ((omega arith, tt), (tt, tt));
  live = λ id h. two_timers-live id;
  known = λ id h. elim h [
    | inl e ↦ omega (arith, e)
    | inr k ↦ elim k [ inl e ↦ omega (arith, e) | inr x ↦ absurd x ]
  ];
}

expire_loop-due_example :
    (n : TimerManager) × (expire_loop 2 false 6 two_timers []
      ≡ ok ([] ++ due_cbs two_timers.store 6 two_timers.timers, n))
    × Inv n
    × Above n.store 6 n.timers
expire_loop-due_example =
    expire_loop-due 2 6 two_timers [] two_timers-Inv two_timers-Periodic (omega arith)

abbrev one_timer : TimerManager
one_timer = record two_timers { timers = 0 ∷ [] }

add_timer-dropped_example :
    (add_timer (record one_timer { timers = 1 ∷ [] }) 0 (some 12) true 7).2.timers ≡ 1 ∷ []
add_timer-dropped_example =
    add_timer-dropped (record one_timer { timers = 1 ∷ [] }) 1 0 (some 12) true 7 refl
      (λ e. absurd (omega (arith, e))) refl

expire_loop-rollover_example : expire_loop 100 true 9 one_timer [] ≡ stuck
expire_loop-rollover_example = expire_loop-rollover 100 9 0 one_timer [] refl refl

get_next_timer_lem_example :
    ((id : ℕ)
      → Has id two_timers.timers
      → ((get_next_timer two_timers 2).0 ≡ 0)
        ⊎ (2 + millis (get_next_timer two_timers 2).0 ≤ (two_timers.store id).next))
    × ((id : ℕ) × Has id two_timers.timers
        × ((two_timers.store id).next < 2 + millis (suc (get_next_timer two_timers 2).0)))
get_next_timer_lem_example = get_next_timer_lem two_timers 2 0 (1 ∷ []) two_timers-Inv refl

-- A timer is added to a new manager and cancelled.
abbrev added : TimerManager
added = (add_timer (init 3) 20 (some 8) true 5).2

added-Reachable : Reachable (cancel added 0).1
added-Reachable =
    called added (cancel added 0).1 (called (init 3) added (made 3) (adds (init 3) 20 8 true 5))
      (cancels added 0)

Reachable-Inv_example : Inv (cancel added 0).1
Reachable-Inv_example = Reachable-Inv added-Reachable
