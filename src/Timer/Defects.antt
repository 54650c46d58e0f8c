-- ===== src/Timer/Defects.antt =====
-- What the order of the set by deadline alone does to timers with one deadline, and a loop of
-- `listExpiredCb` that does not end.
use dag.Common.{
  ℕ, zero, suc, ◌≡◌, ◌≢◌, refl, sym, ap, ◌∙◌, List, [], ◌∷◌, Option, some, none, arith, Bool, true,
  update, update_self, update_ne, stuck, is_some, eq→==,
}
use dag.Timer.{
  Timer, TimerManager, later, insert, find, erase, add_timer, add_timer_ptr, cancel, fire,
  expire_loop,
}

insert-equal : (f : ℕ → Timer) (id x : ℕ) → (f x).next ≡ (f id).next → insert f id (x ∷ []) ≡ x ∷ []
unfolding insert
insert-equal f id x h = ground arith

find-equal : (f : ℕ → Timer) (id x : ℕ) → (f x).next ≡ (f id).next → find f id (x ∷ []) ≡ some x
unfolding find
find-equal f id x h = ground arith

erase_self : (x : ℕ) → erase x (x ∷ []) ≡ []
unfolding erase
erase_self x = rw (eq→== x x refl) refl

fire_again :
    (m : TimerManager) (now x : ℕ)
    → (m.store x).recurring ≡ true
    → ((fire m now x []).timers ≡ x ∷ []) × (((fire m now x []).store x).recurring ≡ true)
unfolding fire insert
fire_again m now x r = rw r (refl, ap (λ (t : Timer). t.recurring) (update_self m.store x _))

-- `addTimer` of a timer with the deadline of the one other timer in the set does not insert it:
-- the set is as before.
pub add_timer-dropped :
    (m : TimerManager) (x ms : ℕ) (cb : Option ℕ) (recurring : Bool) (now : ℕ)
    → m.timers ≡ x ∷ []
    → x ≢ m.allocated
    → (m.store x).next ≡ later now ms
    → (add_timer m ms cb recurring now).2.timers ≡ m.timers
unfolding add_timer add_timer_ptr
add_timer-dropped m x ms cb recurring now e d s =
    let t : Timer = record { recurring = recurring; ms = ms; next = later now ms; cb = cb } in
    let f = update m.store m.allocated t in
    ap (insert f m.allocated) e
    ∙ insert-equal f m.allocated x (
        ap (λ (u : Timer). u.next) (update_ne m.store m.allocated t x (λ q. d (sym q)))
        ∙ s
        ∙ sym (ap (λ (u : Timer). u.next) (update_self m.store m.allocated t)))
    ∙ sym e

-- `cancel` of a timer that has a callback but is not in the set takes another one out, if that is
-- the one in the set and has the same deadline.
pub cancel-other :
    (m : TimerManager) (x y : ℕ)
    → m.timers ≡ x ∷ []
    → x ≢ y
    → is_some (m.store y).cb ≡ true
    → (m.store x).next ≡ (m.store y).next
    → (cancel m y).1.timers ≡ []
unfolding cancel
cancel-other m x y e d live s =
    let t = record (m.store y) { cb = none } in
    let f = update m.store y t in
    let same =
      ap (λ (u : Timer). u.next) (update_ne m.store y t x (λ q. d (sym q)))
      ∙ s
      ∙ sym (ap (λ (u : Timer). u.next) (update_self m.store y t)) in
    rw (live, e, find-equal f y x same) (erase_self x)

-- With a clock rollover detected and a recurring timer as the one in the set, the loop of
-- `listExpiredCb` runs out of any number of rounds.
pub expire_loop-rollover :
    (fuel now x : ℕ) (m : TimerManager) (cbs : List (Option ℕ))
    → m.timers ≡ x ∷ []
    → (m.store x).recurring ≡ true
    → expire_loop fuel true now m cbs ≡ stuck
unfolding expire_loop
expire_loop-rollover zero now x m cbs e r = rw e refl
expire_loop-rollover (suc fuel) now x m cbs e r =
    let m' = record m { timers = x ∷ [] } in
    let again = fire_again m' now x r in
    rw e (expire_loop-rollover fuel now x (fire m' now x []) _ again.0 again.1)
