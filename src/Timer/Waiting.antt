-- ===== src/Timer/Waiting.antt =====
-- `getNextTimer`: how long the idle fiber may wait.
use dag.Common.{
  ℕ, suc, ◌+◌, ◌-◌, ◌/◌, ◌≤◌, ◌<◌, ◌≡◌, refl, sym, ap, subst, ◌∙◌, ◌⊎◌, inl, inr, List, ◌∷◌, arith,
  leb, le→leb, lt→leb, if◌then◌else◌,
}
use native.Mathlib.Decide.{dec_le}
use dag.Timer.{Timer, TimerManager, millis, get_next_timer}
use dag.Timer.Order.{Sorted, Has, Above-Has}
use dag.Timer.Invariant.{Inv}

-- How long until the deadline `next`, in whole milliseconds.
wait_of : ℕ → ℕ → ℕ
wait_of now next = if leb next now then 0 else (next - now) / 1_000_000

wait_of_lem :
    (now next : ℕ)
    → ((wait_of now next ≡ 0) ⊎ (now + millis (wait_of now next) ≤ next))
      × (next < now + millis (suc (wait_of now next)))
unfolding wait_of
wait_of_lem now next = elim (dec_le next now) [
  | yes h ↦ rw (le→leb next now h) (inl refl, omega (arith, h))
  | no n ↦ rw (lt→leb next now (omega (arith, n))) (inr (omega (arith, n)), omega (arith, n))
]

first_least :
    (f : ℕ → Timer) (x : ℕ) (rest : List ℕ)
    → Sorted f (x ∷ rest)
    → (id : ℕ) → Has id (x ∷ rest)
    → (f x).next ≤ (f id).next
first_least f x rest s id (inl e) = omega (arith, ap (λ i. (f i).next) e)
first_least f x rest s id (inr h) = omega (arith, Above-Has f (f x).next rest id s.0 h)

-- With a timer in the set and the invariant, waiting as many milliseconds as `getNextTimer` says, if it
-- says more than 0, passes no timer's deadline, and one more millisecond passes that of some timer.
pub get_next_timer_lem :
    (m : TimerManager) (now x : ℕ) (rest : List ℕ)
    → Inv m
    → m.timers ≡ x ∷ rest
    → ((id : ℕ)
        → Has id m.timers
        → ((get_next_timer m now).0 ≡ 0)
          ⊎ (now + millis (get_next_timer m now).0 ≤ (m.store id).next))
      × ((id : ℕ) × Has id m.timers
          × ((m.store id).next < now + millis (suc (get_next_timer m now).0)))
unfolding get_next_timer wait_of
get_next_timer_lem m now x rest inv e =
    let (early, late) = wait_of_lem now (m.store x).next in
    let first : Has x m.timers = subst (Has x) (sym e) (inl refl) in
    let time : (get_next_timer m now).0 ≡ wait_of now (m.store x).next = rw e refl in
    let order : Sorted m.store (x ∷ rest) = subst (Sorted m.store) e inv.sorted in
    (
      (λ id h. elim early [
        | inl z ↦ inl (time ∙ z)
        | inr l ↦
            inr (omega (arith, l, time, first_least m.store x rest order id (subst (Has id) e h)))
      ]),
      (x, first, omega (arith, late, time)),
    )
