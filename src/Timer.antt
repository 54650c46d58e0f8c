-- ===== src/Timer.antt =====
-- dag/timer.h and dag/timer.cpp: timers and their manager. A `shared_ptr<Timer>` is an index into
-- `store`, a callback a number (`none` for a null function). A time point, whose count of nanoseconds has
-- 64 bits with a sign, is the count from the least one.
-- `m_timers` is the list of a `std::set` in its order: the comparator looks at `m_next` alone, so a
-- timer equivalent to one in the set is not inserted, and `find` returns any equivalent element.
-- Every call of `system_clock::now()` is an argument. A count that leaves its 64 bits has no meaning in
-- the source; here it goes on above, and stops at 0 below. A call runs
-- under `m_mutex`, but for the parts of `reset` and `addTimer` outside it, which are taken as one step.
pub mod Order
pub mod Invariant
pub mod Expiry
pub mod Reachable
pub mod Waiting
pub mod Defects
pub mod Tests
use dag.Common.{
  ℕ, zero, suc, ◌+◌, ◌-◌, ◌*◌, ◌/◌, ◌^◌, Bool, true, false, not, ◌&&◌, ◌||◌, Option, some, none,
  List, [], ◌∷◌, ◌++◌, ltb, leb, ◌==◌, if◌then◌else◌, Outcome, ok, stuck, is_some, update,
}

pub record Timer : Type 0 where
  pub recurring : Bool
  pub ms : ℕ
  pub next : ℕ
  pub cb : Option ℕ

pub record TimerManager : Type 0 where
  pub timers : List ℕ
  pub tickled : Bool
  pub previous_time : ℕ
  pub store : ℕ → Timer
  pub allocated : ℕ

-- Milliseconds in nanoseconds.
abbrev pub millis : ℕ → ℕ
millis ms = ms * 1_000_000

-- `time + std::chrono::milliseconds(ms)` and `time - std::chrono::milliseconds(ms)` for a `uint64_t`, which
-- becomes a number with a sign: from `2 ^ 63` on it is `ms - 2 ^ 64`.
abbrev pub later : ℕ → ℕ → ℕ
later time ms = if ltb ms (2 ^ 63) then time + millis ms else time - millis (2 ^ 64 - ms)

abbrev pub earlier : ℕ → ℕ → ℕ
earlier time ms = if ltb ms (2 ^ 63) then time - millis ms else time + millis (2 ^ 64 - ms)

-- `Timer::Comparator`
abbrev pub less : Timer → Timer → Bool
less lhs rhs = ltb lhs.next rhs.next

-- The set: `insert` without its result, whether that result is `begin()`, `find` and `erase`.
module _ (f : ℕ → Timer) (id : ℕ) where
  unfoldable pub insert : List ℕ → List ℕ
  insert [] = id ∷ []
  insert (x ∷ xs) =
      if less (f x) (f id) then x ∷ insert xs else if less (f id) (f x) then id ∷ x ∷ xs else x ∷ xs

  abbrev pub is_front : List ℕ → Bool
  is_front [] = true
  is_front (x ∷ xs) = not (less (f x) (f id))

  unfoldable pub find : List ℕ → Option ℕ
  find [] = none
  find (x ∷ xs) = if less (f x) (f id) then find xs else if less (f id) (f x) then none else some x

unfoldable pub erase : ℕ → List ℕ → List ℕ
erase id [] = []
erase id (x ∷ xs) = if x == id then xs else x ∷ erase id xs

unfoldable pub init : ℕ → TimerManager
init now = record {
  timers = [];
  tickled = false;
  previous_time = now;
  store = λ _. record { recurring = false; ms = 0; next = 0; cb = none };
  allocated = 0;
}

-- `m_timers.erase(it)` behind `it = m_timers.find(this)`
abbrev pub erase_found : TimerManager → Option ℕ → TimerManager
erase_found m none = m
erase_found m (some x) = record m { timers = erase x m.timers }

unfoldable pub cancel : TimerManager → ℕ → Bool × TimerManager
cancel m id =
    let cleared = record m { store = update m.store id (record (m.store id) { cb = none }) } in
    if is_some (m.store id).cb
    then (true, erase_found cleared (find cleared.store id cleared.timers))
    else (false, m)

unfoldable pub refresh : TimerManager → ℕ → ℕ → Bool × TimerManager
refresh m id now =
    if is_some (m.store id).cb
    then elim (find m.store id m.timers) [
      | none ↦ (false, m)
      | some x ↦
          let store =
            update m.store id (record (m.store id) { next = later now (m.store id).ms }) in
          (true, record m { timers = insert store id (erase x m.timers); store = store })
    ]
    else (false, m)

-- `addTimer(timer)`; the first result is whether `onTimerInsertedAtFront` is called.
unfoldable pub add_timer_ptr : TimerManager → ℕ → Bool × TimerManager
add_timer_ptr m id =
    let at_front = is_front m.store id m.timers && not m.tickled in
    (
      at_front,
      record m {
        timers = insert m.store id m.timers;
        tickled = if at_front then true else m.tickled;
      },
    )

-- `reset`: whether it succeeds, whether the front changed, and the manager. The start is
-- `m_next - m_ms` where it is not now.
unfoldable pub reset : TimerManager → ℕ → ℕ → Bool → ℕ → Bool × Bool × TimerManager
reset m id ms from_now now =
    let timer = m.store id in
    if (ms == timer.ms) && not from_now
    then (true, false, m)
    else if is_some timer.cb
    then elim (find m.store id m.timers) [
      | none ↦ (false, false, m)
      | some x ↦
          let start = if from_now then now else earlier timer.next timer.ms in
          let moved = record timer { ms = ms; next = later start ms } in
          let (at_front, m') =
            add_timer_ptr (record m { timers = erase x m.timers; store = update m.store id moved })
              id in
          (true, at_front, m')
    ]
    else (false, false, m)

-- `addTimer(ms, cb, recurring)`, also with a null callback: the new timer, whether the front changed, and the manager.
unfoldable pub add_timer : TimerManager → ℕ → Option ℕ → Bool → ℕ → ℕ × Bool × TimerManager
add_timer m ms cb recurring now =
    let id = m.allocated in
    let timer : Timer = record { recurring = recurring; ms = ms; next = later now ms; cb = cb } in
    let (at_front, m') =
      add_timer_ptr (record m { store = update m.store id timer; allocated = id + 1 }) id in
    (id, at_front, m')

-- `OnTimer`: the callback runs if the condition's object is still alive.
unfoldable pub on_timer : Bool → Option ℕ → Option ℕ
on_timer alive cb = if alive then cb else none

unfoldable pub get_next_timer : TimerManager → ℕ → ℕ × TimerManager
get_next_timer m now =
    let m' = record m { tickled = false } in
    elim m.timers [
      | [] ↦ (2 ^ 64 - 1, m')
      | x ∷ xs ↦
          let time = (m.store x).next in (if leb time now then 0 else (time - now) / 1_000_000, m')
    ]

unfoldable pub detect_clock_rollover : TimerManager → ℕ → Bool × TimerManager
detect_clock_rollover m now =
    (ltb (now + millis (60 * 60 * 1000)) m.previous_time, record m { previous_time = now })

-- The condition of the loop of `listExpiredCb`.
abbrev pub due : Bool → ℕ → (ℕ → Timer) → List ℕ → Bool
due rollover now f [] = false
due rollover now f (x ∷ xs) = rollover || leb (f x).next now

-- What a round does with the timer `x` that it took from the front.
unfoldable pub fire : TimerManager → ℕ → ℕ → List ℕ → TimerManager
fire m now x rest =
    let timer = m.store x in
    let store = update m.store x (record timer { next = later now timer.ms }) in
    if timer.recurring
    then record m { timers = insert store x rest; store = store }
    else record m { timers = rest; store = update m.store x (record timer { cb = none }) }

-- The loop of `listExpiredCb` over the timers in order, with the callbacks found so far.
unfoldable pub expire_loop :
    ℕ → Bool → ℕ → TimerManager → List (Option ℕ) → Outcome (List (Option ℕ) × TimerManager)
expire_loop zero rollover now m cbs =
    if due rollover now m.store m.timers then stuck else ok (cbs, m)
expire_loop (suc fuel) rollover now m cbs = elim (due rollover now m.store m.timers) [
  | true ↦ elim m.timers [
    | [] ↦ ok (cbs, m)
    | x ∷ rest ↦ expire_loop fuel rollover now (fire m now x rest) (cbs ++ (m.store x).cb ∷ [])
  ]
  | false ↦ ok (cbs, m)
]

-- `listExpiredCb` on an empty vector. It reads the clock twice, the second time to look for a clock
-- that was set back.
unfoldable pub list_expired_cb : ℕ → TimerManager → ℕ → ℕ → Outcome (List (Option ℕ) × TimerManager)
list_expired_cb fuel m now now2 =
    let (rollover, m') = detect_clock_rollover m now2 in expire_loop fuel rollover now m' []

unfoldable pub has_timer : TimerManager → Bool
has_timer m = elim m.timers [ [] ↦ false | x ∷ xs ↦ true ]
