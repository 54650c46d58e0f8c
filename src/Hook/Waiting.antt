-- ===== src/Hook/Waiting.antt =====
-- `do_io` where the system call is interrupted or would block.
use dag.Common.{
  ℕ, suc, ◌-◌, ◌^◌, ◌≤◌, ◌<◌, ◌≡◌, ◌⊎◌, inl, inr, refl, ap, sym, ==_iff, ◌∙◌, Bool, true, false,
  ◌||◌, Option, some, none, ◌==◌, if◌then◌else◌, Outcome, ok, fault, ◌>>=◌, length, Bool-cases,
}
use dag.Timer as Timer
use dag.Timer.{TimerManager, add_timer}
use dag.IoManager.{Event, IoManager, has_event, add_event}
use dag.IoManager.Valid.{IsValid}
use dag.IoManager.Keeps.{events_at}
use dag.IoManager.Adding.{add_event_lem, has-with}
use dag.Hook.{
  Reply, returned, failed, eintr, eagain, etimedout, System, World, Syscall, call, start_timer,
  cancel_timer, wait_event, is_cancelled, wait, io_loop,
}

-- The replies that `do_io` does not return.
abbrev pub again : Reply → Bool
again (returned n) = false
again (failed e) = (e == eintr) || (e == eagain)

pub Reply-cases : (r : Reply) → ((n : ℕ) × (r ≡ returned n)) ⊎ ((e : ℕ) × (r ≡ failed e))
Reply-cases (returned n) = inl (n, refl)
Reply-cases (failed e) = inr (e, refl)

-- A world in which the fiber can wait for the event.
pub record CanWait {K : Type 0} (fd : ℕ) (event : Event) (w : World K) : Type 0 where
  pub has_io : w.has_io ≡ true
  pub valid : IsValid w.io
  pub two_slots : 2 ≤ length w.io.contexts
  pub absent : has_event (events_at w.io fd) event ≡ false

-- A world in which the event is registered.
pub record Waits {K : Type 0} (fd : ℕ) (event : Event) (w : World K) : Type 0 where
  pub has_io : w.has_io ≡ true
  pub valid : IsValid w.io
  pub there : has_event (events_at w.io fd) event ≡ true

module _ {K : Type 0} (sys : System K) (others : World K → World K) (fun : Syscall K) (fd : ℕ)
    (event : Event) (timeout info : ℕ) where
  pub loop_returned :
      (fuel : ℕ) (w : World K) (n : ℕ)
      → (fun w.kernel).0 ≡ returned n
      → io_loop sys others fun fd event timeout info (suc fuel) w
        ≡ ok (returned n, (call sys fun w).1)
  unfolding io_loop
  loop_returned fuel w n e = rw (e, io_loop) refl

  pub loop_failed :
      (fuel : ℕ) (w : World K) (e : ℕ)
      → (fun w.kernel).0 ≡ failed e
      → (e == eintr) ≡ false
      → (e == eagain) ≡ false
      → io_loop sys others fun fd event timeout info (suc fuel) w
        ≡ ok (failed e, (call sys fun w).1)
  unfolding io_loop
  loop_failed fuel w e h i a = rw (h, io_loop) (rw (i, a) refl)

  pub loop_interrupted :
      (fuel : ℕ) (w : World K)
      → (fun w.kernel).0 ≡ failed eintr
      → io_loop sys others fun fd event timeout info (suc fuel) w
        ≡ io_loop sys others fun fd event timeout info fuel (call sys fun w).1
  unfolding io_loop
  loop_interrupted fuel w h = rw (h, io_loop) refl

  -- What the loop does when the fiber is back, by whether the timer has fired.
  abbrev woken : ℕ → World K → Bool → Outcome (Reply × World K)
  woken fuel u true = ok (failed etimedout, u)
  woken fuel u false = io_loop sys others fun fd event timeout info fuel u

  pub loop_timed_out :
      (fuel : ℕ) (w u : World K)
      → (fun w.kernel).0 ≡ failed eagain
      → wait sys others (call sys fun w).1 fd event timeout info ≡ ok (true, u)
      → is_cancelled sys u info ≡ true
      → io_loop sys others fun fd event timeout info (suc fuel) w ≡ ok (failed etimedout, u)
  unfolding io_loop
  loop_timed_out fuel w u h k c =
      rw (h, io_loop)
        (rw k (
          let timed_out : woken fuel u (is_cancelled sys u info) ≡ ok (failed etimedout, u) =
            ap (woken fuel u) c in
          timed_out))

  pub loop_woken :
      (fuel : ℕ) (w u : World K)
      → (fun w.kernel).0 ≡ failed eagain
      → wait sys others (call sys fun w).1 fd event timeout info ≡ ok (true, u)
      → is_cancelled sys u info ≡ false
      → io_loop sys others fun fd event timeout info (suc fuel) w
        ≡ io_loop sys others fun fd event timeout info fuel u
  unfolding io_loop
  loop_woken fuel w u h k c =
      rw (h, io_loop)
        (rw k (
          let again_there : woken fuel u (is_cancelled sys u info)
              ≡ io_loop sys others fun fd event timeout info fuel u =
            ap (woken fuel u) c in
          again_there))

-- A world with the timer of a wait of `timeout` milliseconds in its manager; `2 ^ 64 - 1` is no time-out.
abbrev pub Armed : {K : Type 0} → ℕ → ℕ → World K → Type 0
Armed timeout info w =
    (timeout ≡ 2 ^ 64 - 1)
    ⊎ ((m : TimerManager) × (now : ℕ) × (w.timers ≡ (add_timer m timeout (some info) false now).2))

module _ {K : Type 0} (sys : System K) where
  pub start_timer-set :
      (w : World K) (timeout info : ℕ)
      → (timeout == 2 ^ 64 - 1) ≡ false
      → (start_timer sys w timeout info).1.timers
        ≡ (add_timer w.timers timeout (some info) false (sys.clock w.kernel)).2
  unfolding start_timer
  start_timer-set w timeout info e = rw e refl

  pub start_timer-Armed :
      (w u : World K) (timeout info : ℕ)
      → u.timers ≡ (start_timer sys w timeout info).1.timers
      → Armed timeout info u
  start_timer-Armed w u timeout info h = elim (Bool-cases (timeout == 2 ^ 64 - 1)) [
    | inl e ↦ inl ((==_iff timeout (2 ^ 64 - 1)).0 e)
    | inr e ↦ inr (w.timers, sys.clock w.kernel, h ∙ start_timer-set w timeout info e)
  ]

  pub is_cancelled_same :
      (w : World K) (info : ℕ) (timers : TimerManager)
      → is_cancelled sys (record w { timers = timers }) info ≡ is_cancelled sys w info
  unfolding is_cancelled
  is_cancelled_same w info timers = refl

  start_timer_lem :
      (w : World K) (timeout info : ℕ)
      → (t : Option ℕ) × (timers : TimerManager) × (start_timer sys w timeout info
          ≡ (t, record w { timers = timers }))
  unfolding start_timer
  start_timer_lem w timeout info = elim (Bool-cases (timeout == 2 ^ 64 - 1)) [
    | inl e ↦ (none, w.timers, rw e refl)
    | inr e ↦
        let r = add_timer w.timers timeout (some info) false (sys.clock w.kernel) in
        (some r.0, r.2, rw e refl)
  ]

  cancel_timer_lem :
      (w : World K) (t : Option ℕ)
      → (timers : TimerManager) × (cancel_timer sys w t ≡ record w { timers = timers })
  unfolding cancel_timer
  cancel_timer_lem w none = (w.timers, refl)
  cancel_timer_lem w (some id) = ((Timer.cancel w.timers id).1, refl)

  wait_event_lem :
      (w : World K) (fd : ℕ) (event : Event) (n : IoManager)
      → w.has_io ≡ true
      → sys.epoll_ctl w.kernel ≡ 0
      → add_event w.io fd event none w.scheduler w.fiber true 0 ≡ ok (true, n)
      → wait_event sys w fd event ≡ ok (true, record w { io = n })
  wait_event_lem w fd event n has_io epoll run =
      let keep : Bool × IoManager → Outcome (Bool × World K) =
        λ r. ok (r.0, record w { io = r.1 }) in
      ap
        (λ b.
          (if b
            then add_event w.io fd event none w.scheduler w.fiber true (sys.epoll_ctl w.kernel)
            else fault)
          >>= keep)
        has_io
      ∙ ap (λ rt. add_event w.io fd event none w.scheduler w.fiber true rt >>= keep) epoll
      ∙ ap (λ o. o >>= keep) run

  -- A wait where `epoll_ctl` succeeds: the event is there when the other fibers run.
  pub wait_lem :
      (others : World K → World K) (w : World K) (fd : ℕ) (event : Event) (timeout info : ℕ)
      → fd < 2 ^ 31
      → sys.epoll_ctl w.kernel ≡ 0
      → CanWait fd event w
      → (u : World K) × (timers : TimerManager) × (wait sys others w fd event timeout info
          ≡ ok (true, record (others u) { timers = timers }))
        × Waits fd event u
        × (u.kernel ≡ w.kernel)
        × (u.infos ≡ w.infos)
        × (add_event w.io fd event none w.scheduler w.fiber true 0 ≡ ok (true, u.io))
        × (u.timers ≡ (start_timer sys w timeout info).1.timers)
  unfolding wait
  wait_lem others w fd event timeout info small epoll can =
      let (t, timers, armed) = start_timer_lem w timeout info in
      let (n, run, added) =
        add_event_lem w.io fd event none w.scheduler w.fiber true can.valid can.two_slots small
          can.absent refl in
      let u : World K = record w { timers = timers; io = n } in
      let (timers', disarmed) = cancel_timer_lem (others u) t in
      (
        u,
        timers',
        rw armed (
            ap
              (λ o. o >>= λ r.
                if r.0
                then ok (true, cancel_timer sys (others r.1) t)
                else ok (false, cancel_timer sys r.1 t))
              (wait_event_lem (record w { timers = timers }) fd event n can.has_io epoll run)
            ∙ ap (λ v. ok (true, v)) disarmed),
        record {
          has_io = can.has_io;
          valid = added.valid;
          there = ap (λ e. has_event e event) added.events ∙ has-with (events_at w.io fd) event;
        },
        refl,
        refl,
        run,
        ap (λ (r : Option ℕ × World K). r.1.timers) (sym armed),
      )
