-- ===== src/Hook/Expiry.antt =====
-- `do_io` where the condition timer goes off while the fiber waits.
use dag.Common.{
  ℕ, suc, ◌-◌, ◌^◌, ◌≤◌, ◌≢◌, Option, List, leb, ◌==◌, if◌then◌else◌, ne→==, eq→==, le→leb, ◌<◌,
  ◌≡◌, refl, ap, sym, ◌∙◌, Bool, true, false, some, none, [], ◌∷◌, ◌++◌, Outcome, ok, ◌>>=◌, update,
  update_self,
}
use dag.Timer.{Timer, TimerManager, later, insert, add_timer, add_timer_ptr}
use dag.Timer.Expiry.{due_cbs}
use dag.FdManager.{FdCtx, data_at, get_timeout}
use dag.IoManager.{Event, IoManager, Task, cancel_event}
use dag.IoManager.Keeps.{events_at}
use dag.IoManager.Adding.{cancel-add}
use dag.Hook.{
  failed, eagain, etimedout, System, World, Syscall, on_timeout, start_timer, is_cancelled,
  new_info, drop_info, do_io_on, do_io,
}
use dag.Hook.Blocking.{hooked, open_socket}
use dag.Hook.Waiting.{CanWait, start_timer-set, wait_lem, loop_timed_out}

module _ {K : Type 0} (sys : System K) where
  on_timeout_fires :
      (w : World K) (fd : ℕ) (event : Event) (info : ℕ) (k : IoManager)
      → w.infos info ≡ some false
      → sys.epoll_ctl w.kernel ≡ 0
      → cancel_event w.io fd event 0 ≡ ok (true, k)
      → on_timeout sys w fd event info
        ≡ ok (record w { infos = update w.infos info (some true); io = k })
  unfolding on_timeout
  on_timeout_fires w fd event info k living epoll run = rw (living, on_timeout, epoll, run) refl

  is_cancelled-some :
      (w : World K) (info : ℕ) (b : Bool) → w.infos info ≡ some b → is_cancelled sys w info ≡ b
  unfolding is_cancelled
  is_cancelled-some w info b e = rw (e, is_cancelled) refl

  -- The callbacks of timers, called one after the other; that of the condition timer is the number `info`.
  abbrev pub call_back : ℕ → Event → ℕ → List (Option ℕ) → World K → World K
  call_back fd event info [] u = u
  call_back fd event info (none ∷ cbs) u = call_back fd event info cbs u
  call_back fd event info (some cb ∷ cbs) u =
      call_back fd event info cbs
        (if cb == info then elim (on_timeout sys u fd event info) [ ok v ↦ v | _ ↦ u ] else u)

  -- All that happens while the fiber waits is that the callbacks of the timers that are due at `now` are
  -- called, as `listExpiredCb` gives them.
  abbrev pub timers_only : ℕ → ℕ → Event → ℕ → World K → World K
  timers_only now fd event info u =
      call_back fd event info (due_cbs u.timers.store now u.timers.timers) u

  armed_due :
      (w : World K) (timeout info now : ℕ)
      → timeout ≢ 2 ^ 64 - 1
      → w.timers.timers ≡ []
      → later (sys.clock w.kernel) timeout ≤ now
      → (let t = (start_timer sys w timeout info).1.timers in
          due_cbs t.store now t.timers ≡ some info ∷ [])
  unfolding add_timer add_timer_ptr insert
  armed_due w timeout info now d e h =
      let start = sys.clock w.kernel in
      let id = w.timers.allocated in
      let timer : Timer = record {
        recurring = false;
        ms = timeout;
        next = later start timeout;
        cb = some info;
      } in
      let store = update w.timers.store id timer in
      ap (λ (t : TimerManager). due_cbs t.store now t.timers)
        (start_timer-set sys w timeout info (ne→== timeout (2 ^ 64 - 1) d))
      ∙ ap (λ xs. due_cbs store now (insert store id xs)) e
      ∙ ap (λ (t : Timer). if leb t.next now then t.cb ∷ [] else [])
          (update_self w.timers.store id timer)
      ∙ ap (λ b. if b then some info ∷ [] else []) (le→leb (later start timeout) now h)

  abbrev io_of : IoManager → Outcome (Bool × IoManager) → IoManager
  io_of m o = elim o [ ok r ↦ r.1 | _ ↦ m ]

  -- `n` is `m` after a wait that timed out: the fiber is scheduled once, on its scheduler, and the
  -- events and their count are as before.
  pub record GivenUp (m : IoManager) (scheduler fiber : ℕ) (n : IoManager) : Type 0 where
    pub task : Task
    pub scheduled : n.scheduled ≡ m.scheduled ++ task ∷ []
    pub on_scheduler : some task.scheduler ≡ some scheduler
    pub of_fiber : task.fiber ≡ some fiber
    pub pending : n.pending ≡ m.pending
    pub events : (j : ℕ) → events_at n j ≡ events_at m j

  -- With hooks, for an open socket with a time-out that the user left blocking, where the system call would
  -- block, `epoll_ctl` succeeds, no other timer is set, and all that happens while the fiber waits is that the
  -- timers that are due are called back at a time when that of the time-out is due, `do_io` returns the error `ETIMEDOUT`. The fiber has then been scheduled once, and the events and the
  -- pending count are as they were before the call.
  pub do_io-GivenUp :
      (now fuel : ℕ) (fun : Syscall K) (fd : ℕ) (event : Event) (receive : Bool) (w : World K)
      (ctx : FdCtx)
      → fd < 2 ^ 31
      → ((k : K) → sys.epoll_ctl k ≡ 0)
      → w.hook_enable ≡ true
      → data_at w.datas fd ≡ some ctx
      → ctx.is_closed ≡ false
      → ctx.is_socket ≡ true
      → ctx.user_nonblock ≡ false
      → CanWait fd event w
      → (fun w.kernel).0 ≡ failed eagain
      → get_timeout ctx receive ≢ 2 ^ 64 - 1
      → w.timers.timers ≡ []
      → later (sys.clock (fun w.kernel).1) (get_timeout ctx receive) ≤ now
      → (u : World K) × (do_io sys
            (timers_only now fd event w.allocated)
            (suc fuel)
            fun
            fd
            event
            receive
            w
          ≡ ok (failed etimedout, u))
        × GivenUp w.io w.scheduler w.fiber u.io
  do_io-GivenUp now fuel fun fd event receive w ctx small epoll on found opened socket blocking can
        blocks limited alone after_start =
      let info = w.allocated in
      let others = timers_only now fd event info in
      let timeout = get_timeout ctx receive in
      let start = new_info sys w in
      let called : World K = record start { kernel = (fun w.kernel).1 } in
      let can_called : CanWait fd event called = record {
        has_io = can.has_io;
        valid = can.valid;
        two_slots = can.two_slots;
        absent = can.absent;
      } in
      let (u, timers, run, waits, same_kernel, same_infos, added, armed) =
        wait_lem sys others called fd event timeout info small (epoll called.kernel) can_called in
      let (
        n,
        k,
        task,
        run_add,
        run_cancel,
        scheduled,
        (on_scheduler, of_fiber, of_cb),
        pending,
        events,
      ) =
        cancel-add w.io fd event none w.scheduler w.fiber true can.valid can.two_slots small
          can.absent refl in
      let same_io : n ≡ u.io = ap (io_of n) (sym run_add ∙ added) in
      let fired =
        on_timeout_fires u fd event info k
          (ap (λ f. f info) same_infos ∙ update_self w.infos info (some false)) (epoll u.kernel)
          (ap (λ m. cancel_event m fd event 0) (sym same_io) ∙ run_cancel) in
      let after : World K = record u {
        infos = update u.infos info (some true);
        io = k;
        timers = timers;
      } in
      let due : due_cbs u.timers.store now u.timers.timers ≡ some info ∷ [] =
        ap (λ (t : TimerManager). due_cbs t.store now t.timers) armed
        ∙ armed_due called timeout info now limited alone after_start in
      let ran : others u ≡ record u { infos = update u.infos info (some true); io = k } =
        ap (λ cbs. call_back fd event info cbs u) due
        ∙ ap (λ b. if b then elim (on_timeout sys u fd event info) [ ok v ↦ v | _ ↦ u ] else u)
            (eq→== info info refl)
        ∙ ap (λ (o : Outcome (World K)). elim o [ ok v ↦ v | _ ↦ u ]) fired in
      let waited = run ∙ ap (λ (v : World K). ok (true, record v { timers = timers })) ran in
      let timed_out =
        loop_timed_out sys others fun fd event timeout info fuel start after blocks waited
          (is_cancelled-some after info true (update_self u.infos info (some true))) in
      (
        (drop_info sys info (failed etimedout, after)).1,
        hooked sys others (suc fuel) fun fd event receive w on
            ∙ ap (do_io_on sys others (suc fuel) fun fd event receive w) found
            ∙ open_socket sys others (suc fuel) fun fd event receive w ctx opened socket blocking
            ∙ ap (λ o. o >>= λ x. ok (drop_info sys info x)) timed_out,
        record {
          task = task;
          scheduled = scheduled;
          on_scheduler = on_scheduler;
          of_fiber = of_fiber;
          pending = pending;
          events = events;
        },
      )
