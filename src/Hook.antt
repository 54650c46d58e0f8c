-- ===== src/Hook.antt =====
-- dag/hook.h and dag/hook.cpp: the system calls that a fiber waits in. The system calls themselves,
-- the clock and what `epoll_ctl` and `fstat` return are parameters, over a type `K` of what the system
-- and the rest of the program keep. What runs from `yield` until the fiber is resumed is a function
-- `others`. `IOManager::GetThis()` is the manager of the thread, null outside a scheduler. What a call
-- prints, and the byte that `tickle` writes, are left out.
pub mod Calls
pub mod Blocking
pub mod Waiting
pub mod Answers
pub mod Expiry
pub mod Tests
pub mod Flags
pub mod Closing
use dag.Common.{
  ℕ, zero, suc, ◌+◌, ◌-◌, ◌^◌, Bool, true, false, not, ◌&&◌, ◌||◌, Option, some, none, ◌==◌,
  if◌then◌else◌, Outcome, ok, fault, stuck, ◌>>=◌, ◌>>◌, is_some, update, set,
}
use dag.FdManager as Fd
use dag.FdManager.{FdCtx, Stat, Datas, get_timeout, set_timeout, get, del}
use dag.Timer as Timer
use dag.Timer.{TimerManager, add_timer}
use dag.IoManager.{Event, on_read, on_write, IoManager, Task, add_event, cancel_event, cancel_all}

-- What a system call returns: a number that is not negative, or -1 with `errno`.
pub data Reply : Type 0 where
  returned : ℕ → Reply
  failed : ℕ → Reply

abbrev pub eintr : ℕ
eintr = 4

abbrev pub ebadf : ℕ
ebadf = 9

-- `EAGAIN`, which is `EWOULDBLOCK` too
abbrev pub eagain : ℕ
eagain = 11

abbrev pub etimedout : ℕ
etimedout = 110

abbrev pub einprogress : ℕ
einprogress = 115

-- What the hooks use of the system.
pub record System (K : Type 0) : Type 0 where
  pub clock : K → ℕ
  pub epoll_ctl : K → ℕ
  pub errno : K → ℕ
  pub stat : K → ℕ → Stat

-- A thread with its hooks. An object `timer_info` is a number, with `cancelled` kept while it lives.
pub record World (K : Type 0) : Type 0 where
  pub hook_enable : Bool
  pub datas : Datas
  pub timers : TimerManager
  pub has_io : Bool
  pub io : IoManager
  pub scheduler : ℕ
  pub fiber : ℕ
  pub infos : ℕ → Option Bool
  pub allocated : ℕ
  pub kernel : K

-- A system call, and one of the hooked program's.
abbrev pub Syscall : Type 0 → Type 0
Syscall K = K → Reply × K

module _ {K : Type 0} (sys : System K) where
  -- `FdMgr::GetInstance()->get(fd)`, which changes nothing.
  abbrev pub find_ctx : World K → ℕ → Outcome (Option FdCtx)
  find_ctx w fd = get w.datas (some fd) false (sys.stat w.kernel fd) >>= λ r. ok r.0

  abbrev pub call : Syscall K → World K → Reply × World K
  call fun w = let r = fun w.kernel in (r.0, record w { kernel = r.1 })

  -- The callback of the condition timer.
  unfoldable pub on_timeout : World K → ℕ → Event → ℕ → Outcome (World K)
  on_timeout w fd event info = elim (w.infos info) [
    | none ↦ ok w
    | some cancelled ↦
        if cancelled
        then ok w
        else (cancel_event w.io fd event (sys.epoll_ctl w.kernel) >>= λ r.
            ok (record w { infos = update w.infos info (some true); io = r.1 }))
  ]

  -- The condition timer, unless the time-out is none (-1): the timer, and the world. Its callback has the
  -- number of the `timer_info`.
  unfoldable pub start_timer : World K → ℕ → ℕ → Option ℕ × World K
  start_timer w timeout info =
      if timeout == 2 ^ 64 - 1
      then (none, w)
      else (let r = add_timer w.timers timeout (some info) false (sys.clock w.kernel) in
          (some r.0, record w { timers = r.2 }))

  -- `if(timer) timer->cancel()`
  unfoldable pub cancel_timer : World K → Option ℕ → World K
  cancel_timer w none = w
  cancel_timer w (some id) = record w { timers = (Timer.cancel w.timers id).1 }

  -- `iom->addEvent(fd, event)` of the running fiber.
  abbrev pub wait_event : World K → ℕ → Event → Outcome (Bool × World K)
  wait_event w fd event =
      (if w.has_io
        then add_event w.io fd event none w.scheduler w.fiber true (sys.epoll_ctl w.kernel)
        else fault)
      >>= λ r. ok (r.0, record w { io = r.1 })

  unfoldable pub is_cancelled : World K → ℕ → Bool
  is_cancelled w info = elim (w.infos info) [ none ↦ false | some cancelled ↦ cancelled ]

  -- A wait: the timer, the event, and the switch to other fibers. `false` if the event was refused.
  unfoldable pub wait : (World K → World K) → World K → ℕ → Event → ℕ → ℕ → Outcome (Bool × World K)
  wait others w fd event timeout info =
      let armed = start_timer w timeout info in
      wait_event armed.1 fd event >>= λ r.
      if r.0
      then ok (true, cancel_timer (others r.1) armed.0)
      else ok (false, cancel_timer r.1 armed.0)

  -- `do_io` from `retry` on.
  unfoldable pub io_loop :
      (World K → World K) → Syscall K → ℕ → Event → ℕ → ℕ → ℕ → World K → Outcome (Reply × World K)
  io_loop others fun fd event timeout info zero w = stuck
  io_loop others fun fd event timeout info (suc fuel) w =
      let r = call fun w in
      elim r.0 [
        | returned n ↦ ok (returned n, r.1)
        | failed e ↦ elim (e == eintr) [
          | true ↦ io_loop others fun fd event timeout info fuel r.1
          | false ↦ elim (e == eagain) [
            | false ↦ ok (failed e, r.1)
            | true ↦ wait others r.1 fd event timeout info >>= λ a. elim a.0 [
              | false ↦ ok (failed (sys.errno a.1.kernel), a.1)
              | true ↦ elim (is_cancelled a.1 info) [
                | true ↦ ok (failed etimedout, a.1)
                | false ↦ io_loop others fun fd event timeout info fuel a.1
              ]
            ]
          ]
        ]
      ]

  abbrev pub new_info : World K → World K
  new_info w = record w {
    infos = update w.infos w.allocated (some false);
    allocated = w.allocated + 1;
  }

  abbrev pub drop_info : ℕ → Reply × World K → Reply × World K
  drop_info info r = (r.0, record r.1 { infos = update r.1.infos info none })

  -- `do_io` once the context is looked up, where `receive` is whether `timeout_so` is `SO_RCVTIMEO`.
  unfoldable pub do_io_on :
      (World K → World K)
      → ℕ
      → Syscall K
      → ℕ
      → Event
      → Bool
      → World K
      → Option FdCtx
      → Outcome (Reply × World K)
  do_io_on others fuel fun fd event receive w none = ok (call fun w)
  do_io_on others fuel fun fd event receive w (some ctx) =
      if ctx.is_closed
      then ok (failed ebadf, w)
      else if not ctx.is_socket || ctx.user_nonblock
      then ok (call fun w)
      else (io_loop others fun fd event (get_timeout ctx receive) w.allocated fuel (new_info w)
          >>= λ r. ok (drop_info w.allocated r))

  unfoldable pub do_io :
      (World K → World K) → ℕ → Syscall K → ℕ → Event → Bool → World K → Outcome (Reply × World K)
  do_io others fuel fun fd event receive w =
      if w.hook_enable
      then (find_ctx w fd >>= λ found. do_io_on others fuel fun fd event receive w found)
      else ok (call fun w)
