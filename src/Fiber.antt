-- ===== src/Fiber.antt =====
-- dag/fiber.h and dag/fiber.cpp: the fibers of one thread. `thread_fiber`, `scheduler_fiber` and
-- `current` are the thread's `t_thread_fiber`, `t_scheduler_fiber` and `t_fiber`; a fiber is its id, a
-- callback a number, `none` for null. `context` says whose execution a fiber's `m_ctx` holds, and `executing`
-- whose execution the thread goes on with; `current` is what the fibers take it for. `swapcontext` is
-- taken to succeed: a call that switches is its effect up to the switch.
pub mod Switch
pub mod Tests
use dag.Common.{
  ℕ, ◌+◌, Bool, true, false, ◌||◌, ◌&&◌, not, Option, some, none, if◌then◌else◌, Outcome, ok, ◌>>=◌,
  ◌>>◌, assert, deref, update,
}

pub data State : Type 0 where
  ready : State
  running : State
  term : State

abbrev pub is_ready : State → Bool
is_ready ready = true
is_ready running = false
is_ready term = false

abbrev pub is_running : State → Bool
is_running ready = false
is_running running = true
is_running term = false

abbrev pub is_term : State → Bool
is_term ready = false
is_term running = false
is_term term = true

pub record Fiber : Type 0 where
  pub state : State
  pub cb : Option ℕ
  pub has_stack : Bool
  pub run_in_scheduler : Bool

pub record Thread : Type 0 where
  pub fibers : ℕ → Fiber
  pub next_id : ℕ
  pub current : Option ℕ
  pub thread_fiber : Option ℕ
  pub scheduler_fiber : Option ℕ
  pub context : ℕ → ℕ
  pub executing : ℕ

-- `swapcontext(&old->m_ctx, &next->m_ctx)`
abbrev pub swap_context : Thread → ℕ → ℕ → Thread
swap_context s old next =
    let saved = update s.context old s.executing in
    record s { context = saved; executing = saved next }

abbrev pub set_fiber : Thread → ℕ → Fiber → Thread
set_fiber s id fiber = record s { fibers = update s.fibers id fiber }

-- `GetThis`, with the constructor `Fiber()` that it calls on a thread without a fiber.
unfoldable pub get_this : Thread → ℕ × Thread
get_this s = elim s.current [
  | some id ↦ (id, s)
  | none ↦
      let main : Fiber = record {
        state = running;
        cb = none;
        has_stack = false;
        run_in_scheduler = true;
      } in
      (
        s.next_id,
        record (set_fiber s s.next_id main) {
          next_id = s.next_id + 1;
          current = some s.next_id;
          executing = s.next_id;
          context = update s.context s.next_id s.next_id;
          thread_fiber = some s.next_id;
          scheduler_fiber = some s.next_id;
        },
      )
]

-- `Fiber(cb, stacksize, run_in_scheduler)`
unfoldable pub new_fiber : Thread → ℕ → Bool → ℕ × Thread
new_fiber s cb run_in_scheduler = (
  s.next_id,
  record (set_fiber s s.next_id (record {
    state = ready;
    cb = some cb;
    has_stack = true;
    run_in_scheduler = run_in_scheduler;
  })) { next_id = s.next_id + 1; context = update s.context s.next_id s.next_id },
)

unfoldable pub reset : Thread → ℕ → ℕ → Outcome Thread
reset s id cb =
    let fiber = s.fibers id in
    assert (fiber.has_stack && is_term fiber.state)
    >> ok (record (set_fiber s id (record fiber { state = ready; cb = some cb })) {
      context = update s.context id id;
    })

-- The fiber whose `m_ctx` keeps what runs when `fiber` is resumed, and that `fiber` yields to.
abbrev pub home : Thread → Fiber → Option ℕ
home s fiber = if fiber.run_in_scheduler then s.scheduler_fiber else s.thread_fiber

unfoldable pub resume : Thread → ℕ → Outcome Thread
resume s id =
    let fiber = s.fibers id in
    assert (is_ready fiber.state)
    >> (deref (home s fiber) >>= λ from. ok (
        swap_context
          (record (set_fiber s id (record fiber { state = running })) { current = some id }) from
          id))

unfoldable pub yield_fiber : Thread → ℕ → Outcome Thread
yield_fiber s id =
    let fiber = s.fibers id in
    assert (is_running fiber.state || is_term fiber.state)
    >> (deref (home s fiber) >>= λ to. ok (
        swap_context
          (record (set_fiber s id
            (record fiber { state = if is_term fiber.state then term else ready })) {
              current = some to;
            })
          id to))

-- `MainFunc` once the callback has returned.
unfoldable pub finish : Thread → Outcome Thread
finish s = deref s.current >>= λ id.
    yield_fiber (set_fiber s id (record (s.fibers id) { cb = none; state = term })) id

-- `SetSchedulerFiber`
unfoldable pub set_scheduler_fiber : Thread → ℕ → Thread
set_scheduler_fiber s id = record s { scheduler_fiber = some id }
