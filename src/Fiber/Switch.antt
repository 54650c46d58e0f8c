-- ===== src/Fiber/Switch.antt =====
-- What a switch to a fiber and back does.
use dag.Common.{ℕ, ◌≡◌, ◌≢◌, ◌⊎◌, true, false, some}
use dag.Fiber.{State, ready, running, Fiber, Thread, set_fiber, swap_context}

-- What holds of a fiber where it is resumed: its own context goes on with it, and `from` is what keeps
-- the execution that resumes it: the scheduler's fiber or the thread's, and not itself.
pub record Resumable (s : Thread) (id from : ℕ) : Type 0 where
  pub is_ready : (s.fibers id).state ≡ ready
  pub own : s.context id ≡ id
  pub other : from ≢ id
  pub keeper :
      (((s.fibers id).run_in_scheduler ≡ true) × (s.scheduler_fiber ≡ some from))
      ⊎ (((s.fibers id).run_in_scheduler ≡ false) × (s.thread_fiber ≡ some from))

entered : Thread → ℕ → ℕ → Thread
entered s id from =
    swap_context
      (record (set_fiber s id (record (s.fibers id) { state = running })) { current = some id })
      from id

left : Thread → ℕ → State → ℕ → Thread
left s id state to =
    swap_context
      (record (set_fiber s id (record (s.fibers id) { state = state })) { current = some to }) id to
