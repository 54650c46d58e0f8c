-- ===== src/Scheduler.antt =====
-- dag/scheduler.h and dag/scheduler.cpp: the queue of tasks and a round of the loop of `run`. A fiber,
-- a callback and a thread are numbers, `none` for null and for the thread -1. What a task does when
-- it runs is not here: a round ends with what is run. After `m_tasks.erase(it)` the code goes on to
-- compare `it`; it is taken to point to the element after the one erased, as a vector's does.
pub mod Queue
pub mod Tests
use dag.Common.{
  ℕ, zero, suc, ◌+◌, ◌-◌, ◌%◌, ◌^◌, Bool, true, false, not, ◌&&◌, ◌||◌, Option, some, none, List,
  [], ◌∷◌, ◌++◌, ◌==◌, if◌then◌else◌, Outcome, ok, assert_failed, ◌>>=◌, ◌>>◌, assert, is_some,
}

pub record SchedulerTask : Type 0 where
  pub fiber : Option ℕ
  pub cb : Option ℕ
  pub thread : Option ℕ

pub record Scheduler : Type 0 where
  pub tasks : List SchedulerTask
  pub active_thread_count : ℕ
  pub idle_thread_count : ℕ
  pub stopping : Bool

abbrev pub is_empty {ℓ} : {A : Type ℓ} → List A → Bool
is_empty [] = true
is_empty (x ∷ xs) = false

abbrev pub has_work : SchedulerTask → Bool
has_work task = is_some task.fiber || is_some task.cb

-- `schedulerLock`: whether it calls `tickle`.
unfoldable pub scheduler_lock : Scheduler → SchedulerTask → Bool × Scheduler
scheduler_lock s task =
    (is_empty s.tasks, if has_work task then record s { tasks = s.tasks ++ task ∷ [] } else s)

-- A task for another thread than `thread`.
abbrev pub is_elsewhere : ℕ → SchedulerTask → Bool
is_elsewhere thread task = elim task.thread [ none ↦ false | some t ↦ not (t == thread) ]

-- The loop over the queue: the task taken out, the tasks left, and `tickle_me`.
unfoldable pub take_task :
    ℕ → List SchedulerTask → Outcome (Option SchedulerTask × List SchedulerTask × Bool)
take_task thread [] = ok (none, [], false)
take_task thread (task ∷ tasks) =
    let rest = take_task thread tasks in
    if is_elsewhere thread task
    then (rest >>= λ r. ok (r.0, task ∷ r.1, true))
    else assert (has_work task) >> ok (some task, tasks, not (is_empty tasks))

-- What a round of `run` goes on to do.
pub data Action : Type 0 where
  run_fiber : ℕ → Action
  skip_fiber : ℕ → Action
  run_cb : ℕ → Action
  run_idle : Action
  leave : Action

-- The choice of a round, by the fiber and the callback of its task, by whether a fiber is `TERM`, and by
-- whether the idle fiber is. Without a task both are null.
unfoldable pub choose : Option ℕ → Option ℕ → (ℕ → Bool) → Bool → Action
choose (some f) cb is_term idle_term = if is_term f then skip_fiber f else run_fiber f
choose none (some c) is_term idle_term = run_cb c
choose none none is_term idle_term = if idle_term then leave else run_idle

-- `m_idleThreadCount++` before the idle fiber.
unfoldable pub start_action : Scheduler → Action → Scheduler
start_action s run_idle = record s { idle_thread_count = s.idle_thread_count + 1 }
start_action s leave = s
start_action s (run_fiber f) = s
start_action s (skip_fiber f) = s
start_action s (run_cb c) = s

-- The rest of a round after the loop over the queue, up to the switch to what it runs: the choice,
-- whether it calls `tickle`, and the scheduler.
unfoldable pub continue_round :
    Scheduler
    → (ℕ → Bool)
    → Bool
    → Option SchedulerTask × List SchedulerTask × Bool
    → Action × Bool × Scheduler
continue_round s is_term idle_term (none, tasks, tickle_me) =
    let action = choose none none is_term idle_term in
    (action, tickle_me, start_action (record s { tasks = tasks }) action)
continue_round s is_term idle_term (some task, tasks, tickle_me) =
    let action = choose task.fiber task.cb is_term idle_term in
    let taken = record s { tasks = tasks; active_thread_count = s.active_thread_count + 1 } in
    (action, tickle_me, start_action taken action)

unfoldable pub begin_round : Scheduler → ℕ → (ℕ → Bool) → Bool → Outcome (Action × Bool × Scheduler)
begin_round s thread is_term idle_term =
    take_task thread s.tasks >>= λ r. ok (continue_round s is_term idle_term r)

-- What the round does once what it ran is back.
unfoldable pub end_round : Scheduler → Action → Scheduler
end_round s run_idle = record s { idle_thread_count = s.idle_thread_count - 1 }
end_round s leave = s
end_round s (run_fiber f) = record s { active_thread_count = s.active_thread_count - 1 }
end_round s (skip_fiber f) = record s { active_thread_count = s.active_thread_count - 1 }
end_round s (run_cb c) = record s { active_thread_count = s.active_thread_count - 1 }

-- `stopping()`, and the part of `stop` before it waits: whether it goes on, and the scheduler. `inside`
-- is whether the calling thread's scheduler is this one.
unfoldable pub is_stopping : Scheduler → Bool
is_stopping s = s.stopping && is_empty s.tasks && (s.active_thread_count == 0)

unfoldable pub stop : Scheduler → Bool → Bool → Outcome (Bool × Scheduler)
stop s use_caller inside =
    if is_stopping s
    then ok (false, s)
    else assert (if use_caller then inside else not inside)
      >> ok (true, record s { stopping = true })
