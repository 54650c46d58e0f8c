-- ===== src/Scheduler/Queue.antt =====
-- Which task a round takes, and what it leaves.
use dag.Common.{
  ℕ, ◌+◌, ◌≡◌, ◌≢◌, refl, ◌⊎◌, inl, inr, Bool, true, false, not, ◌||◌, Option, some, none, List, [],
  ◌∷◌, ◌++◌, arith, ok, is_some, Bool-cases,
}
use dag.Scheduler.{
  SchedulerTask, Scheduler, is_empty, has_work, scheduler_lock, is_elsewhere, take_task, choose,
  start_action, continue_round, begin_round, end_round, Action, run_fiber, skip_fiber, run_cb,
  run_idle, leave,
}

abbrev pub All : (SchedulerTask → Bool) → List SchedulerTask → Type 0
All p [] = Unit
All p (x ∷ xs) = (p x ≡ true) × All p xs

-- Every task in the queue has a fiber or a callback.
abbrev pub IsValid : Scheduler → Type 0
IsValid s = All has_work s.tasks

All-append :
    (p : SchedulerTask → Bool) (xs ys : List SchedulerTask) → All p xs → All p ys → All p (xs ++ ys)
All-append p [] ys a b = b
All-append p (x ∷ xs) ys a b = (a.0, All-append p xs ys a.1 b)

-- `schedulerLock` keeps each task in the queue one with a fiber or a callback, also when it is
-- given a task with neither.
pub scheduler_lock-IsValid :
    (s : Scheduler) (task : SchedulerTask) → IsValid s → IsValid (scheduler_lock s task).1
unfolding scheduler_lock
scheduler_lock-IsValid s task v = elim (Bool-cases (has_work task)) [
  | inl h ↦ rw h (All-append has_work s.tasks (task ∷ []) v (h, tt))
  | inr h ↦ rw h v
]

-- What taking a task from `tasks` gives: the first that is not for another thread, with the tasks
-- around it left in their order, and a tickle if any is left; or none, if all are for other threads.
pub data Taken (thread : ℕ)
    : List SchedulerTask → Option SchedulerTask × List SchedulerTask × Bool → Type 0 where
  none_here :
      (tasks : List SchedulerTask)
      → All (is_elsewhere thread) tasks
      → Taken thread tasks (none, tasks, not (is_empty tasks))
  found :
      (before : List SchedulerTask) (task : SchedulerTask) (after : List SchedulerTask)
      → All (is_elsewhere thread) before
      → is_elsewhere thread task ≡ false
      → has_work task ≡ true
      → Taken thread
          (before ++ task ∷ after)
          (some task, before ++ after, not (is_empty (before ++ after)))

skip :
    (thread : ℕ) (x : SchedulerTask) (xs : List SchedulerTask)
    (r : Option SchedulerTask × List SchedulerTask × Bool)
    → is_elsewhere thread x ≡ true
    → Taken thread xs r
    → Taken thread (x ∷ xs) (r.0, x ∷ r.1, true)
skip thread x _ _ h (none_here tasks a) = none_here (x ∷ tasks) (h, a)
skip thread x _ _ h (found before task after a e w) = found (x ∷ before) task after (h, a) e w

-- On a queue whose tasks each have a fiber or a callback, the loop passes its assertion and takes the
-- first task that is not for another thread. The others stay in their order. It asks for a tickle
-- exactly if a task is left.
pub take_task_lem :
    (thread : ℕ) (tasks : List SchedulerTask)
    → All has_work tasks
    → (r : Option SchedulerTask × List SchedulerTask × Bool) × (take_task thread tasks ≡ ok r)
      × Taken thread tasks r
      × All has_work r.1
unfolding take_task
take_task_lem thread [] v = (_, refl, none_here [] tt, tt)
take_task_lem thread (x ∷ xs) v = elim (Bool-cases (is_elsewhere thread x)) [
  | inl h ↦
      let (r, run, taken, work) = take_task_lem thread xs v.1 in
      (_, rw (h, run) refl, skip thread x xs r h taken, (v.0, work))
  | inr h ↦ (_, rw (h, v.0) refl, found [] x xs tt h v.0, v.1)
]

-- A round that began with `action` from `s` and left `n`: the queue is valid, only a queue without a
-- task for the thread makes it run the idle fiber or leave, and its end takes the counts back.
pub record Round (s : Scheduler) (thread : ℕ) (action : Action) (n : Scheduler) : Type 0 where
  pub valid : IsValid n
  pub idle : (action ≡ run_idle) ⊎ (action ≡ leave) → All (is_elsewhere thread) n.tasks
  pub active : (end_round n action).active_thread_count ≡ s.active_thread_count
  pub waiting : (end_round n action).idle_thread_count ≡ s.idle_thread_count

choose_work :
    (fiber cb : Option ℕ) (is_term : ℕ → Bool) (idle_term : Bool)
    → (is_some fiber || is_some cb) ≡ true
    → (choose fiber cb is_term idle_term ≢ run_idle) × (choose fiber cb is_term idle_term ≢ leave)
unfolding choose
choose_work (some f) cb is_term idle_term w = elim (Bool-cases (is_term f)) [
  | inl t ↦ rw t ((λ e. absurd (cc e)), (λ e. absurd (cc e)))
  | inr t ↦ rw t ((λ e. absurd (cc e)), (λ e. absurd (cc e)))
]
choose_work none (some c) is_term idle_term w = ((λ e. absurd (cc e)), (λ e. absurd (cc e)))
choose_work none none is_term idle_term w = absurd (cc w)

start_action-Round :
    (s : Scheduler) (thread : ℕ) (tasks : List SchedulerTask) (action : Action)
    → action ≢ run_idle
    → action ≢ leave
    → All has_work tasks
    → Round s thread action (
        start_action
          (record s { tasks = tasks; active_thread_count = s.active_thread_count + 1 })
          action)
unfolding start_action end_round
start_action-Round s thread tasks run_idle i l v = absurd (i refl)
start_action-Round s thread tasks leave i l v = absurd (l refl)
start_action-Round s thread tasks (run_fiber f) i l v = record {
  valid = v;
  idle = elim [ inl e ↦ absurd (i e) | inr e ↦ absurd (l e) ];
  active = omega arith;
  waiting = refl;
}
start_action-Round s thread tasks (skip_fiber f) i l v = record {
  valid = v;
  idle = elim [ inl e ↦ absurd (i e) | inr e ↦ absurd (l e) ];
  active = omega arith;
  waiting = refl;
}
start_action-Round s thread tasks (run_cb c) i l v = record {
  valid = v;
  idle = elim [ inl e ↦ absurd (i e) | inr e ↦ absurd (l e) ];
  active = omega arith;
  waiting = refl;
}

continue_round-Round :
    (s : Scheduler) (thread : ℕ) (is_term : ℕ → Bool) (idle_term : Bool)
    (tasks : List SchedulerTask) (r : Option SchedulerTask × List SchedulerTask × Bool)
    → Taken thread tasks r
    → All has_work r.1
    → Round s thread
        (continue_round s is_term idle_term r).0
        (continue_round s is_term idle_term r).2
unfolding continue_round choose start_action end_round
continue_round-Round s thread is_term true _ _ (none_here tasks a) v = record {
  valid = v;
  idle = λ i. a;
  active = refl;
  waiting = refl;
}
continue_round-Round s thread is_term false _ _ (none_here tasks a) v = record {
  valid = v;
  idle = λ i. a;
  active = refl;
  waiting = omega arith;
}
continue_round-Round s thread is_term idle_term _ _ (found before task after a e w) v =
    let (i, l) = choose_work task.fiber task.cb is_term idle_term w in
    start_action-Round s thread (before ++ after) (choose task.fiber task.cb is_term idle_term) i l
      v

-- On a queue whose tasks each have a fiber or a callback, a round of `run` passes its assertion and
-- keeps the queue so. It runs the idle fiber, or ends the loop, only if each task in the queue is for
-- another thread; and its end takes back the count that its beginning raised.
pub begin_round-Round :
    (s : Scheduler) (thread : ℕ) (is_term : ℕ → Bool) (idle_term : Bool)
    → IsValid s
    → (r : Action × Bool × Scheduler) × (begin_round s thread is_term idle_term ≡ ok r)
      × Round s thread r.0 r.2
unfolding begin_round
begin_round-Round s thread is_term idle_term v =
    let (r, run, taken, work) = take_task_lem thread s.tasks v in
    (
      continue_round s is_term idle_term r,
      rw run refl,
      continue_round-Round s thread is_term idle_term s.tasks r taken work,
    )
