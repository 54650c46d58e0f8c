-- ===== src/Scheduler/Tests.antt =====
-- Runs of the queue at concrete inputs, and the theorems on it applied there.
use dag.Common.{◌≡◌, refl, List, [], ◌∷◌, Option, some, none, ok, Bool, false}
use dag.Scheduler.{SchedulerTask, Scheduler, has_work, take_task, begin_round, Action}
use dag.Scheduler.Queue.{All, Taken, take_task_lem, Round, begin_round-Round}

-- A callback for thread 2 only, and a fiber for any thread.
abbrev two_tasks : List SchedulerTask
two_tasks =
    record { fiber = none; cb = some 3; thread = some 2 }
    ∷ record { fiber = some 4; cb = none; thread = none }
    ∷ []

take_task_lem_example :
    (r : Option SchedulerTask × List SchedulerTask × Bool) × (take_task 1 two_tasks ≡ ok r)
    × Taken 1 two_tasks r
    × All has_work r.1
take_task_lem_example = take_task_lem 1 two_tasks (refl, (refl, tt))

abbrev queued : Scheduler
queued = record {
  tasks = two_tasks;
  active_thread_count = 0;
  idle_thread_count = 0;
  stopping = false;
}

begin_round-Round_example :
    (r : Action × Bool × Scheduler) × (begin_round queued 1 (λ f. false) false ≡ ok r)
    × Round queued 1 r.0 r.2
begin_round-Round_example = begin_round-Round queued 1 (λ f. false) false (refl, (refl, tt))
