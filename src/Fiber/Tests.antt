-- ===== src/Fiber/Tests.antt =====
-- Runs of the fibers at concrete inputs, and the theorems on them applied there.
use dag.Common.{zero, suc, some, none, true, false}
use dag.Fiber.{Thread, ready, running}

-- A thread in its main fiber 0, with a ready fiber 1.
abbrev main_thread : Thread
main_thread = record {
  fibers = elim [
    | zero ↦ record { state = running; cb = none; has_stack = false; run_in_scheduler = true }
    | suc n ↦ record { state = ready; cb = some 9; has_stack = true; run_in_scheduler = false }
  ];
  next_id = 2;
  current = some 0;
  thread_fiber = some 0;
  scheduler_fiber = some 0;
  context = λ id. id;
  executing = 0;
}
