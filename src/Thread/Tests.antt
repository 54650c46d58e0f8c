-- ===== src/Thread/Tests.antt =====
-- The new thread signals first.
use dag.Common.{◌≡◌, refl, true, false}
use dag.Thread.{Starting, signals, done, next}
use dag.Thread.Passing.{wait-signalled}

abbrev signalled_first : Starting
signalled_first = record { count = 1; constructed = false; signalled = true }

wait-signalled_example : signalled_first.constructed ≡ false
wait-signalled_example =
    wait-signalled signalled_first signalled_first (next (signals refl refl) done) refl refl done
