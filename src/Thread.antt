-- ===== src/Thread.antt =====
-- dag/thread.h and dag/thread.cpp: the semaphore, and the start of a thread as steps of two threads, the one
-- in the constructor of `Thread` and the one in `Thread::run`. A count is the `int` of 32 bits as an unsigned number.
pub mod Passing
pub mod Tests
use dag.Common.{
  ℕ, ◌+◌, ◌-◌, ◌%◌, ◌^◌, ◌≡◌, Bool, true, false, Option, some, none, ◌==◌, if◌then◌else◌, Outcome,
  ok, fault,
}

-- `Semaphore::wait`: the count after it, or none while it blocks.
abbrev pub wait : ℕ → Option ℕ
wait count = if count == 0 then some ((count + 2 ^ 32 - 1) % 2 ^ 32) else none

-- `Semaphore::signal`; the greatest `int` cannot be raised.
abbrev pub signal : ℕ → Outcome ℕ
signal count = if count == 2 ^ 31 - 1 then fault else ok ((count + 1) % 2 ^ 32)

-- A thread that starts: its semaphore, whether the constructor has passed `wait`, and whether `run` has
-- signalled.
pub record Starting : Type 0 where
  pub count : ℕ
  pub constructed : Bool
  pub signalled : Bool

abbrev pub new_thread : Starting
new_thread = record { count = 0; constructed = false; signalled = false }

pub data Step : Starting → Starting → Type 0 where
  passes :
      {s : Starting} {c : ℕ}
      → s.constructed ≡ false
      → wait s.count ≡ some c
      → Step s (record s { count = c; constructed = true })
  signals :
      {s : Starting} {c : ℕ}
      → s.signalled ≡ false
      → signal s.count ≡ ok c
      → Step s (record s { count = c; signalled = true })

pub data Steps : Starting → Starting → Type 0 where
  done : {s : Starting} → Steps s s
  next : {s t u : Starting} → Step s t → Steps t u → Steps s u
