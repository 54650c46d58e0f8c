-- ===== src/Hook/Tests.antt =====
-- Runs of the hooked calls at concrete inputs, and the theorems on them applied there.
use dag.Common.{ℕ, zero, suc, ◌<◌, ◌≡◌, ◌⊎◌, refl, true, false, some, none, [], ◌∷◌, arith, ok}
use dag.FdManager.{FdCtx, get_timeout}
use dag.FdManager.Table.{Stored}
use dag.IoManager.{on_read, no_events}
use dag.IoManager.Draining.{Drained}
use dag.IoManager.Tests.{waiting, two_contexts, two_contexts-IsValid}
use dag.Hook.{Reply, returned, failed, eagain, etimedout, System, World, Syscall, on_timeout, do_io}
use dag.Hook.Calls.{
  Command, set_flags, get_flags, other_command, plain, has_nonblock, system_flags, fcntl,
  setsockopt, close,
}
use dag.Hook.Waiting.{again, CanWait, Waits}
use dag.Hook.Answers.{Answered, TimedOut, do_io-Done}
use dag.Hook.Expiry.{timers_only, GivenUp, do_io-GivenUp}
use dag.Hook.Flags.{fcntl_lem, setsockopt_lem}
use dag.Hook.Closing.{close-Drained}

-- What the system keeps: how often a read would still block, or the flags of a descriptor.
abbrev a_system : System ℕ
a_system = record {
  clock = λ k. 0;
  epoll_ctl = λ k. 0;
  errno = λ k. 0;
  stat = λ k fd. record { opened = true; socket = true; nonblock = true };
}

abbrev busy_read : Syscall ℕ
busy_read zero = (returned 5, zero)
busy_read (suc k) = (failed eagain, k)

abbrev socket_of : ℕ → FdCtx
socket_of fd = record {
  is_init = true;
  is_socket = true;
  sys_nonblock = true;
  user_nonblock = false;
  is_closed = false;
  fd = fd;
  recv_timeout = 20;
  send_timeout = 30;
}

abbrev a_world : ℕ → World ℕ
a_world k = record {
  hook_enable = true;
  datas = some (socket_of 0) ∷ some (socket_of 1) ∷ [];
  timers = record {
    timers = [];
    tickled = false;
    previous_time = 0;
    store = λ _. record { recurring = false; ms = 0; next = 0; cb = none };
    allocated = 0;
  };
  has_io = true;
  io = two_contexts;
  scheduler = 5;
  fiber = 6;
  infos = λ _. none;
  allocated = 0;
  kernel = k;
}

-- The other fibers leave the table of events as it was before the wait.
abbrev others : World ℕ → World ℕ
others w = record w { io = two_contexts }

resumed : (u : World ℕ) → Waits 0 on_read u → CanWait 0 on_read (others u)
resumed u waits = record {
  has_io = waits.has_io;
  valid = two_contexts-IsValid;
  two_slots = omega arith;
  absent = refl;
}

falls : (k : ℕ) → again (busy_read k).0 ≡ true → (busy_read k).1 < k
falls zero h = absurd (cc h)
falls (suc k) h = omega arith

can_wait : (k : ℕ) → CanWait 0 on_read (a_world k)
can_wait k = record {
  has_io = refl;
  valid = two_contexts-IsValid;
  two_slots = omega arith;
  absent = refl;
}

do_io-Done_example :
    (r : Reply) × (u : World ℕ) × (do_io a_system others 3 busy_read 0 on_read true (a_world 2)
      ≡ ok (r, u))
    × (Answered a_system others busy_read 0 on_read r u
        ⊎ ((r ≡ failed etimedout) × TimedOut a_system others busy_read 0 on_read 20 0))
    × CanWait 0 on_read u
    × (on_timeout a_system u 0 on_read 0 ≡ ok u)
unfolding get_timeout
do_io-Done_example =
    do_io-Done a_system others busy_read 0 on_read (omega arith) (λ k. refl) resumed (λ k. k) falls
      (λ u. omega arith) 3 true (a_world 2) (socket_of 0) refl refl refl refl refl (can_wait 2)
      (omega arith)

do_io-GivenUp_example :
    (u : World ℕ) × (do_io a_system
        (timers_only a_system 20_000_000 0 on_read 0)
        1
        busy_read
        0
        on_read
        true
        (a_world 2)
      ≡ ok (failed etimedout, u))
    × GivenUp a_system two_contexts 5 6 u.io
unfolding get_timeout
do_io-GivenUp_example =
    do_io-GivenUp a_system 20_000_000 0 busy_read 0 on_read true (a_world 2) (socket_of 0)
      (omega arith) (λ k. refl) refl refl refl refl refl (can_wait 2) refl
      (λ e. absurd (omega (arith, e))) refl (omega arith)

-- A system that keeps the flags of the descriptor.
abbrev keep_flags : Command → Syscall ℕ
keep_flags (set_flags arg) k = (returned 0, arg)
keep_flags get_flags k = (returned k, k)
keep_flags (other_command c) k = (failed 22, k)

fcntl_lem_example :
    (u : World ℕ) × (v : World ℕ) × (shown : ℕ) × (has_nonblock (system_flags (socket_of 0) 2)
      ≡ true)
    × (fcntl a_system others keep_flags 0 (set_flags 2) (a_world 0) ≡ ok (plain (returned 0), u))
    × (fcntl a_system others keep_flags 0 get_flags u ≡ ok (plain (returned shown), v))
    × (has_nonblock shown ≡ has_nonblock 2)
fcntl_lem_example =
    fcntl_lem a_system others keep_flags 0 (a_world 0) (socket_of 0) 2 2050 refl refl refl refl

setsockopt_lem_example :
    (u : World ℕ) × (new : FdCtx) × (setsockopt a_system others busy_read 0
        (some (true, 2, 3500))
        (a_world 0)
      ≡ ok (returned 5, u))
    × Stored (a_world 0).datas 0 (some new) u.datas
    × (get_timeout new true ≡ 2003)
    × (get_timeout new false ≡ get_timeout (socket_of 0) false)
setsockopt_lem_example =
    setsockopt_lem a_system others busy_read 0 true 2 3500 (a_world 0) (socket_of 0) refl refl

close-Drained_example :
    (u : World ℕ) × (close a_system others busy_read 1 (a_world 0) ≡ ok (returned 5, u))
    × (u.kernel ≡ 0)
    × Stored (a_world 0).datas 1 none u.datas
    × Drained two_contexts 1 no_events u.io
close-Drained_example =
    close-Drained a_system others busy_read 1 (a_world 0) (socket_of 1) waiting refl refl refl refl
      two_contexts-IsValid refl refl
