-- ===== src/Hook/Calls.antt =====
-- dag/hook.cpp: the hooked calls over `do_io` and the table of descriptors. `F_SETFL` and `F_GETFL` of
-- `fcntl` are the commands that are treated apart; the others are handed on.
use dag.Common.{
  ℕ, ◌+◌, ◌-◌, ◌*◌, ◌/◌, ◌%◌, ◌^◌, Bool, true, false, not, ◌||◌, Option, some, none, ◌==◌, ltb,
  if◌then◌else◌, Outcome, ok, fault, ◌>>=◌, set,
}
use dag.FdManager.{FdCtx, set_timeout, get, del}
use dag.Timer.{add_timer}
use dag.IoManager.{on_read, on_write, cancel_all}
use dag.Hook.{
  Reply, returned, failed, ebadf, einprogress, etimedout, System, World, Syscall, call, find_ctx,
  wait, new_info, drop_info, do_io,
}

-- `O_NONBLOCK` is the bit of 2048.
abbrev pub has_nonblock : ℕ → Bool
has_nonblock flags = flags / 2048 % 2 == 1

-- `flags | O_NONBLOCK` and `flags & ~O_NONBLOCK`
abbrev pub with_nonblock : ℕ → ℕ
with_nonblock flags = if has_nonblock flags then flags else flags + 2048

abbrev pub without_nonblock : ℕ → ℕ
without_nonblock flags = if has_nonblock flags then flags - 2048 else flags

pub data Command : Type 0 where
  set_flags : ℕ → Command
  get_flags : Command
  other_command : ℕ → Command

-- What `fcntl` returns: a number, -1 with `errno`, or -1 without the bit of `O_NONBLOCK`.
pub data FcntlReply : Type 0 where
  plain : Reply → FcntlReply
  error_without_bit : ℕ → FcntlReply

-- The context of a descriptor that `fcntl` treats as a socket.
abbrev pub socket_ctx : Option FdCtx → Option FdCtx
socket_ctx none = none
socket_ctx (some ctx) = if ctx.is_closed || not ctx.is_socket then none else some ctx

-- `ctx->setUserNonblock(arg & O_NONBLOCK)`, and the argument handed to the system.
abbrev pub set_user_nonblock : {K : Type 0} → World K → ℕ → FdCtx → ℕ → World K
set_user_nonblock w fd ctx arg = record w {
  datas = set w.datas fd (some (record ctx { user_nonblock = has_nonblock arg }));
}

abbrev pub system_flags : FdCtx → ℕ → ℕ
system_flags ctx arg = if ctx.sys_nonblock then with_nonblock arg else without_nonblock arg

-- The flags as the user set them. On -1, `& ~O_NONBLOCK` gives another number.
abbrev pub user_flags : FdCtx → Reply → FcntlReply
user_flags ctx (returned flags) =
    plain (returned (if ctx.user_nonblock then with_nonblock flags else without_nonblock flags))
user_flags ctx (failed e) = if ctx.user_nonblock then plain (failed e) else error_without_bit e

module _ {K : Type 0} (sys : System K) (others : World K → World K) where
  -- The timer that wakes the fiber up, whose callback is `waker`, and `yield`.
  abbrev pub sleep_for : World K → ℕ → ℕ → World K
  sleep_for w ms waker =
      let r = add_timer w.timers ms (some waker) false (sys.clock w.kernel) in
      others (record w { timers = r.2 })

  abbrev pub sleep_or_call : Syscall K → World K → ℕ → ℕ → Outcome (Reply × World K)
  sleep_or_call sleep_f w ms waker =
      if not w.hook_enable
      then ok (call sys sleep_f w)
      else if w.has_io
      then ok (returned 0, sleep_for w ms waker)
      else fault

  -- The product of `unsigned int` numbers is of 32 bits.
  unfoldable pub sleep : Syscall K → World K → ℕ → ℕ → Outcome (Reply × World K)
  sleep sleep_f w seconds waker = sleep_or_call sleep_f w (seconds * 1000 % 2 ^ 32) waker

  unfoldable pub usleep : Syscall K → World K → ℕ → ℕ → Outcome (Reply × World K)
  usleep usleep_f w usec waker = sleep_or_call usleep_f w (usec / 1000) waker

  -- An `int` of 32 bits, given as a `uint64_t`.
  abbrev pub int_to_uint64 : ℕ → ℕ
  int_to_uint64 n = if ltb (n % 2 ^ 32) (2 ^ 31) then n % 2 ^ 32 else n % 2 ^ 32 + (2 ^ 64 - 2 ^ 32)

  unfoldable pub nanosleep : Syscall K → World K → ℕ → ℕ → ℕ → Outcome (Reply × World K)
  nanosleep nanosleep_f w tv_sec tv_nsec waker =
      sleep_or_call nanosleep_f w (int_to_uint64 (tv_sec * 1000 + tv_nsec / 1000 / 1000)) waker

  -- `FdMgr::GetInstance()->get(fd, true)` behind a call that returned a descriptor.
  unfoldable pub keep_fd : Reply × World K → Outcome (Reply × World K)
  keep_fd (failed e, w) = ok (failed e, w)
  keep_fd (returned fd, w) = get w.datas (some fd) true (sys.stat w.kernel fd) >>= λ r.
      ok (returned fd, record w { datas = r.1 })

  unfoldable pub socket : Syscall K → World K → Outcome (Reply × World K)
  socket socket_f w =
      if w.hook_enable then keep_fd (call sys socket_f w) else ok (call sys socket_f w)

  unfoldable pub accept : ℕ → Syscall K → ℕ → World K → Outcome (Reply × World K)
  accept fuel accept_f sockfd w =
      do_io sys others fuel accept_f sockfd on_read true w >>= λ r. keep_fd r

  -- `read`, `readv`, `recv`, `recvfrom` and `recvmsg`, by their system call; `write`, `writev`, `send`,
  -- `sendto` and `sendmsg`.
  unfoldable pub receive : ℕ → Syscall K → ℕ → World K → Outcome (Reply × World K)
  receive fuel fun fd w = do_io sys others fuel fun fd on_read true w

  unfoldable pub transmit : ℕ → Syscall K → ℕ → World K → Outcome (Reply × World K)
  transmit fuel fun fd w = do_io sys others fuel fun fd on_write false w

  -- `getsockopt(fd, SOL_SOCKET, SO_ERROR, &error, &len)`: the error that it finds.
  abbrev pub socket_error : Syscall K → World K → Reply × World K
  socket_error getsockopt_f w =
      let r = call sys getsockopt_f w in
      elim r.0 [
        | failed e ↦ (failed e, r.1)
        | returned error ↦ (if error == 0 then returned 0 else failed error, r.1)
      ]

  -- `connect_with_timeout` once `connect` is in progress. If the event is refused it goes on to the error.
  unfoldable pub finish_connect : Syscall K → ℕ → ℕ → World K → Outcome (Reply × World K)
  finish_connect getsockopt_f fd timeout_ms w =
      let info = w.allocated in
      wait sys others (new_info sys w) fd on_write timeout_ms info >>= λ a.
      if a.0
      then elim (a.1.infos info) [
        | some true ↦ ok (drop_info sys info (failed etimedout, a.1))
        | _ ↦ ok (drop_info sys info (socket_error getsockopt_f a.1))
      ]
      else ok (drop_info sys info (socket_error getsockopt_f a.1))

  unfoldable pub connect_with_timeout :
      Syscall K → Syscall K → ℕ → ℕ → World K → Outcome (Reply × World K)
  connect_with_timeout connect_f getsockopt_f fd timeout_ms w =
      if not w.hook_enable
      then ok (call sys connect_f w)
      else (find_ctx sys w fd >>= λ found. elim found [
        | none ↦ ok (failed ebadf, w)
        | some ctx ↦
            if ctx.is_closed
            then ok (failed ebadf, w)
            else if not ctx.is_socket || ctx.user_nonblock
            then ok (call sys connect_f w)
            else (let r = call sys connect_f w in
                elim r.0 [
                  | returned n ↦ ok (returned n, r.1)
                  | failed e ↦
                      if e == einprogress
                      then finish_connect getsockopt_f fd timeout_ms r.1
                      else ok (failed e, r.1)
                ])
      ])

  -- `connect`, with the time-out that is none.
  unfoldable pub connect : Syscall K → Syscall K → ℕ → World K → Outcome (Reply × World K)
  connect connect_f getsockopt_f sockfd w =
      connect_with_timeout connect_f getsockopt_f sockfd (2 ^ 64 - 1) w

  -- `close` once the context is looked up.
  abbrev pub close_on : Syscall K → ℕ → World K → Option FdCtx → Outcome (Reply × World K)
  close_on close_f fd w none = ok (call sys close_f w)
  close_on close_f fd w (some ctx) =
      (if w.has_io
        then (cancel_all w.io fd (sys.epoll_ctl w.kernel) >>= λ r. ok (record w { io = r.1 }))
        else ok w)
      >>= λ w1. ok (call sys close_f (record w1 { datas = del w1.datas fd }))

  unfoldable pub close : Syscall K → ℕ → World K → Outcome (Reply × World K)
  close close_f fd w =
      if not w.hook_enable
      then ok (call sys close_f w)
      else (find_ctx sys w fd >>= λ found. close_on close_f fd w found)

  -- `F_SETFL` and `F_GETFL`, by the context of a socket.
  abbrev pub set_flags_on :
      (Command → Syscall K) → ℕ → ℕ → World K → Option FdCtx → Outcome (FcntlReply × World K)
  set_flags_on fcntl_f fd arg w none =
      let r = call sys (fcntl_f (set_flags arg)) w in ok (plain r.0, r.1)
  set_flags_on fcntl_f fd arg w (some ctx) =
      let w1 = set_user_nonblock w fd ctx arg in
      let r = call sys (fcntl_f (set_flags (system_flags ctx arg))) w1 in ok (plain r.0, r.1)

  abbrev pub get_flags_on : Reply × World K → Option FdCtx → Outcome (FcntlReply × World K)
  get_flags_on r none = ok (plain r.0, r.1)
  get_flags_on r (some ctx) = ok (user_flags ctx r.0, r.1)

  unfoldable pub fcntl :
      (Command → Syscall K) → ℕ → Command → World K → Outcome (FcntlReply × World K)
  fcntl fcntl_f fd (set_flags arg) w =
      find_ctx sys w fd >>= λ found. set_flags_on fcntl_f fd arg w (socket_ctx found)
  fcntl fcntl_f fd get_flags w =
      let r = call sys (fcntl_f get_flags) w in
      find_ctx sys r.1 fd >>= λ found. get_flags_on r (socket_ctx found)
  fcntl fcntl_f fd (other_command c) w =
      let r = call sys (fcntl_f (other_command c)) w in ok (plain r.0, r.1)

  -- `setsockopt` of a time-out `ms`, once the context is looked up.
  abbrev pub keep_timeout :
      Syscall K → ℕ → Bool → ℕ → World K → Option FdCtx → Outcome (Reply × World K)
  keep_timeout setsockopt_f fd receives ms w none = ok (call sys setsockopt_f w)
  keep_timeout setsockopt_f fd receives ms w (some ctx) = ok (
      call sys setsockopt_f
        (record w { datas = set w.datas fd (some (set_timeout ctx receives ms)) }))

  -- `setsockopt`, where `timeout` is the `timeval` of `SO_RCVTIMEO` or `SO_SNDTIMEO` of `SOL_SOCKET`, if the
  -- option is one of these: whether it is the first, its seconds and its microseconds.
  unfoldable pub setsockopt :
      Syscall K → ℕ → Option (Bool × ℕ × ℕ) → World K → Outcome (Reply × World K)
  setsockopt setsockopt_f fd none w = ok (call sys setsockopt_f w)
  setsockopt setsockopt_f fd (some (receives, tv_sec, tv_usec)) w =
      if not w.hook_enable
      then ok (call sys setsockopt_f w)
      else (find_ctx sys w fd >>= λ found.
          keep_timeout setsockopt_f fd receives (tv_sec * 1000 + tv_usec / 1000) w found)
