-- ===== src/Hook/Answers.antt =====
-- `do_io` comes to an end with an answer of the system call or with a time-out.
use dag.Common.{
  ℕ, zero, suc, ◌^◌, ◌≤◌, ◌<◌, ◌≡◌, ◌⊎◌, inl, inr, refl, ap, sym, ◌∙◌, Bool, true, false, some,
  none, ◌==◌, ==_iff, ok, ◌>>=◌, update_self, arith, Bool-cases,
}
use dag.FdManager.{FdCtx, data_at, get_timeout}
use dag.IoManager.{Event}
use dag.Hook.{
  Reply, returned, failed, eintr, eagain, etimedout, System, World, Syscall, call, on_timeout,
  is_cancelled, io_loop, new_info, drop_info, do_io_on, do_io,
}
use dag.Hook.Blocking.{hooked, open_socket, on_timeout-none}
use dag.Hook.Waiting.{
  again, Reply-cases, CanWait, Waits, Armed, start_timer-Armed, is_cancelled_same, wait_lem,
  loop_returned, loop_failed, loop_interrupted, loop_timed_out, loop_woken,
}

module _ {K : Type 0} (sys : System K) (others : World K → World K) (fun : Syscall K) (fd : ℕ)
    (event : Event) where
  -- A reply of the system call at some moment that is no `EINTR` and no `EAGAIN`, after which nothing else
  -- happened in the system.
  abbrev pub Answered : Reply → World K → Type 0
  Answered r w = (k : K) × ((fun k).0 ≡ r) × ((fun k).1 ≡ w.kernel) × (again r ≡ false)

  -- At some moment the fiber waited for the event with the timer set, and when it was resumed the timer had
  -- noted a time-out.
  abbrev pub TimedOut : ℕ → ℕ → Type 0
  TimedOut timeout info =
      (v : World K) × Waits fd event v
      × Armed timeout info v
      × (is_cancelled sys (others v) info ≡ true)

  -- The answer, or a time-out; the event is not registered.
  abbrev pub Done : ℕ → ℕ → Reply → World K → Type 0
  Done timeout info r w =
      (Answered r w ⊎ ((r ≡ failed etimedout) × TimedOut timeout info)) × CanWait fd event w

  -- What the loop relies on: `epoll_ctl` succeeds, and a fiber that waits for an event is resumed when
  -- the event was taken out.
  module _ (small : fd < 2 ^ 31) (epoll : (k : K) → sys.epoll_ctl k ≡ 0)
      (resumed : (u : World K) → Waits fd event u → CanWait fd event (others u)) (left : K → ℕ)
      (falls : (k : K) → again (fun k).0 ≡ true → left (fun k).1 < left k)
      (stays : (u : World K) → left (others u).kernel ≤ left u.kernel) where
    loop_lem :
        (fuel : ℕ) (timeout info : ℕ) (w : World K)
        → left w.kernel < fuel
        → CanWait fd event w
        → (r : Reply) × (u : World K) × (io_loop sys others fun fd event timeout info fuel w
            ≡ ok (r, u))
          × Done timeout info r u
    loop_lem zero timeout info w h can = absurd (omega (arith, h))
    loop_lem (suc fuel) timeout info w h can =
        let called = (call sys fun w).1 in
        let can_called : CanWait fd event called = record {
          has_io = can.has_io;
          valid = can.valid;
          two_slots = can.two_slots;
          absent = can.absent;
        } in
        elim (Reply-cases (fun w.kernel).0) [
          | inl (n, e) ↦ (
            returned n,
            called,
            loop_returned sys others fun fd event timeout info fuel w n e,
            (inl (w.kernel, e, refl, refl), can_called),
          )
          | inr (e, h1) ↦ elim (Bool-cases (e == eintr)) [
            | inl i ↦
                let is_eintr = h1 ∙ ap failed ((==_iff e eintr).0 i) in
                let fewer = falls w.kernel (ap again is_eintr) in
                let (r, u, run, done) =
                  loop_lem fuel timeout info called (omega (arith, h, fewer)) can_called in
                (
                  r,
                  u,
                  loop_interrupted sys others fun fd event timeout info fuel w is_eintr ∙ run,
                  done,
                )
            | inr i ↦ elim (Bool-cases (e == eagain)) [
              | inr a ↦ (
                failed e,
                called,
                loop_failed sys others fun fd event timeout info fuel w e h1 i a,
                (inl (w.kernel, h1, refl, rw (i, a) refl), can_called),
              )
              | inl a ↦
                  let is_eagain = h1 ∙ ap failed ((==_iff e eagain).0 a) in
                  let fewer = falls w.kernel (ap again is_eagain) in
                  let (u, timers, run, waits, same_kernel, _, _, armed) =
                    wait_lem sys others called fd event timeout info small (epoll called.kernel)
                      can_called in
                  let v : World K = record (others u) { timers = timers } in
                  let can_u = resumed u waits in
                  let can_v : CanWait fd event v = record {
                    has_io = can_u.has_io;
                    valid = can_u.valid;
                    two_slots = can_u.two_slots;
                    absent = can_u.absent;
                  } in
                  elim (Bool-cases (is_cancelled sys v info)) [
                    | inl c ↦ (
                      failed etimedout,
                      v,
                      loop_timed_out sys others fun fd event timeout info fuel w v is_eagain run c,
                      (
                        inr (
                          refl,
                          (
                            u,
                            waits,
                            start_timer-Armed sys called u timeout info armed,
                            sym (is_cancelled_same sys (others u) info timers) ∙ c,
                          ),
                        ),
                        can_v,
                      ),
                    )
                    | inr c ↦
                        let enough : left v.kernel < fuel =
                          omega (arith, h, fewer, stays u, ap left same_kernel) in
                        let (r, x, run2, done) = loop_lem fuel timeout info v enough can_v in
                        (
                          r,
                          x,
                          loop_woken sys others fun fd event timeout info fuel w v is_eagain run c
                              ∙ run2,
                          done,
                        )
                  ]
            ]
          ]
        ]

    -- With hooks, for an open socket that the user left blocking, and with more fuel than replies `EINTR` and
    -- `EAGAIN` are left in the system, `do_io` returns a reply of the system call that is neither of
    -- the two, or the error `ETIMEDOUT`, and this only where the fiber had waited for the event, after `addTimer`
    -- of the socket's time-out if it has one, and the time-out was noted when it was resumed. After it
    -- the event is not registered, and a timer of this call that goes off does nothing. This is where
    -- `epoll_ctl` succeeds, a waiting fiber is resumed when its event was taken out, and the event was
    -- not registered before.
    pub do_io-Done :
        (fuel : ℕ) (receive : Bool) (w : World K) (ctx : FdCtx)
        → w.hook_enable ≡ true
        → data_at w.datas fd ≡ some ctx
        → ctx.is_closed ≡ false
        → ctx.is_socket ≡ true
        → ctx.user_nonblock ≡ false
        → CanWait fd event w
        → left w.kernel < fuel
        → (r : Reply) × (u : World K) × (do_io sys others fuel fun fd event receive w ≡ ok (r, u))
          × (Answered r u
              ⊎ ((r ≡ failed etimedout) × TimedOut (get_timeout ctx receive) w.allocated))
          × CanWait fd event u
          × (on_timeout sys u fd event w.allocated ≡ ok u)
    do_io-Done fuel receive w ctx on found opened socket blocking can enough =
        let info = w.allocated in
        let can_new : CanWait fd event (new_info sys w) = record {
          has_io = can.has_io;
          valid = can.valid;
          two_slots = can.two_slots;
          absent = can.absent;
        } in
        let (r, u, run, (answer, can_u)) =
          loop_lem fuel (get_timeout ctx receive) info (new_info sys w) enough can_new in
        let last = (drop_info sys info (r, u)).1 in
        (
          r,
          last,
          hooked sys others fuel fun fd event receive w on
              ∙ ap (do_io_on sys others fuel fun fd event receive w) found
              ∙ open_socket sys others fuel fun fd event receive w ctx opened socket blocking
              ∙ ap (λ o. o >>= λ x. ok (drop_info sys info x)) run,
          elim answer [ inl a ↦ inl a | inr t ↦ inr t ],
          record {
            has_io = can_u.has_io;
            valid = can_u.valid;
            two_slots = can_u.two_slots;
            absent = can_u.absent;
          },
          on_timeout-none sys last fd event info (update_self u.infos info none),
        )
