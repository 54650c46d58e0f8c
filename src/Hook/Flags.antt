-- ===== src/Hook/Flags.antt =====
-- `fcntl`, `setsockopt` and `close` with the table of descriptors.
use dag.Common.{
  ℕ, ◌+◌, ◌-◌, ◌*◌, ◌/◌, ◌%◌, ◌≡◌, refl, ap, ◌∙◌, Bool, true, false, not, ◌||◌, some, none, ==_iff,
  if◌then◌else◌, ok, ◌>>=◌, set, arith, eq→==, ne→==, ◌≢◌, Bool-cases, inl, inr,
}
use dag.FdManager.{FdCtx, data_at, set_timeout, get_timeout}
use dag.FdManager.Table.{Stored, data_at-set}
use dag.Hook.{returned, System, World, Syscall, call, find_ctx}
use dag.Hook.Blocking.{find_ctx_lem}
use dag.Hook.Calls.{
  has_nonblock, with_nonblock, without_nonblock, Command, set_flags, get_flags, plain, set_flags_on,
  get_flags_on, keep_timeout, socket_ctx, set_user_nonblock, system_flags, user_flags, fcntl,
  setsockopt,
}

odd_bit : (flags : ℕ) → has_nonblock flags ≡ true → flags / 2048 % 2 ≡ 1
odd_bit flags e = (==_iff (flags / 2048 % 2) 1).0 e

even_bit : (flags : ℕ) → has_nonblock flags ≡ false → flags / 2048 % 2 ≢ 1
even_bit flags e d = cc (e, (==_iff (flags / 2048 % 2) 1).1 d)

has-with_nonblock : (flags : ℕ) → has_nonblock (with_nonblock flags) ≡ true
has-with_nonblock flags = elim (Bool-cases (has_nonblock flags)) [
  | inl e ↦ rw e e
  | inr e ↦
      rw e (eq→== ((flags + 2048) / 2048 % 2) 1 (let d = even_bit flags e in omega (arith, d)))
]

has-without_nonblock : (flags : ℕ) → has_nonblock (without_nonblock flags) ≡ false
has-without_nonblock flags = elim (Bool-cases (has_nonblock flags)) [
  | inl e ↦
      rw e
        (ne→== ((flags - 2048) / 2048 % 2) 1 (λ k. let d = odd_bit flags e in omega (arith, d, k)))
  | inr e ↦ rw e e
]

-- The bit as it was asked for.
has_chosen :
    (b : Bool) (flags : ℕ)
    → has_nonblock (if b then with_nonblock flags else without_nonblock flags) ≡ b
has_chosen true flags = has-with_nonblock flags
has_chosen false flags = has-without_nonblock flags

socket_ctx-some :
    (ctx : FdCtx) → ctx.is_closed ≡ false → ctx.is_socket ≡ true → socket_ctx (some ctx) ≡ some ctx
socket_ctx-some ctx opened socket =
    ap (λ b. if b || not ctx.is_socket then none else some ctx) opened
    ∙ ap (λ b. if not b then none else some ctx) socket

kept_timeout :
    (ctx : FdCtx) (receives : Bool) (ms : ℕ)
    → get_timeout (set_timeout ctx receives ms) receives ≡ ms
unfolding set_timeout get_timeout
kept_timeout ctx true ms = refl
kept_timeout ctx false ms = refl

other_timeout :
    (ctx : FdCtx) (receives : Bool) (ms : ℕ)
    → get_timeout (set_timeout ctx receives ms) (not receives) ≡ get_timeout ctx (not receives)
unfolding set_timeout get_timeout
other_timeout ctx true ms = refl
other_timeout ctx false ms = refl

-- On an open socket, `fcntl(F_SETFL)` gives the system flags that have `O_NONBLOCK` as the library wants it,
-- and `fcntl(F_GETFL)` after it, where the system returns any flags, returns flags that have it as
-- the user set it.
pub fcntl_lem :
    {K : Type 0} (sys : System K) (others : World K → World K) (fcntl_f : Command → Syscall K)
    (fd : ℕ) (w : World K) (ctx : FdCtx) (arg flags : ℕ)
    → data_at w.datas fd ≡ some ctx
    → ctx.is_closed ≡ false
    → ctx.is_socket ≡ true
    → (fcntl_f get_flags (fcntl_f (set_flags (system_flags ctx arg)) w.kernel).1).0 ≡ returned flags
    → (u : World K) × (v : World K) × (shown : ℕ) × (has_nonblock (system_flags ctx arg)
        ≡ ctx.sys_nonblock)
      × (fcntl sys others fcntl_f fd (set_flags arg) w
          ≡ ok (plain (fcntl_f (set_flags (system_flags ctx arg)) w.kernel).0, u))
      × (fcntl sys others fcntl_f fd get_flags u ≡ ok (plain (returned shown), v))
      × (has_nonblock shown ≡ has_nonblock arg)
unfolding fcntl
fcntl_lem sys others fcntl_f fd w ctx arg flags found opened socket got =
    let u =
      (call sys (fcntl_f (set_flags (system_flags ctx arg))) (set_user_nonblock w fd ctx arg)).1 in
    let new = record ctx { user_nonblock = has_nonblock arg } in
    let stored = (data_at-set w.datas fd ctx new found).0 in
    let r = call sys (fcntl_f get_flags) u in
    (
      u,
      r.1,
      if has_nonblock arg then with_nonblock flags else without_nonblock flags,
      has_chosen ctx.sys_nonblock arg,
      ap (λ o. o >>= λ f. set_flags_on sys others fcntl_f fd arg w (socket_ctx f))
            (find_ctx_lem sys w fd ∙ ap ok found)
          ∙ ap (set_flags_on sys others fcntl_f fd arg w) (socket_ctx-some ctx opened socket),
      ap (λ o. o >>= λ f. get_flags_on sys others r (socket_ctx f))
            (find_ctx_lem sys r.1 fd ∙ ap ok stored)
          ∙ ap (get_flags_on sys others r) (socket_ctx-some new opened socket)
          ∙ ap (λ p. ok (user_flags new p, r.1)) got,
      has_chosen (has_nonblock arg) flags,
    )

-- With hooks, `setsockopt` of a time-out keeps it in milliseconds, with what is left of a millisecond
-- dropped, in the context of the descriptor, and changes the other time-out and the other contexts not.
pub setsockopt_lem :
    {K : Type 0} (sys : System K) (others : World K → World K) (setsockopt_f : Syscall K) (fd : ℕ)
    (receives : Bool) (tv_sec tv_usec : ℕ) (w : World K) (ctx : FdCtx)
    → w.hook_enable ≡ true
    → data_at w.datas fd ≡ some ctx
    → (u : World K) × (new : FdCtx) × (setsockopt sys others setsockopt_f fd
          (some (receives, tv_sec, tv_usec))
          w
        ≡ ok ((setsockopt_f w.kernel).0, u))
      × Stored w.datas fd (some new) u.datas
      × (get_timeout new receives ≡ tv_sec * 1000 + tv_usec / 1000)
      × (get_timeout new (not receives) ≡ get_timeout ctx (not receives))
unfolding setsockopt
setsockopt_lem sys others setsockopt_f fd receives tv_sec tv_usec w ctx on found =
    let ms = tv_sec * 1000 + tv_usec / 1000 in
    let new = set_timeout ctx receives ms in
    (
      record w { datas = set w.datas fd (some new); kernel = (setsockopt_f w.kernel).1 },
      new,
      ap
            (λ b.
              if not b
              then ok (call sys setsockopt_f w)
              else (find_ctx sys w fd >>= λ f.
                  keep_timeout sys others setsockopt_f fd receives ms w f))
            on
          ∙ ap (λ o. o >>= λ f. keep_timeout sys others setsockopt_f fd receives ms w f)
              (find_ctx_lem sys w fd ∙ ap ok found),
      data_at-set w.datas fd ctx new found,
      kept_timeout ctx receives ms,
      other_timeout ctx receives ms,
    )
