-- ===== src/Hook/Blocking.antt =====
-- `do_io` up to its loop, and the condition of its timer.
use dag.Common.{
  ℕ, ◌≡◌, refl, ap, ◌∙◌, Bool, true, false, not, ◌||◌, some, none, if◌then◌else◌, ok, ◌>>=◌,
}
use dag.FdManager.{FdCtx, data_at, get_timeout}
use dag.FdManager.Table.{get_lookup}
use dag.IoManager.{Event}
use dag.Hook.{
  System, World, Syscall, call, find_ctx, on_timeout, io_loop, new_info, drop_info, do_io_on, do_io,
}

pub find_ctx_lem :
    {K : Type 0} (sys : System K) (w : World K) (fd : ℕ)
    → find_ctx sys w fd ≡ ok (data_at w.datas fd)
find_ctx_lem sys w fd = rw (get_lookup w.datas fd (sys.stat w.kernel fd)) refl

pub hooked :
    {K : Type 0} (sys : System K) (others : World K → World K) (fuel : ℕ) (fun : Syscall K) (fd : ℕ)
    (event : Event) (receive : Bool) (w : World K)
    → w.hook_enable ≡ true
    → do_io sys others fuel fun fd event receive w
      ≡ do_io_on sys others fuel fun fd event receive w (data_at w.datas fd)
unfolding do_io
hooked sys others fuel fun fd event receive w e =
    ap
      (λ b.
        if b
        then (find_ctx sys w fd >>= λ found. do_io_on sys others fuel fun fd event receive w found)
        else ok (call sys fun w))
      e
    ∙ ap (λ o. o >>= λ found. do_io_on sys others fuel fun fd event receive w found)
        (find_ctx_lem sys w fd)

last_branch :
    {A : Type 0} (c s n : Bool) (a b x : A)
    → c ≡ false
    → s ≡ true
    → n ≡ false
    → (if c then a else if not s || n then b else x) ≡ x
last_branch true s n a b x hc hs hn = absurd (cc hc)
last_branch false true true a b x hc hs hn = absurd (cc hn)
last_branch false true false a b x hc hs hn = refl
last_branch false false n a b x hc hs hn = absurd (cc hs)

-- An open socket that the user left blocking.
pub open_socket :
    {K : Type 0} (sys : System K) (others : World K → World K) (fuel : ℕ) (fun : Syscall K) (fd : ℕ)
    (event : Event) (receive : Bool) (w : World K) (ctx : FdCtx)
    → ctx.is_closed ≡ false
    → ctx.is_socket ≡ true
    → ctx.user_nonblock ≡ false
    → do_io_on sys others fuel fun fd event receive w (some ctx) ≡ (
        io_loop sys others fun fd event (get_timeout ctx receive) w.allocated fuel (new_info sys w)
        >>= λ r. ok (drop_info sys w.allocated r))
unfolding do_io_on
open_socket sys others fuel fun fd event receive w ctx opened socket blocking =
    last_branch ctx.is_closed ctx.is_socket ctx.user_nonblock _ _ _ opened socket blocking

-- The condition of a timer whose `timer_info` is gone does not hold.
pub on_timeout-none :
    {K : Type 0} (sys : System K) (w : World K) (fd : ℕ) (event : Event) (info : ℕ)
    → w.infos info ≡ none
    → on_timeout sys w fd event info ≡ ok w
unfolding on_timeout
on_timeout-none sys w fd event info e = rw (e, on_timeout) refl
