-- ===== src/Hook/Closing.antt =====
-- `close` with the events and the table of descriptors.
use dag.Common.{
  ℕ, ◌≡◌, refl, ap, ◌∙◌, Bool, true, not, some, none, if◌then◌else◌, Outcome, ok, ◌>>=◌, get_elem?,
}
use dag.FdManager.{FdCtx, data_at, del}
use dag.FdManager.Table.{Stored, del-Stored}
use dag.IoManager.{FdContext, IoManager, any_event, no_events, cancel_all}
use dag.IoManager.Valid.{IsValid}
use dag.IoManager.Draining.{Drained, cancel_all_lem}
use dag.Hook.{Reply, System, World, Syscall, call, find_ctx}
use dag.Hook.Blocking.{find_ctx_lem}
use dag.Hook.Calls.{close, close_on}

-- With hooks, where a context is kept of the descriptor, an event is registered for it, the table of events
-- is valid and `epoll_ctl` succeeds, `close` takes out all its events, schedules as many tasks as the count of
-- pending events goes down, forgets its context and no other, and closes it once in the system, whose
-- reply it returns.
pub close-Drained :
    {K : Type 0} (sys : System K) (others : World K → World K) (close_f : Syscall K) (fd : ℕ)
    (w : World K) (ctx : FdCtx) (events : FdContext)
    → w.hook_enable ≡ true
    → w.has_io ≡ true
    → data_at w.datas fd ≡ some ctx
    → sys.epoll_ctl w.kernel ≡ 0
    → IsValid w.io
    → get_elem? w.io.contexts fd ≡ some events
    → any_event events.events ≡ true
    → (u : World K) × (close sys others close_f fd w ≡ ok ((close_f w.kernel).0, u))
      × (u.kernel ≡ (close_f w.kernel).1)
      × Stored w.datas fd none u.datas
      × Drained w.io fd no_events u.io
unfolding close
close-Drained sys others close_f fd w ctx events on has_io found epoll valid there some_event =
    let (n, run, drained) = cancel_all_lem w.io fd events valid there some_event in
    let keep : Bool × IoManager → Outcome (World _) = λ r. ok (record w { io = r.1 }) in
    let last : World _ → Outcome (Reply × World _) =
      λ v. ok (call sys close_f (record v { datas = del v.datas fd })) in
    (
      (call sys close_f (record w { io = n; datas = del w.datas fd })).1,
      ap
            (λ b.
              if not b
              then ok (call sys close_f w)
              else (find_ctx sys w fd >>= λ f. close_on sys others close_f fd w f))
            on
          ∙ ap (λ o. o >>= λ f. close_on sys others close_f fd w f)
              (find_ctx_lem sys w fd ∙ ap ok found)
          ∙ ap
              (λ b.
                (if b then (cancel_all w.io fd (sys.epoll_ctl w.kernel) >>= keep) else ok w)
                >>= last)
              has_io
          ∙ ap (λ rt. (cancel_all w.io fd rt >>= keep) >>= last) epoll
          ∙ ap (λ o. (o >>= keep) >>= last) run,
      refl,
      del-Stored w.datas fd,
      drained,
    )
