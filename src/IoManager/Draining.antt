-- ===== src/IoManager/Draining.antt =====
-- `cancelAll` and the `for` loop of `idle` on a valid table.
use dag.Common.{
  ℕ, ◌+◌, ◌≡◌, ◌≢◌, refl, sym, ap, ◌∙◌, inl, inr, [], ◌∷◌, some, arith, Bool, true, false, not,
  ◌&&◌, ◌||◌, length, get_elem?, if◌then◌else◌, ok, assert_failed, Bool-cases, length-append,
}
use mathlib.Core.Bool.{true≢false}
use dag.IoManager.{
  Event, on_read, on_write, Events, FdContext, IoManager, no_events, has_event, without_event,
  trigger_at, trigger_event, trigger_if, cancel_all, handle_context, Ready, real_events, call,
  any_event, op_mod, op_del,
}
use dag.IoManager.Valid.{IsValid, events_of}
use dag.IoManager.Keeps.{trigger_at_lem, some_slot}

-- `n` is `m` where some events of `fd` were taken out, and nothing else was: what is left of them is
-- `left`, and as many tasks were scheduled as the pending count went down.
pub record Drained (m : IoManager) (fd : ℕ) (left : Events) (n : IoManager) : Type 0 where
  pub valid : IsValid n
  pub slot : (ctx : FdContext) × (get_elem? n.contexts fd ≡ some ctx) × (ctx.events ≡ left)
  pub balance : n.pending + length n.scheduled ≡ m.pending + length m.scheduled
  pub others : (j : ℕ) → fd ≢ j → get_elem? n.contexts j ≡ get_elem? m.contexts j

-- The mask without `event`, if `b`.
abbrev pub without_if : Bool → Events → Event → Events
without_if b events event = if b then without_event events event else events

-- A trigger under a condition that implies that the event is registered.
trigger_Drained :
    (m : IoManager) (fd : ℕ) (event : Event) (b : Bool) (ctx : FdContext)
    → IsValid m
    → get_elem? m.contexts fd ≡ some ctx
    → (b ≡ true → has_event ctx.events event ≡ true)
    → (n : IoManager) × ((if b then trigger_at m fd event else ok m) ≡ ok n)
      × Drained m fd (without_if b ctx.events event) n
trigger_Drained m fd event false ctx valid e h =
    (m, refl, record { valid = valid; slot = (ctx, e, refl); balance = refl; others = λ j d. refl })
trigger_Drained m fd event true ctx valid e h =
    let (n, t, run, d, s, task) = trigger_at_lem valid fd event ctx e (h refl) in
    (
      n,
      run,
      record {
        valid = d.valid;
        slot = (
          d.there.0,
          d.there.1,
          ap events_of (sym d.there.1) ∙ d.events ∙ ap (λ o. without_event (events_of o) event) e,
        );
        balance = omega (arith, d.pending, ap length s, length-append m.scheduled (t ∷ []));
        others = d.others;
      },
    )

keeps_writes : (b : Bool) (o : Events) → (without_if b o on_read).writes ≡ o.writes
keeps_writes true o = refl
keeps_writes false o = refl

events_path :
    (r w r' w' : Bool)
    → r ≡ r'
    → w ≡ w'
    → (let a : Events = record { reads = r; writes = w } in a) ≡ record { reads = r'; writes = w' }
events_path r w r' w' p q =
    ap (λ b. record { reads = b; writes = w }) p ∙ ap (λ b. record { reads = r'; writes = b }) q

and_false : (x : Bool) → (x && false) ≡ false
and_false true = refl
and_false false = refl

and_true : (x : Bool) → (x && true) ≡ x
and_true true = refl
and_true false = refl

-- The bits that are left, by the bits taken out.
left_events :
    (b c : Bool) (o : Events)
    → without_if c (without_if b o on_read) on_write
      ≡ record { reads = o.reads && not b; writes = o.writes && not c }
left_events true true o = sym (events_path _ _ _ _ (and_false o.reads) (and_false o.writes))
left_events true false o = sym (events_path _ _ _ _ (and_false o.reads) (and_true o.writes))
left_events false true o = sym (events_path _ _ _ _ (and_true o.reads) (and_false o.writes))
left_events false false o = sym (events_path _ _ _ _ (and_true o.reads) (and_true o.writes))

and_not_self : (x : Bool) → (x && not x) ≡ false
and_not_self true = refl
and_not_self false = refl

all_out : (o : Events) → without_if o.writes (without_if o.reads o on_read) on_write ≡ no_events
all_out o =
    left_events o.reads o.writes o
    ∙ ap (λ b. record { reads = b; writes = o.writes && not o.writes }) (and_not_self o.reads)
    ∙ ap (λ b. record { reads = false; writes = b }) (and_not_self o.writes)

real_sub : (r f o : Bool) → (r ≡ true → o ≡ true) → (r || f && o) ≡ true → o ≡ true
real_sub true f o h k = h refl
real_sub false true o h k = k
real_sub false false o h k = absurd (cc k)

or_true : (x : Bool) → (x || true) ≡ true
or_true true = refl
or_true false = refl

-- Where what is ready is registered, the test for an event that is both fails only if none is ready.
none_ready :
    (o1 o2 b c : Bool)
    → (b ≡ true → o1 ≡ true)
    → (c ≡ true → o2 ≡ true)
    → (o1 && b || o2 && c) ≡ false
    → (b ≡ false) × (c ≡ false)
none_ready o1 o2 true c h k n =
    absurd (true≢false (sym (ap (λ o. o && true || o2 && c) (h refl)) ∙ n))
none_ready o1 o2 false true h k n = absurd (
    true≢false
      (sym (or_true (o1 && false) ∙ refl) ∙ sym (ap (λ o. o1 && false || o && true) (k refl)) ∙ n))
none_ready o1 o2 false false h k n = (refl, refl)

-- Both triggers, one after the other, as `cancelAll` and `idle` make them.
trigger_both :
    (m : IoManager) (fd : ℕ) (b c : Bool) (ctx : FdContext)
    → IsValid m
    → get_elem? m.contexts fd ≡ some ctx
    → (b ≡ true → ctx.events.reads ≡ true)
    → (c ≡ true → ctx.events.writes ≡ true)
    → (m1 : IoManager) × (n : IoManager) × ((if b then trigger_at m fd on_read else ok m) ≡ ok m1)
      × ((if c then trigger_at m1 fd on_write else ok m1) ≡ ok n)
      × Drained m fd (without_if c (without_if b ctx.events on_read) on_write) n
      × Drained m fd (without_if b ctx.events on_read) m1
trigger_both m fd b c ctx valid e h k =
    let (m1, run1, d1) = trigger_Drained m fd on_read b ctx valid e h in
    let (ctx1, e1, left1) = d1.slot in
    let (n, run2, d2) =
      trigger_Drained m1 fd on_write c ctx1 d1.valid e1
        (λ p. ap (λ (o : Events). o.writes) left1 ∙ keeps_writes b ctx.events ∙ k p) in
    (
      m1,
      n,
      run1,
      run2,
      record {
        valid = d2.valid;
        slot = (d2.slot.0, d2.slot.1, d2.slot.2 ∙ ap (λ o. without_if c o on_write) left1);
        balance = d2.balance ∙ d1.balance;
        others = λ j q. d2.others j q ∙ d1.others j q;
      },
      d1,
    )

-- On a valid table `cancelAll` of a descriptor with a registered event, where `epoll_ctl`
-- succeeds, passes its last assertion and returns true: it leaves the descriptor no event,
-- schedules as many tasks as the pending count goes down, and changes no other descriptor; the
-- table stays valid.
pub cancel_all_lem :
    (m : IoManager) (fd : ℕ) (ctx : FdContext)
    → IsValid m
    → get_elem? m.contexts fd ≡ some ctx
    → any_event ctx.events ≡ true
    → (n : IoManager) × (cancel_all m fd 0 ≡ ok (true, n)) × Drained m fd no_events n
unfolding cancel_all trigger_if
cancel_all_lem m fd ctx valid e h =
    let (m1, n, run1, run2, d, d1) =
      trigger_both (call m op_del fd no_events) fd ctx.events.reads ctx.events.writes ctx valid e
        (λ p. p) (λ p. p) in
    let (ctx1, e1, left1) = d1.slot in
    let (ctx2, e2, left2) = d.slot in
    let writes1 : ctx1.events.writes ≡ ctx.events.writes =
      ap (λ (o : Events). o.writes) left1 ∙ keeps_writes ctx.events.reads ctx.events in
    let out = left2 ∙ all_out ctx.events in
    let reads2 : ctx2.events.reads ≡ false = ap (λ (o : Events). o.reads) out in
    let writes2 : ctx2.events.writes ≡ false = ap (λ (o : Events). o.writes) out in
    (
      n,
      rw (some_slot m.contexts fd ctx e, e, h, run1, e1, writes1, run2, e2, reads2, writes2) refl,
      record { valid = d.valid; slot = (ctx2, e2, out); balance = d.balance; others = d.others },
    )

-- What is left of an event, by the code's test and by what was reported.
left_bit : (r f o : Bool) → (o && not (r || f && o)) ≡ (o && not (r || f))
left_bit true f o = refl
left_bit false true true = refl
left_bit false true false = refl
left_bit false false o = refl

-- On a valid table a ready event of a descriptor, where `epoll_ctl` succeeds and `epoll_wait`
-- reported no event that is not registered, passes the assertions of `triggerEvent`. It takes out
-- the events that were reported, and all of the descriptor's where an error or a hang-up was,
-- schedules as many tasks as the pending count goes down, and changes no other descriptor; the
-- table stays valid.
pub handle_context_lem :
    (m : IoManager) (fd : ℕ) (ready : Ready) (ctx : FdContext)
    → IsValid m
    → get_elem? m.contexts fd ≡ some ctx
    → (ready.events.reads ≡ true → ctx.events.reads ≡ true)
    → (ready.events.writes ≡ true → ctx.events.writes ≡ true)
    → (n : IoManager) × (handle_context m fd ready 0 ≡ ok n)
      × Drained m fd
          (record {
            reads = ctx.events.reads && not (ready.events.reads || ready.failed);
            writes = ctx.events.writes && not (ready.events.writes || ready.failed);
          })
          n
unfolding handle_context
handle_context_lem m fd ready ctx valid e h k =
    let real = real_events ready ctx.events in
    let left : Events = record {
      reads = ctx.events.reads && not real.reads;
      writes = ctx.events.writes && not real.writes;
    } in
    let sub1 = real_sub ready.events.reads ready.failed ctx.events.reads h in
    let sub2 = real_sub ready.events.writes ready.failed ctx.events.writes k in
    let (m1, n, run1, run2, d, d1) =
      trigger_both (call m (if any_event left then op_mod else op_del) fd left) fd real.reads
        real.writes ctx valid e sub1 sub2 in
    let out_bits =
      events_path left.reads left.writes
        (ctx.events.reads && not (ready.events.reads || ready.failed))
        (ctx.events.writes && not (ready.events.writes || ready.failed))
        (left_bit ready.events.reads ready.failed ctx.events.reads)
        (left_bit ready.events.writes ready.failed ctx.events.writes) in
    elim (Bool-cases (ctx.events.reads && real.reads || ctx.events.writes && real.writes)) [
      | inl some_ready ↦ (
        n,
        rw (e, some_ready, run1, run2) refl,
        record {
          valid = d.valid;
          slot = (
            d.slot.0,
            d.slot.1,
            d.slot.2 ∙ left_events real.reads real.writes ctx.events ∙ out_bits,
          );
          balance = d.balance;
          others = d.others;
        },
      )
      | inr none_is ↦
          let (no_read, no_write) = none_ready _ _ real.reads real.writes sub1 sub2 none_is in
          (
            m,
            rw (e, none_is) refl,
            record {
              valid = valid;
              slot = (
                ctx,
                e,
                sym (
                      events_path _ _ ctx.events.reads ctx.events.writes
                        (ap (λ b. ctx.events.reads && not b) no_read ∙ and_true ctx.events.reads)
                        (ap (λ b. ctx.events.writes && not b) no_write
                          ∙ and_true ctx.events.writes))
                    ∙ out_bits,
              );
              balance = refl;
              others = λ j q. refl;
            },
          )
    ]

-- Where `epoll_wait` reported both events of a descriptor and only the write event is registered,
-- handling it fails the assertion of `triggerEvent`: the code triggers what was reported, not what
-- is also registered.
pub handle_context-unregistered :
    (m : IoManager) (fd : ℕ) (ctx : FdContext)
    → get_elem? m.contexts fd ≡ some ctx
    → ctx.events ≡ record { reads = false; writes = true }
    → handle_context m fd
        (record {
          context = some fd;
          events = record { reads = true; writes = true };
          failed = false;
        })
        0
      ≡ assert_failed
unfolding handle_context trigger_at trigger_event
handle_context-unregistered m fd ctx e h = rw (e, h) refl
