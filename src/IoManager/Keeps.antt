-- ===== src/IoManager/Keeps.antt =====
-- What `triggerEvent`, `addEvent`, `delEvent`, `cancelEvent` and `cancelAll` do to a valid table.
use dag.Common.{
  ℕ, suc, ◌≤◌, ◌<◌, ◌≡◌, ◌≢◌, refl, sym, ap, subst, ◌∙◌, inl, inr, List, [], ◌∷◌, ◌++◌, Option,
  some, none, arith, true, false, ◌&&◌, is_some, length, get_elem?, set, get_elem?-set_self,
  get_elem?-set_ne, if◌then◌else◌, ltb, lt→ltb, ok, fault, get_elem?_ge, Option-cases,
}
use dag.IoManager.{
  Event, Events, EventContext, FdContext, IoManager, Task, has_event, without_event,
  get_event_context, reset_event_context, trigger_event, trigger_at, del_event, cancel_event, call,
  any_event, set_context, cancel_all, decrement, empty_context, op_mod, op_del,
}
use dag.IoManager.Valid.{
  Slot, Table, IsValid, events_of, set_event_context-kept, drop-Table, get_elem?-lt,
}

-- The events registered for a descriptor.
abbrev pub events_at : IoManager → ℕ → Events
events_at m fd = events_of (get_elem? m.contexts fd)

-- `n` is `m` without one event of `fd`.
pub record Dropped (m : IoManager) (fd : ℕ) (event : Event) (n : IoManager) : Type 0 where
  pub valid : IsValid n
  pub pending : suc n.pending ≡ m.pending
  pub there : (ctx : FdContext) × (get_elem? n.contexts fd ≡ some ctx)
  pub events : events_at n fd ≡ without_event (events_at m fd) event
  pub others : (j : ℕ) → fd ≢ j → get_elem? n.contexts j ≡ get_elem? m.contexts j

-- The task of an event context.
abbrev pub TaskOf : EventContext → Task → Type 0
TaskOf c t = (some t.scheduler ≡ c.scheduler) × (t.fiber ≡ c.fiber) × (t.cb ≡ c.cb)

-- The slot `ctx` with the event reset.
abbrev pub dropped : FdContext → Event → FdContext
dropped ctx event =
    reset_event_context (record ctx { events = without_event ctx.events event }) event

one_of :
    (cb fiber : Option ℕ)
    → (is_some cb && is_some fiber) ≡ false
    → (if is_some cb then none else fiber) ≡ fiber
one_of none fiber h = refl
one_of (some c) none h = refl
one_of (some c) (some f) h = absurd (cc h)

-- `triggerEvent` on a set event with its context in use.
trigger_event_lem :
    (ctx : FdContext) (event : Event)
    → has_event ctx.events event ≡ true
    → Slot (get_event_context ctx event) true
    → (t : Task) × (trigger_event ctx event ≡ ok (t, dropped ctx event))
      × TaskOf (get_event_context ctx event) t
unfolding trigger_event
trigger_event_lem ctx event h s =
    let c = get_event_context ctx event in
    elim (Option-cases c.scheduler) [
      | inl e ↦ absurd (cc (e, s.has_scheduler))
      | inr (i, e) ↦ (
        record { scheduler = i; fiber = if is_some c.cb then none else c.fiber; cb = c.cb },
        rw (h, e) refl,
        (sym e, one_of c.cb c.fiber s.one_task, refl),
      )
    ]

module _ {m : IoManager} (valid : IsValid m) (fd : ℕ) (event : Event) (ctx : FdContext)
    (e : get_elem? m.contexts fd ≡ some ctx) (h : has_event ctx.events event ≡ true) where
  pub drop_Dropped :
      (n : IoManager)
      → n.contexts ≡ set m.contexts fd (dropped ctx event)
      → n.pending ≡ decrement m.pending
      → Dropped m fd event n
  drop_Dropped n ec ep =
      let (one, table) = drop-Table m.contexts m.pending fd ctx event valid e h in
      let here =
        ap (λ c. get_elem? c fd) ec
        ∙ get_elem?-set_self m.contexts fd (dropped ctx event) (get_elem?-lt m.contexts fd ctx e) in
      record {
        there = (dropped ctx event, here);
        valid =
            subst (λ p. Table n.contexts p) (sym ep)
              (subst (λ c. Table c (decrement m.pending)) (sym ec) table);
        pending = ap suc ep ∙ one;
        events =
            ap events_of here
            ∙ (set_event_context-kept (record ctx { events = without_event ctx.events event }) event
                empty_context).1
            ∙ ap (λ o. without_event (events_of o) event) (sym e);
        others = λ j d. ap (λ c. get_elem? c j) ec ∙ get_elem?-set_ne m.contexts fd j _ d;
      }

  -- `triggerEvent` of a registered event gives its scheduler the one task that was registered.
  pub trigger_at_lem :
      (n : IoManager) × (t : Task) × (trigger_at m fd event ≡ ok n)
      × Dropped m fd event n
      × (n.scheduled ≡ m.scheduled ++ t ∷ [])
      × TaskOf (get_event_context ctx event) t
  unfolding trigger_at
  trigger_at_lem =
      let slot : Slot (get_event_context ctx event) true =
        subst (Slot (get_event_context ctx event)) h ((valid.coherent fd ctx e).0.slot event) in
      let (t, run, task) = trigger_event_lem ctx event h slot in
      let n = record (set_context m fd (dropped ctx event)) {
        pending = decrement m.pending;
        scheduled = m.scheduled ++ t ∷ [];
      } in
      (n, t, rw (e, run) refl, drop_Dropped n refl refl, refl, task)

pub some_slot :
    (xs : List FdContext) (i : ℕ) (x : FdContext)
    → get_elem? xs i ≡ some x
    → ltb 0 (length xs) ≡ true
some_slot xs i x e = lt→ltb 0 (length xs) (omega (arith, get_elem?-lt xs i x e))

module _ {m : IoManager} (valid : IsValid m) (fd : ℕ) (event : Event) (ctx : FdContext)
    (e : get_elem? m.contexts fd ≡ some ctx) (h : has_event ctx.events event ≡ true) where
  -- On a valid table `delEvent` of a registered event returns true, takes that event out and no
  -- other, lowers the pending count by one and schedules no task; the table stays valid.
  pub del_event_lem :
      (n : IoManager) × (del_event m fd event ≡ ok (true, n))
      × Dropped m fd event n
      × (n.scheduled ≡ m.scheduled)
  unfolding del_event
  del_event_lem =
      let n =
        record (set_context
          (call m (if any_event (without_event ctx.events event) then op_mod else op_del) fd
            (without_event ctx.events event))
          fd (dropped ctx event)) { pending = decrement m.pending } in
      (
        n,
        rw (some_slot m.contexts fd ctx e, e, h) refl,
        drop_Dropped valid fd event ctx e h n refl refl,
        refl,
      )

  -- On a valid table `cancelEvent` of a registered event, where `epoll_ctl` succeeds, returns
  -- true, takes that event out and no other, lowers the pending count by one and schedules the one
  -- task that was registered; the table stays valid.
  pub cancel_event_lem :
      (n : IoManager) × (t : Task) × (cancel_event m fd event 0 ≡ ok (true, n))
      × Dropped m fd event n
      × (n.scheduled ≡ m.scheduled ++ t ∷ [])
      × TaskOf (get_event_context ctx event) t
  unfolding cancel_event
  cancel_event_lem =
      let called =
        call m (if any_event (without_event ctx.events event) then op_mod else op_del) fd
          (without_event ctx.events event) in
      let (n, t, run, d, s, task) = trigger_at_lem {m = called} valid fd event ctx e h in
      (
        n,
        t,
        rw (some_slot m.contexts fd ctx e, e, h, run) refl,
        record {
          valid = d.valid;
          pending = d.pending;
          there = d.there;
          events = d.events;
          others = d.others;
        },
        s,
        task,
      )

-- On a table with a slot or more, `delEvent`, `cancelEvent` and `cancelAll` of a descriptor beyond
-- the table index it beyond its end.
pub beyond_faults :
    (m : IoManager) (fd : ℕ) (event : Event) (rt : ℕ)
    → 0 < length m.contexts
    → length m.contexts ≤ fd
    → (del_event m fd event ≡ fault)
      × (cancel_event m fd event rt ≡ fault)
      × (cancel_all m fd rt ≡ fault)
unfolding del_event cancel_event cancel_all
beyond_faults m fd event rt h k =
    let some_slots = lt→ltb 0 (length m.contexts) h in
    let none_there = get_elem?_ge m.contexts fd k in
    (
      rw (some_slots, none_there) refl,
      rw (some_slots, none_there) refl,
      rw (some_slots, none_there) refl,
    )
