-- ===== src/IoManager/Adding.antt =====
-- `addEvent` on a valid table, and `cancelEvent` after it.
use dag.Common.{
  ℕ, suc, ◌+◌, ◌/◌, ◌^◌, ◌≤◌, ◌<◌, ◌≡◌, ◌≢◌, refl, sym, ap, subst, ◌∙◌, [], ◌∷◌, ◌++◌, Option, some,
  none, arith, Bool, true, false, not, ◌&&◌, ◌||◌, is_some, length, get_elem?, get_elem?-set_self,
  get_elem?-set_ne, if◌then◌else◌, ltb, lt→ltb, le→ltb, ok, get_elem?_lt,
}
use native.Mathlib.Decide.{dec_le, ℕ_discrete}
use dag.IoManager.{
  Event, on_read, on_write, Events, EventContext, FdContext, IoManager, Task, has_event, with_event,
  without_event, get_event_context, set_event_context, add_event, cancel_event, context_resize,
  increment, call, any_event, op_mod, op_add, set_context,
}
use dag.IoManager.Valid.{
  Slot, IsValid, set_event_context-kept, add-Table, get_elem?-lt, resize-Table, events_of,
  resize_from-events, resize_from-there,
}
use dag.IoManager.Keeps.{events_at, TaskOf, cancel_event_lem}

-- `n` is `m` with one event of `fd` more, whose context is `added`.
pub record Added (m : IoManager) (fd : ℕ) (event : Event) (added : EventContext) (n : IoManager)
    : Type 0 where
  pub valid : IsValid n
  pub pending : n.pending ≡ suc m.pending
  pub events : events_at n fd ≡ with_event (events_at m fd) event
  pub others : (j : ℕ) → fd ≢ j → events_at n j ≡ events_at m j
  pub scheduled : n.scheduled ≡ m.scheduled
  pub stored :
      (ctx : FdContext) × (get_elem? n.contexts fd ≡ some ctx)
      × (get_event_context ctx event ≡ added)

-- The table in which `addEvent` looks the descriptor up.
abbrev pub reaching : IoManager → ℕ → IoManager
reaching m fd = if ltb fd (length m.contexts) then m else context_resize m (fd + fd / 2)

-- It is valid, has a slot for the descriptor, and the same events.
reaching_lem :
    (m : IoManager) (fd : ℕ)
    → IsValid m
    → 2 ≤ length m.contexts
    → fd < 2 ^ 31
    → IsValid (reaching m fd)
      × ((ctx : FdContext) × (get_elem? (reaching m fd).contexts fd ≡ some ctx))
      × ((j : ℕ) → events_at (reaching m fd) j ≡ events_at m j)
      × ((reaching m fd).pending ≡ m.pending)
      × ((reaching m fd).scheduled ≡ m.scheduled)
reaching_lem m fd valid two small = elim (dec_le (length m.contexts) fd) [
  | no n ↦
      rw (lt→ltb fd (length m.contexts) (omega (arith, n)))
        (valid, get_elem?_lt m.contexts fd (omega (arith, n)), (λ j. refl), refl, refl)
  | yes h ↦ rw (le→ltb fd (length m.contexts) h) (
    resize-Table m.contexts m.pending (fd + fd / 2) valid (omega (arith, h)) (omega (arith, small)),
    resize_from-there (fd + fd / 2) m.contexts fd (omega (arith, two, h)),
    (λ j. resize_from-events 0 (fd + fd / 2) m.contexts j (omega (arith, h))),
    refl,
    refl,
  )
]

-- What `addEvent` stores.
abbrev pub slot_of : ℕ → ℕ → Option ℕ → EventContext
slot_of scheduler fiber cb = record {
  scheduler = some scheduler;
  fiber = if is_some cb then none else some fiber;
  cb = cb;
}

slot_of-Slot : (scheduler fiber : ℕ) (cb : Option ℕ) → Slot (slot_of scheduler fiber cb) true
slot_of-Slot scheduler fiber none = record {
  has_scheduler = refl;
  has_task = refl;
  one_task = refl;
}
slot_of-Slot scheduler fiber (some c) = record {
  has_scheduler = refl;
  has_task = refl;
  one_task = refl;
}

all_unset : (a b c : Bool) → a ≡ false → (c || b) ≡ false → (not a && not b && not c) ≡ true
all_unset false false false h k = refl
all_unset false false true h k = absurd (cc k)
all_unset false true false h k = absurd (cc k)
all_unset false true true h k = absurd (cc k)
all_unset true b c h k = absurd (cc h)

get-set_event_context :
    (ctx : FdContext) (event : Event) (c : EventContext)
    → get_event_context (set_event_context ctx event c) event ≡ c
get-set_event_context ctx on_read c = refl
get-set_event_context ctx on_write c = refl

-- The test of `addEvent`'s second assertion, on an empty context.
unused :
    (c : EventContext)
    → Slot c false
    → (not (is_some c.scheduler) && not (is_some c.fiber) && not (is_some c.cb)) ≡ true
unused c s = all_unset _ _ _ s.has_scheduler s.has_task

-- On a valid table of two slots or more, `addEvent` of an event that is not registered, where
-- `epoll_ctl` succeeds and a fiber given in place of a callback is running, passes its assertions and
-- returns 0. It registers that event with the callback or else the fiber, makes no other change of the
-- events and keeps the table valid, also where it has to enlarge it.
pub add_event_lem :
    (m : IoManager) (fd : ℕ) (event : Event) (cb : Option ℕ) (scheduler fiber : ℕ) (running : Bool)
    → IsValid m
    → 2 ≤ length m.contexts
    → fd < 2 ^ 31
    → has_event (events_at m fd) event ≡ false
    → (is_some cb || running) ≡ true
    → (n : IoManager) × (add_event m fd event cb scheduler fiber running 0 ≡ ok (true, n))
      × Added m fd event (slot_of scheduler fiber cb) n
unfolding add_event
add_event_lem m fd event cb scheduler fiber running valid two small absent runs =
    let (valid', there, same, count, tasks) = reaching_lem m fd valid two small in
    let (ctx, e) = there in
    let free : has_event ctx.events event ≡ false =
      ap (λ o. has_event (events_of o) event) (sym e)
      ∙ ap (λ o. has_event o event) (same fd)
      ∙ absent in
    let slot =
      subst (Slot (get_event_context ctx event)) free ((valid'.coherent fd ctx e).0.slot event) in
    let (one, table) =
      add-Table (reaching m fd).contexts (reaching m fd).pending fd ctx event
        (slot_of scheduler fiber cb) valid' e free (slot_of-Slot scheduler fiber cb) in
    let here =
      get_elem?-set_self (reaching m fd).contexts fd
        (set_event_context (record ctx { events = with_event ctx.events event }) event
          (slot_of scheduler fiber cb))
        (get_elem?-lt (reaching m fd).contexts fd ctx e) in
    let n =
      record (set_context
        (call (reaching m fd) (if any_event ctx.events then op_mod else op_add) fd
          (with_event ctx.events event))
        fd
        (set_event_context (record ctx { events = with_event ctx.events event }) event
          (slot_of scheduler fiber cb))) { pending = increment (reaching m fd).pending } in
    (
      n,
      rw (e, free, unused (get_event_context ctx event) slot, runs) refl,
      record {
        valid = table;
        pending = one ∙ ap suc count;
        events =
            ap events_of here
            ∙ (set_event_context-kept (record ctx { events = with_event ctx.events event }) event
                (slot_of scheduler fiber cb)).1
            ∙ ap (λ o. with_event (events_of o) event) (sym e)
            ∙ ap (λ o. with_event o event) (same fd);
        others = λ j d. ap events_of (get_elem?-set_ne (reaching m fd).contexts fd j _ d) ∙ same j;
        scheduled = tasks;
        stored = (
          _,
          here,
          get-set_event_context (record ctx { events = with_event ctx.events event }) event
              (slot_of scheduler fiber cb),
        );
      },
    )

pub has-with : (e : Events) (event : Event) → has_event (with_event e event) event ≡ true
has-with e on_read = refl
has-with e on_write = refl

without-with :
    (e : Events) (event : Event)
    → has_event e event ≡ false
    → without_event (with_event e event) event ≡ e
without-with e on_read h = ap (λ b. record e { reads = b }) (sym h)
without-with e on_write h = ap (λ b. record e { writes = b }) (sym h)

-- On a valid table of two slots or more, after `addEvent` of an event that is not registered, of a
-- callback or a running fiber, where `epoll_ctl` succeeds both times, `cancelEvent` schedules
-- exactly that callback, or else the fiber, on the scheduler of the `addEvent`. The events and the
-- pending count are then as they were before.
pub cancel-add :
    (m : IoManager) (fd : ℕ) (event : Event) (cb : Option ℕ) (scheduler fiber : ℕ) (running : Bool)
    → IsValid m
    → 2 ≤ length m.contexts
    → fd < 2 ^ 31
    → has_event (events_at m fd) event ≡ false
    → (is_some cb || running) ≡ true
    → (n : IoManager) × (k : IoManager) × (t : Task) × (add_event m fd event cb scheduler fiber
          running 0
        ≡ ok (true, n))
      × (cancel_event n fd event 0 ≡ ok (true, k))
      × (k.scheduled ≡ m.scheduled ++ t ∷ [])
      × TaskOf (slot_of scheduler fiber cb) t
      × (k.pending ≡ m.pending)
      × ((j : ℕ) → events_at k j ≡ events_at m j)
cancel-add m fd event cb scheduler fiber running valid two small absent runs =
    let (n, run, a) =
      add_event_lem m fd event cb scheduler fiber running valid two small absent runs in
    let (ctx, here, got) = a.stored in
    let set_here =
      ap (λ o. has_event (events_of o) event) (sym here)
      ∙ ap (λ o. has_event o event) a.events
      ∙ has-with (events_at m fd) event in
    let (k, t, run2, d, s, task) = cancel_event_lem a.valid fd event ctx here set_here in
    (
      n,
      k,
      t,
      run,
      run2,
      s ∙ ap (λ l. l ++ t ∷ []) a.scheduled,
      subst (λ c. TaskOf c t) got task,
      omega (arith, d.pending, a.pending),
      λ j. elim (ℕ_discrete fd j) [
        | yes q ↦
            subst (λ j. events_at k j ≡ events_at m j) q
              (d.events
                ∙ ap (λ o. without_event o event) a.events
                ∙ without-with (events_at m fd) event absent)
        | no q ↦ ap events_of (d.others j q) ∙ a.others j q
      ],
    )
