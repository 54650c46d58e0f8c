-- ===== src/IoManager/Tests.antt =====
-- Runs of the table of descriptors at concrete inputs, and the theorems on it applied there.
use dag.Common.{
  ℕ, zero, suc, ◌≡◌, subst, refl, [], ◌∷◌, ◌++◌, some, none, arith, get_elem?, ok, true, false,
}
use dag.IoManager.{
  on_read, on_write, FdContext, IoManager, Task, Ready, empty_context, new_context, no_events,
  get_event_context, add_event, del_event, cancel_event, cancel_all, handle_context,
}
use dag.IoManager.Valid.{IsValid, Slot, Coherent}
use dag.IoManager.Keeps.{Dropped, TaskOf, events_at, del_event_lem, cancel_event_lem}
use dag.IoManager.Adding.{Added, slot_of, add_event_lem, cancel-add}
use dag.IoManager.Draining.{Drained, cancel_all_lem, handle_context_lem}

-- Two descriptors. The second waits for both events, with a callback and a fiber.
abbrev pub waiting : FdContext
waiting = record {
  read = slot_of 5 6 (some 8);
  write = slot_of 5 7 none;
  fd = 1;
  events = record { reads = true; writes = true };
}

abbrev pub two_contexts : IoManager
two_contexts = record {
  contexts = new_context 0 ∷ waiting ∷ [];
  pending = 2;
  scheduled = [];
  calls = [];
}

pub two_contexts-IsValid : IsValid two_contexts
two_contexts-IsValid = record { coherent = each; counted = refl; bounded = omega arith }
  where
    free : Slot empty_context false
    free = record { has_scheduler = refl; has_task = refl; one_task = refl }

    each :
        (fd : ℕ) (ctx : FdContext)
        → get_elem? two_contexts.contexts fd ≡ some ctx
        → Coherent ctx × (ctx.fd ≡ fd)
    each zero ctx e =
        let same : new_context 0 ≡ ctx = cc e in
        subst (λ (c : FdContext). Coherent c × (c.fd ≡ 0)) same
          (record { slot = elim [ on_read ↦ free | on_write ↦ free ] }, refl)
    each (suc zero) ctx e =
        let same : waiting ≡ ctx = cc e in
        subst (λ (c : FdContext). Coherent c × (c.fd ≡ 1)) same
          (
            record {
              slot = elim [
                | on_read ↦ record { has_scheduler = refl; has_task = refl; one_task = refl }
                | on_write ↦ record { has_scheduler = refl; has_task = refl; one_task = refl }
              ];
            },
            refl,
          )
    each (suc (suc n)) ctx e = absurd (cc e)

add_event_lem_example :
    (n : IoManager) × (add_event two_contexts 40 on_write (some 9) 5 6 false 0 ≡ ok (true, n))
    × Added two_contexts 40 on_write (slot_of 5 6 (some 9)) n
add_event_lem_example =
    add_event_lem two_contexts 40 on_write (some 9) 5 6 false two_contexts-IsValid (omega arith)
      (omega arith) refl refl

cancel-add_example :
    (n : IoManager) × (k : IoManager) × (t : Task) × (add_event two_contexts 0 on_read none 5 6 true
        0
      ≡ ok (true, n))
    × (cancel_event n 0 on_read 0 ≡ ok (true, k))
    × (k.scheduled ≡ two_contexts.scheduled ++ t ∷ [])
    × TaskOf (slot_of 5 6 none) t
    × (k.pending ≡ two_contexts.pending)
    × ((j : ℕ) → events_at k j ≡ events_at two_contexts j)
cancel-add_example =
    cancel-add two_contexts 0 on_read none 5 6 true two_contexts-IsValid (omega arith) (omega arith)
      refl refl

del_event_lem_example :
    (n : IoManager) × (del_event two_contexts 1 on_read ≡ ok (true, n))
    × Dropped two_contexts 1 on_read n
    × (n.scheduled ≡ two_contexts.scheduled)
del_event_lem_example = del_event_lem two_contexts-IsValid 1 on_read waiting refl refl

cancel_event_lem_example :
    (n : IoManager) × (t : Task) × (cancel_event two_contexts 1 on_write 0 ≡ ok (true, n))
    × Dropped two_contexts 1 on_write n
    × (n.scheduled ≡ two_contexts.scheduled ++ t ∷ [])
    × TaskOf (get_event_context waiting on_write) t
cancel_event_lem_example = cancel_event_lem two_contexts-IsValid 1 on_write waiting refl refl

cancel_all_lem_example :
    (n : IoManager) × (cancel_all two_contexts 1 0 ≡ ok (true, n))
    × Drained two_contexts 1 no_events n
cancel_all_lem_example = cancel_all_lem two_contexts 1 waiting two_contexts-IsValid refl refl

abbrev readable : Ready
readable = record {
  context = some 1;
  events = record { reads = true; writes = false };
  failed = false;
}

handle_context_lem_example :
    (n : IoManager) × (handle_context two_contexts 1 readable 0 ≡ ok n)
    × Drained two_contexts 1 (record { reads = false; writes = true }) n
handle_context_lem_example =
    handle_context_lem two_contexts 1 readable waiting two_contexts-IsValid refl (λ e. refl)
      (λ e. refl)

abbrev only_writes : IoManager
only_writes = record two_contexts {
  contexts =
      record waiting { read = empty_context; events = record { reads = false; writes = true } }
      ∷ [];
  pending = 1;
}
