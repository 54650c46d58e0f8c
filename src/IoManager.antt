-- ===== src/IoManager.antt =====
-- dag/ioscheduler.h and dag/ioscheduler.cpp: the table of descriptors with their read and write
-- events, and the part of `idle` that turns ready events into tasks. A scheduler, a fiber and a
-- callback are numbers, `none` for null. A descriptor is not negative. `Events` is the mask
-- `READ | WRITE`; its two bits are Booleans. What `epoll_ctl` returns is an argument, and each call of
-- it is kept in `calls`. An operation holds the descriptor's mutex, so it is one step; a context is
-- never null, since `contextResize` fills every slot.
pub mod Valid
pub mod Keeps
pub mod Adding
pub mod Draining
pub mod Tests
use dag.Common.{
  ℕ, zero, suc, ◌+◌, ◌-◌, ◌/◌, ◌%◌, ◌^◌, min, Bool, true, false, not, ◌&&◌, ◌||◌, Option, some,
  none, List, [], ◌∷◌, ◌++◌, map, ltb, ◌==◌, if◌then◌else◌, Outcome, ok, ◌>>=◌, ◌>>◌, assert, deref,
  is_some, length, get_elem?, set,
}
use dag.Timer.{TimerManager, get_next_timer}

pub data Event : Type 0 where
  on_read : Event
  on_write : Event

pub record Events : Type 0 where
  pub reads : Bool
  pub writes : Bool

pub record EventContext : Type 0 where
  pub scheduler : Option ℕ
  pub fiber : Option ℕ
  pub cb : Option ℕ

pub record FdContext : Type 0 where
  pub read : EventContext
  pub write : EventContext
  pub fd : ℕ
  pub events : Events

-- `epoll_ctl(m_epfd, op, fd, EPOLLET | events)`
pub data Op : Type 0 where
  op_add : Op
  op_mod : Op
  op_del : Op

pub record EpollCtl : Type 0 where
  pub op : Op
  pub fd : ℕ
  pub events : Events

-- A `schedulerLock` call: the scheduler, and the fiber or the callback it gets.
pub record Task : Type 0 where
  pub scheduler : ℕ
  pub fiber : Option ℕ
  pub cb : Option ℕ

pub record IoManager : Type 0 where
  pub contexts : List FdContext
  pub pending : ℕ
  pub scheduled : List Task
  pub calls : List EpollCtl

abbrev pub no_events : Events
no_events = record { reads = false; writes = false }

abbrev pub has_event : Events → Event → Bool
has_event events on_read = events.reads
has_event events on_write = events.writes

abbrev pub any_event : Events → Bool
any_event events = events.reads || events.writes

abbrev pub with_event : Events → Event → Events
with_event events on_read = record events { reads = true }
with_event events on_write = record events { writes = true }

abbrev pub without_event : Events → Event → Events
without_event events on_read = record events { reads = false }
without_event events on_write = record events { writes = false }

abbrev pub empty_context : EventContext
empty_context = record { scheduler = none; fiber = none; cb = none }

abbrev pub get_event_context : FdContext → Event → EventContext
get_event_context ctx on_read = ctx.read
get_event_context ctx on_write = ctx.write

abbrev pub set_event_context : FdContext → Event → EventContext → FdContext
set_event_context ctx on_read c = record ctx { read = c }
set_event_context ctx on_write c = record ctx { write = c }

abbrev pub reset_event_context : FdContext → Event → FdContext
reset_event_context ctx event = set_event_context ctx event empty_context

abbrev pub new_context : ℕ → FdContext
new_context fd = record { read = empty_context; write = empty_context; fd = fd; events = no_events }

-- `contextResize`: the contexts from the index `i` on, in a table of `size` slots from there.
unfoldable pub resize_from : ℕ → ℕ → List FdContext → List FdContext
resize_from i zero xs = []
resize_from i (suc size) [] = new_context i ∷ resize_from (i + 1) size []
resize_from i (suc size) (x ∷ xs) = x ∷ resize_from (i + 1) size xs

abbrev pub context_resize : IoManager → ℕ → IoManager
context_resize m size = record m { contexts = resize_from 0 size m.contexts }

unfoldable pub init : IoManager
init = context_resize (record { contexts = []; pending = 0; scheduled = []; calls = [] }) 32

-- `m_fdContexts[fd]`, and the same slot changed.
abbrev pub context_at : IoManager → ℕ → Outcome FdContext
context_at m fd = deref (get_elem? m.contexts fd)

abbrev pub set_context : IoManager → ℕ → FdContext → IoManager
set_context m fd ctx = record m { contexts = set m.contexts fd ctx }

-- `++m_pendingEvenCount` and `--m_pendingEvenCount` on a `size_t`
abbrev pub increment : ℕ → ℕ
increment n = (n + 1) % 2 ^ 64

abbrev pub decrement : ℕ → ℕ
decrement n = (n + (2 ^ 64 - 1)) % 2 ^ 64

abbrev pub call : IoManager → Op → ℕ → Events → IoManager
call m op fd events = record m {
  calls = m.calls ++ record { op = op; fd = fd; events = events } ∷ [];
}

unfoldable pub trigger_event : FdContext → Event → Outcome (Task × FdContext)
trigger_event ctx event =
    let c = get_event_context ctx event in
    assert (has_event ctx.events event)
    >> (deref c.scheduler >>= λ scheduler. ok (
      record { scheduler = scheduler; fiber = if is_some c.cb then none else c.fiber; cb = c.cb },
      reset_event_context (record ctx { events = without_event ctx.events event }) event,
    ))

-- `addEvent`, in the fiber `fiber` of the scheduler `scheduler`; `true` is the result 0, `false` is -1.
-- A fiber that is given in place of a callback has to be running.
unfoldable pub add_event :
    IoManager → ℕ → Event → Option ℕ → ℕ → ℕ → Bool → ℕ → Outcome (Bool × IoManager)
add_event m fd event cb scheduler fiber running rt =
    let m' = if ltb fd (length m.contexts) then m else context_resize m (fd + fd / 2) in
    context_at m' fd >>= λ ctx.
    assert (not (has_event ctx.events event))
    >> (let op = if any_event ctx.events then op_mod else op_add in
        let events = with_event ctx.events event in
        let called = call m' op fd events in
        let c = get_event_context ctx event in
        let added : EventContext = record {
          scheduler = some scheduler;
          fiber = if is_some cb then none else some fiber;
          cb = cb;
        } in
        if rt == 0
        then assert (not (is_some c.scheduler) && not (is_some c.fiber) && not (is_some c.cb))
          >> (assert (is_some cb || running)
              >> ok (
                true,
                record (set_context called fd
                    (set_event_context (record ctx { events = events }) event added)) {
                      pending = increment m'.pending;
                    },
              ))
        else ok (false, called))

unfoldable pub del_event : IoManager → ℕ → Event → Outcome (Bool × IoManager)
del_event m fd event =
    if ltb 0 (length m.contexts)
    then (context_at m fd >>= λ ctx.
        let events = without_event ctx.events event in
        let called = call m (if any_event events then op_mod else op_del) fd events in
        if has_event ctx.events event
        then ok (
          true,
          record (set_context called fd
              (reset_event_context (record ctx { events = events }) event)) {
                pending = decrement m.pending;
              },
        )
        else ok (false, m))
    else ok (false, m)

-- `triggerEvent` on the context of `fd`, and the count one less.
unfoldable pub trigger_at : IoManager → ℕ → Event → Outcome IoManager
trigger_at m fd event = context_at m fd >>= λ ctx. trigger_event ctx event >>= λ r.
    ok (record (set_context m fd r.1) {
      pending = decrement m.pending;
      scheduled = m.scheduled ++ r.0 ∷ [];
    })

unfoldable pub cancel_event : IoManager → ℕ → Event → ℕ → Outcome (Bool × IoManager)
cancel_event m fd event rt =
    if ltb 0 (length m.contexts)
    then (context_at m fd >>= λ ctx.
        let events = without_event ctx.events event in
        let called = call m (if any_event events then op_mod else op_del) fd events in
        if has_event ctx.events event
        then (if rt == 0
            then (trigger_at called fd event >>= λ n. ok (true, n))
            else ok (false, called))
        else ok (false, m))
    else ok (false, m)

-- `if (fd_ctx->events & event)`, then the trigger.
unfoldable pub trigger_if : IoManager → ℕ → Event → Outcome IoManager
trigger_if m fd event =
    context_at m fd >>= λ ctx. if has_event ctx.events event then trigger_at m fd event else ok m

unfoldable pub cancel_all : IoManager → ℕ → ℕ → Outcome (Bool × IoManager)
cancel_all m fd rt =
    if ltb 0 (length m.contexts)
    then (context_at m fd >>= λ ctx.
        let called = call m op_del fd no_events in
        if any_event ctx.events
        then (if rt == 0
            then (trigger_if called fd on_read >>= λ m1. trigger_if m1 fd on_write >>= λ m2.
                context_at m2 fd >>= λ last. assert (not (any_event last.events)) >> ok (true, m2))
            else ok (false, called))
        else ok (false, m))
    else ok (false, m)

-- One `epoll_event`: `none` is the tickle pipe, else the descriptor of the context in `data.ptr`, with
-- the bits `EPOLLIN`, `EPOLLOUT`, and whether `EPOLLERR` or `EPOLLHUP` is there.
pub record Ready : Type 0 where
  pub context : Option ℕ
  pub events : Events
  pub failed : Bool

-- `real_events`
abbrev pub real_events : Ready → Events → Events
real_events ready events = record {
  reads = ready.events.reads || ready.failed && events.reads;
  writes = ready.events.writes || ready.failed && events.writes;
}

-- The body of `idle`'s `for` loop, where `epoll_ctl` returns `rt2`.
unfoldable pub handle_context : IoManager → ℕ → Ready → ℕ → Outcome IoManager
handle_context m fd ready rt2 = context_at m fd >>= λ ctx.
    let real = real_events ready ctx.events in
    let left : Events = record {
      reads = ctx.events.reads && not real.reads;
      writes = ctx.events.writes && not real.writes;
    } in
    let called = call m (if any_event left then op_mod else op_del) fd left in
    if ctx.events.reads && real.reads || ctx.events.writes && real.writes
    then (if rt2 == 0
        then ((if real.reads then trigger_at called fd on_read else ok called) >>= λ m1.
            if real.writes then trigger_at m1 fd on_write else ok m1)
        else ok called)
    else ok m

unfoldable pub handle_events : IoManager → List (Ready × ℕ) → Outcome IoManager
handle_events m [] = ok m
handle_events m ((ready, rt2) ∷ rest) =
    elim ready.context [ none ↦ ok m | some fd ↦ handle_context m fd ready rt2 ] >>= λ m'.
    handle_events m' rest

-- How long `idle` lets `epoll_wait` wait, and `stopping`.
abbrev pub wait_timeout : TimerManager → ℕ → ℕ
wait_timeout timers now = min (get_next_timer timers now).0 5000

abbrev pub stopping : IoManager → TimerManager → ℕ → Bool → Bool
stopping m timers now scheduler_stopping =
    ((get_next_timer timers now).0 == 2 ^ 64 - 1) && (m.pending == 0) && scheduler_stopping
