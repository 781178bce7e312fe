-- ===== src/IoManager/Operations.antt =====
-- server/iomanager.cc: adding, deleting and cancelling events, and what the idle loop does with an answer of
-- epoll_wait.
use zjh_server.Base.{
  ℕ, ◌-◌, ◌*◌, ◌/◌, ◌^◌, [], ◌∷◌, ◌++◌, ltb, leb, ◌==◌, if◌then◌else◌, length, Bool, true, false,
  not, ◌&&◌, ◌||◌, Option, none, some, get_elem?, set,
}
use zjh_server.Base.Words.{u32}
use zjh_server.Scheduler.{ScheduleTask, Scheduler, is_some, stopping, decrement}
use zjh_server.Timer.{TimerManager, get_next_timer}
use zjh_server.IoManager.{
  Event, Events, no_events, has, add, remove, any, EventContext, reset_event_context, FdContext,
  get_event_context, put_event_context, trigger_event, CtlOp, IoManager, increment, context_resize,
  ctl, reading, writing, ctl_add, ctl_mod, ctl_del,
}

-- The context that `addEvent` fills in: the callback, or the current fiber if it is running.
abbrev pub filled : Option ℕ → Option ℕ → ℕ → Bool → Option EventContext
filled this (some f) me running = some (record { scheduler = this; fiber = none; cb = some f })
filled this none me running =
    if running then some (record { scheduler = this; fiber = some me; cb = none }) else none

abbrev pub is_unused : EventContext → Bool
is_unused e = not (is_some e.scheduler) && not (is_some e.fiber) && not (is_some e.cb)

abbrev pub register_with :
    ℕ → Event → FdContext → Option EventContext → IoManager → Option (IoManager × Bool)
register_with fd ev c none m = none
register_with fd ev c (some e) m = some (
  record m {
    contexts = set m.contexts fd (put_event_context ev e (record c { events = add c.events ev }));
  },
  true,
)

abbrev pub register :
    ℕ
    → Event
    → FdContext
    → Option EventContext
    → Option EventContext
    → IoManager
    → Option (IoManager × Bool)
register fd ev c none e m = none
register fd ev c (some old) e m =
    if is_unused old
    then register_with fd ev c e (record m { pending = increment m.pending })
    else none

-- `addEvent` from the lookup on.
abbrev pub add_at :
    Bool
    → ℕ
    → Event
    → Option EventContext
    → Option FdContext
    → IoManager
    → Option (IoManager × Bool)
add_at accepted fd ev e none m = none
add_at accepted fd ev e (some c) m =
    let m1 = ctl (if any c.events then ctl_mod else ctl_add) fd (add c.events ev) m in
    if has c.events ev
    then none
    else (if accepted then register fd ev c (get_event_context ev c) e m1 else some (m1, false))

-- The lookup, `contextResize` and the rest are one step; `fd` is not negative.
-- `this` is the current scheduler and `me` the current fiber; the result false stands for -1.
unfoldable pub add_event :
    Bool → Option ℕ → ℕ → Bool → ℕ → Event → Option ℕ → IoManager → Option (IoManager × Bool)
unfolding get_event_context context_resize
add_event accepted this me running fd ev cb m =
    let contexts =
      if ltb fd (length m.contexts) then m.contexts else context_resize (fd * 3 / 2) m.contexts in
    add_at accepted fd ev (filled this cb me running) (get_elem? contexts fd)
      (record m { contexts = contexts })

abbrev pub left_op : Events → CtlOp
left_op es = if any es then ctl_mod else ctl_del

abbrev pub del_at : Bool → ℕ → Event → Option FdContext → IoManager → IoManager × Bool
del_at accepted fd ev none m = (m, false)
del_at accepted fd ev (some c) m =
    let left = remove c.events ev in
    let m1 = ctl (left_op left) fd left m in
    if has c.events ev
    then (if accepted
        then (
          record m1 {
            pending = decrement m.pending;
            contexts =
                set m.contexts fd
                  (put_event_context ev reset_event_context (record c { events = left }));
          },
          true,
        )
        else (m1, false))
    else (m, false)

unfoldable pub del_event : Bool → ℕ → Event → IoManager → IoManager × Bool
unfolding reset_event_context
del_event accepted fd ev m = del_at accepted fd ev (get_elem? m.contexts fd) m

-- Triggering an event of the context of `fd`, then the count.
abbrev pub triggered : ℕ → Option (FdContext × (ℕ × ScheduleTask)) → IoManager → Option IoManager
triggered fd none m = none
triggered fd (some r) m = some (record m {
  contexts = set m.contexts fd r.0;
  dispatched = m.dispatched ++ r.1 ∷ [];
  pending = decrement m.pending;
})

abbrev pub trigger_found : Event → ℕ → Option FdContext → IoManager → Option IoManager
trigger_found ev fd none m = none
trigger_found ev fd (some c) m = triggered fd (trigger_event ev c) m

unfoldable pub trigger_at : Event → ℕ → IoManager → Option IoManager
unfolding trigger_event
trigger_at ev fd m = trigger_found ev fd (get_elem? m.contexts fd) m

abbrev pub with_result : Option IoManager → Option (IoManager × Bool)
with_result none = none
with_result (some m) = some (m, true)

abbrev pub cancel_at : Bool → ℕ → Event → Option FdContext → IoManager → Option (IoManager × Bool)
cancel_at accepted fd ev none m = some (m, false)
cancel_at accepted fd ev (some c) m =
    let left = remove c.events ev in
    let m1 = ctl (left_op left) fd left m in
    if has c.events ev
    then (if accepted then with_result (trigger_at ev fd m1) else some (m1, false))
    else some (m, false)

unfoldable pub cancel_event : Bool → ℕ → Event → IoManager → Option (IoManager × Bool)
unfolding trigger_at
cancel_event accepted fd ev m = cancel_at accepted fd ev (get_elem? m.contexts fd) m

-- Triggering those of both events that are wanted, reading first.
abbrev pub then_trigger : Bool → Event → ℕ → Option IoManager → Option IoManager
then_trigger wanted ev fd none = none
then_trigger wanted ev fd (some m) = if wanted then trigger_at ev fd m else some m

unfoldable pub trigger_both : Events → ℕ → IoManager → Option IoManager
unfolding trigger_at
trigger_both es fd m =
    then_trigger es.writable writing fd (then_trigger es.readable reading fd (some m))

abbrev pub cancel_all_at : Bool → ℕ → Option FdContext → IoManager → Option (IoManager × Bool)
cancel_all_at accepted fd none m = some (m, false)
cancel_all_at accepted fd (some c) m =
    let m1 = ctl ctl_del fd no_events m in
    if any c.events
    then (if accepted then with_result (trigger_both c.events fd m1) else some (m1, false))
    else some (m, false)

unfoldable pub cancel_all : Bool → ℕ → IoManager → Option (IoManager × Bool)
unfolding trigger_both
cancel_all accepted fd m = cancel_all_at accepted fd (get_elem? m.contexts fd) m

-- The events that an answer of epoll_wait stands for: an error or a hang-up adds those registered.
abbrev pub real_events : Bool → Events → Events → Events
real_events broken raised es = record {
  readable = raised.readable || (broken && es.readable);
  writable = raised.writable || (broken && es.writable);
}

abbrev pub without : Events → Events → Events
without es others = record {
  readable = es.readable && not others.readable;
  writable = es.writable && not others.writable;
}

abbrev pub common : Events → Events → Events
common es others = record {
  readable = es.readable && others.readable;
  writable = es.writable && others.writable;
}

abbrev pub ready_at : Bool → Bool → Events → ℕ → Option FdContext → IoManager → Option IoManager
ready_at accepted broken raised fd none m = none
ready_at accepted broken raised fd (some c) m =
    let real = real_events broken raised c.events in
    let left = without c.events real in
    let m1 = ctl (left_op left) c.fd left m in
    if any (common c.events real)
    then (if accepted then trigger_both real fd m1 else some m1)
    else some m

-- One answer of epoll_wait in the loop of `idle`, for the context of `fd`.
unfoldable pub handle_ready : Bool → Bool → Events → ℕ → IoManager → Option IoManager
unfolding trigger_both
handle_ready accepted broken raised fd m =
    ready_at accepted broken raised fd (get_elem? m.contexts fd) m

-- The argument of epoll_wait in milliseconds for the time until the next timer, at most 5000. The
-- cast to int makes times of 2^31 and more negative or small; a negative one, `none`, waits without end.
unfoldable pub wait_time : ℕ → Option ℕ
wait_time timeout =
    if timeout == 2 ^ 64 - 1
    then some 5000
    else (if leb (2 ^ 31) (u32 timeout)
        then none
        else (if ltb (u32 timeout) 5000 then some (u32 timeout) else some 5000))

-- `stopping(uint64_t &)`: the time until the next timer, and whether nothing is left to wait for.
unfoldable pub io_stopping : ℕ → IoManager → TimerManager → Scheduler → ℕ × Bool
unfolding get_next_timer stopping
io_stopping now m timers s =
    let timeout = (get_next_timer now timers).1 in
    (timeout, timeout == 2 ^ 64 - 1 && m.pending == 0 && stopping s)
