-- ===== src/IoManager/Examples.antt =====
-- server/iomanager.cc: the theorems on a manager with both events of descriptor 1 registered.
use zjh_server.Base.{◌≡◌, ◌≢◌, refl, [], ◌∷◌, arith, true, false, none, some, get_elem?, Bool, set}
use zjh_server.IoManager.{
  no_event, reading, Events, no_events, EventContext, FdContext, IoManager, ctl, ctl_del, ctl_mod,
  ctl_add, reset_event_context, context_resize, get_event_context,
}
use zjh_server.IoManager.Operations.{add_event, cancel_event, cancel_all, handle_ready}
use zjh_server.IoManager.Registered.{IsValid}
use zjh_server.IoManager.Cancelling.{Triggered, cancel_event_lem}
use zjh_server.IoManager.Ready.{
  GaveBoth, emptied, cancel_all_lem, handle_ready_lem, stale_event_aborts,
}
use zjh_server.IoManager.Adding.{Added, add_event_lem}
use zjh_server.IoManager.Invariant.{new_io_manager, here, then_step, adds, reachable_manager_lem}

abbrev unused : EventContext
unused = record { scheduler = none; fiber = none; cb = none }

abbrev for_callback : EventContext
for_callback = record { scheduler = some 3; fiber = none; cb = some 9 }

abbrev for_fiber : EventContext
for_fiber = record { scheduler = some 3; fiber = some 4; cb = none }

abbrev both : Events
both = record { readable = true; writable = true }

abbrev only_writing : Events
only_writing = record { readable = false; writable = true }

abbrev only_reading : Events
only_reading = record { readable = true; writable = false }

abbrev idle_context : FdContext
idle_context = record { read = unused; write = unused; fd = 0; events = no_events }

abbrev busy_context : FdContext
busy_context = record { read = for_callback; write = for_fiber; fd = 1; events = both }

abbrev writing_context : FdContext
writing_context = record { read = unused; write = for_fiber; fd = 2; events = only_writing }

abbrev manager : IoManager
manager = record {
  contexts = idle_context ∷ busy_context ∷ writing_context ∷ [];
  pending = 3;
  calls = [];
  dispatched = [];
}

manager-IsValid : IsValid manager
unfolding reset_event_context
manager-IsValid = record {
  each = (
    record { for_reading = refl; for_writing = refl },
    (
      record { for_reading = ((3, refl), refl); for_writing = ((3, refl), refl) },
      (record { for_reading = refl; for_writing = ((3, refl), refl) }, tt),
    ),
  );
  counted = refl;
}

cancel_event_example :
    (m' : IoManager) × (cancel_event true 1 reading manager ≡ some (m', true))
    × Triggered reading 1 busy_context (ctl ctl_mod 1 only_writing manager) m'
cancel_event_example = cancel_event_lem reading 1 busy_context manager manager-IsValid refl refl

nothing_registered :
    (c : FdContext) → get_elem? manager.contexts 7 ≡ some c → c.events.readable ≡ false
nothing_registered c e = ground arith

cancel_all_example :
    (m' : IoManager) × (cancel_all true 1 manager ≡ some (m', true))
    × GaveBoth both 1 busy_context (ctl ctl_del 1 no_events manager) m'
    × ((emptied both busy_context).events ≡ no_events)
cancel_all_example = cancel_all_lem 1 busy_context manager manager-IsValid refl refl

handle_ready_example :
    (m' : IoManager) × (handle_ready true true no_events 1 manager ≡ some m')
    × GaveBoth both 1 busy_context (ctl ctl_del 1 no_events manager) m'
handle_ready_example =
    handle_ready_lem true no_events 1 busy_context manager manager-IsValid refl (λ e. refl)
      (λ e. refl) refl

stale_event_example : handle_ready true false both 2 manager ≡ none
stale_event_example = stale_event_aborts 2 writing_context manager refl refl refl

not_nothing : reading ≢ no_event
not_nothing e = ground arith

add_event_example :
    (m' : IoManager) × (add_event true (some 3) 8 true 0 reading none manager ≡ some (m', true))
    × Added reading 0
        (record { scheduler = some 3; fiber = some 8; cb = none })
        idle_context
        manager
        m'
add_event_example =
    add_event_lem reading 0 3 8 true none (record { scheduler = some 3; fiber = some 8; cb = none })
      idle_context manager manager-IsValid refl not_nothing refl refl (omega arith)

-- The new manager after a callback waits for reading from descriptor 1.
abbrev one_added : IoManager
one_added = record {
  contexts =
      set (context_resize 32 []) 1
        (record { read = for_callback; write = unused; fd = 1; events = only_reading });
  pending = 1;
  calls = record { op = ctl_add; target = 1; interest = only_reading } ∷ [];
  dispatched = [];
}

reachable_manager_example :
    IsValid one_added
    × ((r : IoManager × Bool) × (cancel_event true 1 reading one_added ≡ some r))
    × ((r : IoManager × Bool) × (cancel_all true 1 one_added ≡ some r))
unfolding new_io_manager add_event context_resize reset_event_context get_event_context
reachable_manager_example =
    reachable_manager_lem one_added true 1 reading
      (then_step here (adds true true 3 4 1 true reading (some 9) not_nothing (omega arith) refl))
