-- ===== src/IoManager.antt =====
-- server/iomanager.h and iomanager.cc: the event contexts of file descriptors, and triggering an event.
-- The operations are in Operations.
-- Each operation runs under its context's mutex. The answer of epoll_ctl is an argument
-- (`accepted`), its calls are recorded, and `none` stands for a failed assertion or a fault.
pub mod Operations
pub mod Registered
pub mod Cancelling
pub mod Ready
pub mod Adding
pub mod Preserving
pub mod Growing
pub mod Invariant
pub mod Examples
use zjh_server.Base.{
  ℕ, zero, suc, ◌+◌, ◌-◌, ◌%◌, ◌^◌, List, [], ◌∷◌, ◌++◌, if◌then◌else◌, length, take, Bool, true,
  false, ◌||◌, Option, none, some,
}
use zjh_server.Scheduler.{ScheduleTask, is_some, cb_task, fiber_task}

-- `enum Event`: no event, readable, writable.
pub data Event : Type 0 where
  no_event : Event
  reading : Event
  writing : Event

-- A set of events, by its bits 0x1 and 0x4.
pub record Events : Type 0 where
  pub readable : Bool
  pub writable : Bool

abbrev pub no_events : Events
no_events = record { readable = false; writable = false }

abbrev pub has : Events → Event → Bool
has es no_event = false
has es reading = es.readable
has es writing = es.writable

abbrev pub add : Events → Event → Events
add es no_event = es
add es reading = record es { readable = true }
add es writing = record es { writable = true }

abbrev pub remove : Events → Event → Events
remove es no_event = es
remove es reading = record es { readable = false }
remove es writing = record es { writable = false }

abbrev pub any : Events → Bool
any es = es.readable || es.writable

-- The scheduler, fiber and callback that an event will be given to.
pub record EventContext : Type 0 where
  pub scheduler : Option ℕ
  pub fiber : Option ℕ
  pub cb : Option ℕ

unfoldable pub reset_event_context : EventContext
reset_event_context = record { scheduler = none; fiber = none; cb = none }

pub record FdContext : Type 0 where
  pub read : EventContext
  pub write : EventContext
  pub fd : ℕ
  pub events : Events

unfoldable pub get_event_context : Event → FdContext → Option EventContext
get_event_context no_event c = none
get_event_context reading c = some c.read
get_event_context writing c = some c.write

abbrev pub put_event_context : Event → EventContext → FdContext → FdContext
put_event_context no_event e c = c
put_event_context reading e c = record c { read = e }
put_event_context writing e c = record c { write = e }

-- The task that `triggerEvent` schedules: the callback if there is one, else the fiber.
abbrev pub task_of : EventContext → ScheduleTask
task_of e = if is_some e.cb then cb_task e.cb none else fiber_task e.fiber none

abbrev pub dispatch_to :
    Option ℕ → Event → EventContext → FdContext → Option (FdContext × (ℕ × ScheduleTask))
dispatch_to none ev e c = none
dispatch_to (some s) ev e c = some (
  put_event_context ev reset_event_context (record c { events = remove c.events ev }),
  (s, task_of e),
)

abbrev pub trigger_context :
    Event → Option EventContext → FdContext → Option (FdContext × (ℕ × ScheduleTask))
trigger_context ev none c = none
trigger_context ev (some e) c = dispatch_to e.scheduler ev e c

-- The context afterwards, and what is scheduled where.
unfoldable pub trigger_event : Event → FdContext → Option (FdContext × (ℕ × ScheduleTask))
unfolding get_event_context reset_event_context
trigger_event ev c = if has c.events ev then trigger_context ev (get_event_context ev c) c else none

pub data CtlOp : Type 0 where
  ctl_add : CtlOp
  ctl_mod : CtlOp
  ctl_del : CtlOp

-- A call of epoll_ctl.
pub record CtlCall : Type 0 where
  pub op : CtlOp
  pub target : ℕ
  pub interest : Events

pub record IoManager : Type 0 where
  pub contexts : List FdContext
  pub pending : ℕ
  pub calls : List CtlCall
  pub dispatched : List (ℕ × ScheduleTask)

-- The atomic counter of 64 bits.
abbrev pub increment : ℕ → ℕ
increment n = (n + 1) % 2 ^ 64

-- New contexts for the descriptors from `first` on.
unfoldable pub new_contexts : ℕ → ℕ → List FdContext
new_contexts first zero = []
new_contexts first (suc n) =
    record {
      read = reset_event_context;
      write = reset_event_context;
      fd = first;
      events = no_events;
    }
    ∷ new_contexts (first + 1) n

unfoldable pub context_resize : ℕ → List FdContext → List FdContext
unfolding new_contexts
context_resize size cs = take size cs ++ new_contexts (length cs) (size - length cs)

-- The record of a call of epoll_ctl.
abbrev pub ctl : CtlOp → ℕ → Events → IoManager → IoManager
ctl op fd es m = record m { calls = m.calls ++ record { op = op; target = fd; interest = es } ∷ [] }
