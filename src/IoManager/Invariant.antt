-- ===== src/IoManager/Invariant.antt =====
-- server/iomanager.cc: any sequence of calls and of answers of epoll, from a new manager on.
use zjh_server.Base.{
  ℕ, ◌+◌, ◌^◌, ◌<◌, ◌≡◌, ◌≢◌, refl, sym, inl, inr, [], arith, Bool, true, false, Option, some,
  Option-cases, get_elem?,
}
use zjh_server.IoManager.{
  no_event, Event, Events, has, any, IoManager, context_resize, ctl, remove, no_events, ctl_del,
}
use zjh_server.IoManager.Operations.{
  add_event, del_event, cancel_event, cancel_all, handle_ready, left_op,
}
use zjh_server.IoManager.Registered.{IsValid}
use zjh_server.IoManager.Cancelling.{cancel_event_lem}
use zjh_server.IoManager.Ready.{cancel_all_lem}
use zjh_server.IoManager.Preserving.{
  either, cancel_event-IsValid, cancel_all-IsValid, del_event-IsValid, handle_ready-IsValid,
}
use zjh_server.IoManager.Growing.{context_resize_lem, add_event-IsValid}

-- `IOManager::IOManager`: the contexts it starts with. The pipe that wakes the idle loop is left out.
unfoldable pub new_io_manager : IoManager
unfolding context_resize
new_io_manager = record {
  contexts = context_resize 32 [];
  pending = 0;
  calls = [];
  dispatched = [];
}

-- One call that returns, or one answer of epoll_wait that is handled. Events are added on a
-- scheduler, and the count does not wrap around.
pub data Step (m : IoManager) : IoManager → Type 0 where
  adds :
      {m' : IoManager} (accepted done : Bool) (s me fd : ℕ) (running : Bool) (ev : Event)
      (cb : Option ℕ)
      → ev ≢ no_event
      → m.pending + 1 < 2 ^ 64
      → add_event accepted (some s) me running fd ev cb m ≡ some (m', done)
      → Step m m'
  deletes : (accepted : Bool) (fd : ℕ) (ev : Event) → Step m (del_event accepted fd ev m).0
  cancels :
      {m' : IoManager} (accepted done : Bool) (fd : ℕ) (ev : Event)
      → cancel_event accepted fd ev m ≡ some (m', done)
      → Step m m'
  cancels_all :
      {m' : IoManager} (accepted done : Bool) (fd : ℕ)
      → cancel_all accepted fd m ≡ some (m', done)
      → Step m m'
  handles :
      {m' : IoManager} (accepted broken : Bool) (raised : Events) (fd : ℕ)
      → handle_ready accepted broken raised fd m ≡ some m'
      → Step m m'

pub data Reach (m : IoManager) : IoManager → Type 0 where
  here : Reach m m
  then_step : {a b : IoManager} → Reach m a → Step a b → Reach m b

Step-IsValid : {m m' : IoManager} → Step m m' → IsValid m → IsValid m'
Step-IsValid {m} {m'} (adds accepted done s me fd running ev cb n small e) v =
    add_event-IsValid accepted s me fd running ev cb m (m', done) v n small e
Step-IsValid {m} (deletes accepted fd ev) v = del_event-IsValid accepted fd ev m v
Step-IsValid {m} {m'} (cancels accepted done fd ev e) v =
    cancel_event-IsValid accepted fd ev m (m', done) v e
Step-IsValid {m} {m'} (cancels_all accepted done fd e) v =
    cancel_all-IsValid accepted fd m (m', done) v e
Step-IsValid {m} {m'} (handles accepted broken raised fd e) v =
    handle_ready-IsValid accepted broken raised fd m m' v e

Reach-IsValid : {m m' : IoManager} → IsValid m → Reach m m' → IsValid m'
Reach-IsValid v here = v
Reach-IsValid v (then_step r s) = Step-IsValid s (Reach-IsValid v r)

new_io_manager-IsValid : IsValid new_io_manager
unfolding new_io_manager
new_io_manager-IsValid =
    let (a, t) = context_resize_lem 32 [] (omega arith) tt in record { each = a; counted = sym t }

-- `cancelEvent` of a valid manager returns.
cancel_event_returns :
    (accepted : Bool) (fd : ℕ) (ev : Event) (m : IoManager)
    → IsValid m
    → (r : IoManager × Bool) × (cancel_event accepted fd ev m ≡ some r)
unfolding cancel_event
cancel_event_returns accepted fd ev m v = elim (Option-cases (get_elem? m.contexts fd)) [
  | inl g ↦ ((m, false), rw g refl)
  | inr (c, g) ↦ elim (either (has c.events ev)) [
    | inl b ↦ elim (either accepted) [
      | inl a ↦ let (m', e, t) = cancel_event_lem ev fd c m v g b in ((m', true), rw a e)
      | inr a ↦
          ((ctl (left_op (remove c.events ev)) fd (remove c.events ev) m, false), rw (g, b, a) refl)
    ]
    | inr b ↦ ((m, false), rw (g, b) refl)
  ]
]

cancel_all_returns :
    (accepted : Bool) (fd : ℕ) (m : IoManager)
    → IsValid m
    → (r : IoManager × Bool) × (cancel_all accepted fd m ≡ some r)
unfolding cancel_all
cancel_all_returns accepted fd m v = elim (Option-cases (get_elem? m.contexts fd)) [
  | inl g ↦ ((m, false), rw g refl)
  | inr (c, g) ↦ elim (either (any c.events)) [
    | inl b ↦ elim (either accepted) [
      | inl a ↦ let (m', e, t, x) = cancel_all_lem fd c m v g b in ((m', true), rw a e)
      | inr a ↦ ((ctl ctl_del fd no_events m, false), rw (g, b, a) refl)
    ]
    | inr b ↦ ((m, false), rw (g, b) refl)
  ]
]

-- In whatever state a new manager comes to, by adding, deleting and cancelling events and
-- handling answers of epoll_wait, in any order, with any answers of epoll_ctl, as long as
-- only events other than NONE are added, on a scheduler, no call fails an assertion and the
-- count stays below 2^64, each registered event has a scheduler and a fiber or callback,
-- every other context is empty, and the count is the number of registered events. No
-- cancelling fails an assertion there.
pub reachable_manager_lem :
    (m : IoManager) (accepted : Bool) (fd : ℕ) (ev : Event)
    → Reach new_io_manager m
    → IsValid m
      × ((r : IoManager × Bool) × (cancel_event accepted fd ev m ≡ some r))
      × ((r : IoManager × Bool) × (cancel_all accepted fd m ≡ some r))
reachable_manager_lem m accepted fd ev r =
    let v = Reach-IsValid new_io_manager-IsValid r in
    (v, cancel_event_returns accepted fd ev m v, cancel_all_returns accepted fd m v)
