-- ===== src/IoManager/Cancelling.antt =====
-- server/iomanager.cc: triggering, cancelling and deleting events.
use zjh_server.Base.{
  ℕ, ◌+◌, ◌<◌, ◌≡◌, refl, ap, inl, inr, [], ◌∷◌, ◌++◌, arith, Bool, true, false, Option, none, some,
  Option-cases, get_elem?, set,
}
use mathlib.Core.Path.{subst}
use zjh_server.Scheduler.{ScheduleTask, cb_task, fiber_task, decrement}
use zjh_server.Scheduler.Queue.{decrement_lem}
use zjh_server.IoManager.{
  no_event, reading, writing, Event, has, remove, EventContext, reset_event_context, FdContext,
  get_event_context, put_event_context, task_of, trigger_event, IoManager, ctl,
}
use zjh_server.IoManager.Operations.{del_event, cancel_event, trigger_at, left_op}
use zjh_server.IoManager.Registered.{
  Matches, IsRegistered, IsValid, get-IsRegistered, set-AllRegistered, total-set,
  cleared-IsRegistered, registered-cleared,
}

-- What a registration is to run: the callback, or without one the fiber.
abbrev pub to_run : Option ℕ → Option ℕ → ScheduleTask
to_run fiber (some f) = cb_task (some f) none
to_run fiber none = fiber_task fiber none

task_of_lem : (e : EventContext) → task_of e ≡ to_run e.fiber e.cb
task_of_lem e = elim (Option-cases e.cb) [ inl h ↦ rw h refl | inr (f, h) ↦ rw h refl ]

abbrev pub cleared : Event → FdContext → FdContext
cleared ev c = put_event_context ev reset_event_context (record c { events = remove c.events ev })

-- The context of a registered event names a scheduler.
scheduler_of :
    (ev : Event) (c : FdContext)
    → IsRegistered c
    → has c.events ev ≡ true
    → (e : EventContext) × (s : ℕ) × (get_event_context ev c ≡ some e) × (e.scheduler ≡ some s)
unfolding get_event_context
scheduler_of no_event c h b = ground arith
scheduler_of reading c h b =
    let m : Matches true c.read = subst (λ (x : Bool). Matches x c.read) b h.for_reading in
    (c.read, m.0.0, refl, m.0.1)
scheduler_of writing c h b =
    let m : Matches true c.write = subst (λ (x : Bool). Matches x c.write) b h.for_writing in
    (c.write, m.0.0, refl, m.0.1)

trigger_event_lem :
    (ev : Event) (c : FdContext) (e : EventContext) (s : ℕ)
    → has c.events ev ≡ true
    → get_event_context ev c ≡ some e
    → e.scheduler ≡ some s
    → trigger_event ev c ≡ some (cleared ev c, (s, task_of e))
unfolding trigger_event
trigger_event_lem ev c e s b g h = rw (b, g, h) refl

-- What triggering the event `ev` of the context `c` of `fd` does.
pub record Triggered (ev : Event) (fd : ℕ) (c : FdContext) (m m' : IoManager) : Type 0 where
  pub context : EventContext
  pub to : ℕ
  pub is_context : get_event_context ev c ≡ some context
  pub is_scheduler : context.scheduler ≡ some to
  pub contexts : m'.contexts ≡ set m.contexts fd (cleared ev c)
  pub dispatched : m'.dispatched ≡ m.dispatched ++ (to, to_run context.fiber context.cb) ∷ []
  pub pending : m'.pending + 1 ≡ m.pending
  pub calls : m'.calls ≡ m.calls
  pub valid : IsValid m'

pub trigger_at_lem :
    (ev : Event) (fd : ℕ) (c : FdContext) (m : IoManager)
    → IsValid m
    → get_elem? m.contexts fd ≡ some c
    → has c.events ev ≡ true
    → (m' : IoManager) × (trigger_at ev fd m ≡ some m') × Triggered ev fd c m m'
unfolding trigger_at
trigger_at_lem ev fd c m v g b =
    let r = get-IsRegistered m.contexts fd c v.each g in
    let (e, s, is_e, is_s) = scheduler_of ev c r b in
    let sums = total-set m.contexts fd c (cleared ev c) g in
    let one = registered-cleared ev c b in
    let p : 0 < m.pending = omega (arith, v.counted, sums, one) in
    let down = decrement_lem m.pending p in
    (
      record m {
        contexts = set m.contexts fd (cleared ev c);
        dispatched = m.dispatched ++ (s, task_of e) ∷ [];
        pending = decrement m.pending;
      },
      rw (g, trigger_event_lem ev c e s b is_e is_s) refl,
      record {
        context = e;
        to = s;
        is_context = is_e;
        is_scheduler = is_s;
        contexts = refl;
        dispatched = ap (λ t. m.dispatched ++ (s, t) ∷ []) (task_of_lem e);
        pending = omega (arith, down, p);
        calls = refl;
        valid = record {
          each =
              set-AllRegistered m.contexts fd (cleared ev c) v.each (cleared-IsRegistered ev c r);
          counted = omega (arith, down, v.counted, sums, one, p);
        };
      },
    )

-- Where epoll_ctl accepts, `cancelEvent` of a registered event of a valid manager succeeds:
-- it schedules exactly what was registered for the event, the callback or without one the
-- fiber, on the scheduler it was registered with, clears the event, counts one less, and
-- leaves a valid manager.
pub cancel_event_lem :
    (ev : Event) (fd : ℕ) (c : FdContext) (m : IoManager)
    → IsValid m
    → get_elem? m.contexts fd ≡ some c
    → has c.events ev ≡ true
    → (m' : IoManager) × (cancel_event true fd ev m ≡ some (m', true))
      × Triggered ev fd c (ctl (left_op (remove c.events ev)) fd (remove c.events ev) m) m'
unfolding cancel_event
cancel_event_lem ev fd c m v g b =
    let m1 = ctl (left_op (remove c.events ev)) fd (remove c.events ev) m in
    let (m', e, t) =
      trigger_at_lem ev fd c m1 (record { each = v.each; counted = v.counted }) g b in
    (m', rw (g, b, e) refl, t)

-- Where epoll_ctl accepts, `delEvent` of a registered event of a valid manager succeeds and
-- clears it without scheduling anything, counts one less, and leaves a valid manager.
pub del_event_lem :
    (ev : Event) (fd : ℕ) (c : FdContext) (m : IoManager)
    → IsValid m
    → get_elem? m.contexts fd ≡ some c
    → has c.events ev ≡ true
    → ((del_event true fd ev m).1 ≡ true)
      × ((del_event true fd ev m).0.contexts ≡ set m.contexts fd (cleared ev c))
      × ((del_event true fd ev m).0.dispatched ≡ m.dispatched)
      × ((del_event true fd ev m).0.pending + 1 ≡ m.pending)
      × IsValid (del_event true fd ev m).0
unfolding del_event
del_event_lem ev fd c m v g b =
    let r = get-IsRegistered m.contexts fd c v.each g in
    let sums = total-set m.contexts fd c (cleared ev c) g in
    let one = registered-cleared ev c b in
    let p : 0 < m.pending = omega (arith, v.counted, sums, one) in
    let down = decrement_lem m.pending p in
    rw (g, b)
      (
        refl,
        refl,
        refl,
        omega (arith, down, p),
        record {
          each =
              set-AllRegistered m.contexts fd (cleared ev c) v.each (cleared-IsRegistered ev c r);
          counted = omega (arith, down, v.counted, sums, one, p);
        },
      )

-- Cancelling or deleting an event that is not registered, or of a descriptor without a context,
-- fails and changes nothing.
pub not_registered :
    (accepted : Bool) (ev : Event) (fd : ℕ) (m : IoManager)
    → ((c : FdContext) → get_elem? m.contexts fd ≡ some c → has c.events ev ≡ false)
    → (cancel_event accepted fd ev m ≡ some (m, false)) × (del_event accepted fd ev m ≡ (m, false))
unfolding cancel_event del_event
not_registered accepted ev fd m h = elim (Option-cases (get_elem? m.contexts fd)) [
  | inl e ↦ rw e (refl, refl)
  | inr (c, e) ↦ rw (e, h c e) (refl, refl)
]
