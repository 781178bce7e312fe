-- ===== src/IoManager/Ready.antt =====
-- server/iomanager.cc: `cancelAll` and the events that epoll_wait reports.
use zjh_server.Base.{
  ℕ, ◌+◌, ◌≡◌, refl, sym, ap, ◌∙◌, List, [], ◌∷◌, ◌++◌, arith, if◌then◌else◌, Bool, true, false,
  ◌&&◌, ◌||◌, Option, none, some, get_elem?, set,
}
use mathlib.Core.List.{append_assoc, append-nil}
use zjh_server.Scheduler.{ScheduleTask}
use zjh_server.IoManager.{
  reading, writing, Event, Events, no_events, has, any, EventContext, FdContext, IoManager, ctl,
  ctl_del, trigger_event, get_event_context,
}
use zjh_server.IoManager.Operations.{
  left_op, without, common, real_events, cancel_all, trigger_both, handle_ready, trigger_at,
  then_trigger,
}
use zjh_server.IoManager.Registered.{bit, IsValid, get_elem?-set, set-set, set_same}
use zjh_server.IoManager.Cancelling.{to_run, cleared, trigger_at_lem}

-- Where and what a context that is triggered schedules.
abbrev pub given_to : Option ℕ → ScheduleTask → List (ℕ × ScheduleTask)
given_to none t = []
given_to (some s) t = (s, t) ∷ []

abbrev pub given : Option EventContext → List (ℕ × ScheduleTask)
given none = []
given (some e) = given_to e.scheduler (to_run e.fiber e.cb)

abbrev pub given_if : Bool → Event → FdContext → List (ℕ × ScheduleTask)
given_if wanted ev c = if wanted then given (get_event_context ev c) else []

abbrev pub cleared_if : Bool → Event → FdContext → FdContext
cleared_if wanted ev c = if wanted then cleared ev c else c

-- What triggering an event does, if it is wanted.
pub record Gave (wanted : Bool) (ev : Event) (fd : ℕ) (c : FdContext) (m m' : IoManager)
    : Type 0 where
  pub contexts : m'.contexts ≡ set m.contexts fd (cleared_if wanted ev c)
  pub dispatched : m'.dispatched ≡ m.dispatched ++ given_if wanted ev c
  pub pending : m'.pending + bit wanted ≡ m.pending
  pub calls : m'.calls ≡ m.calls
  pub valid : IsValid m'

then_trigger_lem :
    (wanted : Bool) (ev : Event) (fd : ℕ) (c : FdContext) (m : IoManager)
    → IsValid m
    → get_elem? m.contexts fd ≡ some c
    → (wanted ≡ true → has c.events ev ≡ true)
    → (m' : IoManager) × (then_trigger wanted ev fd (some m) ≡ some m') × Gave wanted ev fd c m m'
then_trigger_lem true ev fd c m v g h =
    let (m', e, t) = trigger_at_lem ev fd c m v g (h refl) in
    (
      m',
      e,
      record {
        contexts = t.contexts;
        dispatched = rw (t.is_context, t.is_scheduler) t.dispatched;
        pending = t.pending;
        calls = t.calls;
        valid = t.valid;
      },
    )
then_trigger_lem false ev fd c m v g h = (
  m,
  refl,
  record {
    contexts = sym (set_same m.contexts fd c g);
    dispatched = sym (append-nil m.dispatched);
    pending = omega arith;
    calls = refl;
    valid = v;
  },
)

-- A context without the events `es`, which are emptied.
abbrev pub emptied : Events → FdContext → FdContext
emptied es c = cleared_if es.writable writing (cleared_if es.readable reading c)

-- What triggering the events `es` of the context `c` does.
pub record GaveBoth (es : Events) (fd : ℕ) (c : FdContext) (m m' : IoManager) : Type 0 where
  pub contexts : m'.contexts ≡ set m.contexts fd (emptied es c)
  pub dispatched :
      m'.dispatched
      ≡ m.dispatched ++ (given_if es.readable reading c ++ given_if es.writable writing c)
  pub pending : m'.pending + (bit es.readable + bit es.writable) ≡ m.pending
  pub calls : m'.calls ≡ m.calls
  pub valid : IsValid m'

has_writing :
    (r : Bool) (c : FdContext) → has (cleared_if r reading c).events writing ≡ c.events.writable
has_writing true c = refl
has_writing false c = refl

given_writing :
    (w r : Bool) (c : FdContext)
    → given_if w writing (cleared_if r reading c) ≡ given_if w writing c
unfolding get_event_context
given_writing w true c = refl
given_writing w false c = refl

pub trigger_both_lem :
    (es : Events) (fd : ℕ) (c : FdContext) (m : IoManager)
    → IsValid m
    → get_elem? m.contexts fd ≡ some c
    → (es.readable ≡ true → c.events.readable ≡ true)
    → (es.writable ≡ true → c.events.writable ≡ true)
    → (m' : IoManager) × (trigger_both es fd m ≡ some m') × GaveBoth es fd c m m'
unfolding trigger_both
trigger_both_lem es fd c m v g hr hw =
    let c1 = cleared_if es.readable reading c in
    let (m1, e1, t1) = then_trigger_lem es.readable reading fd c m v g hr in
    let g1 : get_elem? m1.contexts fd ≡ some c1 =
      rw t1.contexts (get_elem?-set m.contexts fd c c1 g) in
    let (m2, e2, t2) =
      then_trigger_lem es.writable writing fd c1 m1 t1.valid g1
        (λ e. has_writing es.readable c ∙ hw e) in
    (
      m2,
      ap (then_trigger es.writable writing fd) e1 ∙ e2,
      record {
        contexts =
            t2.contexts
            ∙ ap (λ l. set l fd (emptied es c)) t1.contexts
            ∙ set-set m.contexts fd c1 (emptied es c);
        dispatched =
            t2.dispatched
            ∙ ap (λ l. l ++ given_if es.writable writing c1) t1.dispatched
            ∙ append_assoc m.dispatched (given_if es.readable reading c)
                (given_if es.writable writing c1)
            ∙ ap (λ l. m.dispatched ++ (given_if es.readable reading c ++ l))
                (given_writing es.writable es.readable c);
        pending = omega (arith, t1.pending, t2.pending);
        calls = t2.calls ∙ t1.calls;
        valid = t2.valid;
      },
    )

nothing_left :
    (c : FdContext) (r w : Bool)
    → c.events.readable ≡ r
    → c.events.writable ≡ w
    → (emptied c.events c).events ≡ no_events
nothing_left c true true a b = rw (a, b) refl
nothing_left c true false a b = rw (a, b) refl
nothing_left c false true a b = rw (a, b) refl
nothing_left c false false a b = rw (a, b) refl

-- Where epoll_ctl accepts, `cancelAll` of a descriptor with registered events of a valid
-- manager succeeds: it schedules what was registered for reading and then for writing, leaves
-- no event registered, and counts as many less.
pub cancel_all_lem :
    (fd : ℕ) (c : FdContext) (m : IoManager)
    → IsValid m
    → get_elem? m.contexts fd ≡ some c
    → any c.events ≡ true
    → (m' : IoManager) × (cancel_all true fd m ≡ some (m', true))
      × GaveBoth c.events fd c (ctl ctl_del fd no_events m) m'
      × ((emptied c.events c).events ≡ no_events)
unfolding cancel_all
cancel_all_lem fd c m v g a =
    let (m', e, t) =
      trigger_both_lem c.events fd c (ctl ctl_del fd no_events m)
        (record { each = v.each; counted = v.counted }) g (λ x. x) (λ x. x) in
    (m', rw (g, a, e) refl, t, nothing_left c c.events.readable c.events.writable refl refl)

raised_or_registered :
    (raised broken there : Bool)
    → (raised ≡ true → there ≡ true)
    → (raised || (broken && there)) ≡ true
    → there ≡ true
raised_or_registered true broken there h e = h refl
raised_or_registered false true there h e = e
raised_or_registered false false there h e = ground arith

-- For an answer of epoll_wait whose events are registered, at least one of them real, and
-- where epoll_ctl accepts, the idle loop triggers exactly the real events, reading first, and
-- leaves the others registered.
pub handle_ready_lem :
    (broken : Bool) (raised : Events) (fd : ℕ) (c : FdContext) (m : IoManager)
    → IsValid m
    → get_elem? m.contexts fd ≡ some c
    → (raised.readable ≡ true → c.events.readable ≡ true)
    → (raised.writable ≡ true → c.events.writable ≡ true)
    → any (common c.events (real_events broken raised c.events)) ≡ true
    → (m' : IoManager) × (handle_ready true broken raised fd m ≡ some m')
      × GaveBoth
          (real_events broken raised c.events)
          fd
          c
          (ctl
            (left_op (without c.events (real_events broken raised c.events)))
            c.fd
            (without c.events (real_events broken raised c.events))
            m)
          m'
unfolding handle_ready
handle_ready_lem broken raised fd c m v g hr hw a =
    let real = real_events broken raised c.events in
    let left = without c.events real in
    let (m', e, t) =
      trigger_both_lem real fd c (ctl (left_op left) c.fd left m)
        (record { each = v.each; counted = v.counted }) g
        (raised_or_registered raised.readable broken c.events.readable hr)
        (raised_or_registered raised.writable broken c.events.writable hw) in
    (m', rw (g, a, e) refl, t)

-- An answer that still reports reading after that event is no longer registered, together
-- with writing that is, fails the assertion in `triggerEvent`, where epoll_ctl accepts.
pub stale_event_aborts :
    (fd : ℕ) (c : FdContext) (m : IoManager)
    → get_elem? m.contexts fd ≡ some c
    → c.events.readable ≡ false
    → c.events.writable ≡ true
    → handle_ready true false (record { readable = true; writable = true }) fd m ≡ none
unfolding handle_ready trigger_both trigger_at trigger_event
stale_event_aborts fd c m g r w = rw (g, r, w, g, r) refl
