-- ===== src/IoManager/Adding.antt =====
-- server/iomanager.cc: `addEvent`.
use zjh_server.Base.{
  ℕ, zero, suc, ◌+◌, ◌^◌, ◌<◌, ◌≡◌, ◌≢◌, refl, ap, List, [], ◌∷◌, ◌++◌, arith, if◌then◌else◌,
  length, Bool, true, false, Option, none, some, get_elem?, set, lt→ltb,
}
use mathlib.Core.Option.{some-injective}
use mathlib.Core.Path.{subst}
use zjh_server.IoManager.{
  no_event, reading, writing, Event, has, any, EventContext, reset_event_context, FdContext,
  IoManager, ctl_mod, ctl_add, add, put_event_context, increment, get_event_context,
}
use zjh_server.IoManager.Operations.{filled, add_event}
use zjh_server.IoManager.Registered.{
  Matches, IsRegistered, registered, total-set, IsValid, get-IsRegistered, set-AllRegistered,
}

filled-Matches :
    (s me : ℕ) (running : Bool) (cb : Option ℕ) (e : EventContext)
    → filled (some s) cb me running ≡ some e
    → Matches true e
filled-Matches s me running (some f) e h =
    subst (Matches true)
      (some-injective (record { scheduler = some s; fiber = none; cb = some f }) e h)
      ((s, refl), refl)
filled-Matches s me true none e h =
    subst (Matches true)
      (some-injective (record { scheduler = some s; fiber = some me; cb = none }) e h)
      ((s, refl), refl)
filled-Matches s me false none e h = ground arith

abbrev pub registering : Event → EventContext → FdContext → FdContext
registering ev e c = put_event_context ev e (record c { events = add c.events ev })

-- The context of an event that is not registered is unused.
unused_context :
    (ev : Event) (c : FdContext)
    → (ev ≢ no_event)
    → IsRegistered c
    → has c.events ev ≡ false
    → get_event_context ev c ≡ some reset_event_context
unfolding get_event_context
unused_context no_event c n r b = absurd (n refl)
unused_context reading c n r b = ap some (subst (λ (x : Bool). Matches x c.read) b r.for_reading)
unused_context writing c n r b = ap some (subst (λ (x : Bool). Matches x c.write) b r.for_writing)

registering-IsRegistered :
    (ev : Event) (e : EventContext) (c : FdContext)
    → Matches true e
    → IsRegistered c
    → IsRegistered (registering ev e c)
registering-IsRegistered no_event e c h r = r
registering-IsRegistered reading e c h r = record { for_reading = h; for_writing = r.for_writing }
registering-IsRegistered writing e c h r = record { for_reading = r.for_reading; for_writing = h }

registered-registering :
    (ev : Event) (e : EventContext) (c : FdContext)
    → ev ≢ no_event
    → has c.events ev ≡ false
    → registered (registering ev e c) ≡ registered c + 1
registered-registering no_event e c n b = absurd (n refl)
registered-registering reading e c n b = rw b (omega arith)
registered-registering writing e c n b = rw b (omega arith)

pub get_elem?_bound :
    (cs : List FdContext) (i : ℕ) (c : FdContext) → get_elem? cs i ≡ some c → i < length cs
get_elem?_bound [] i c e = ground arith
get_elem?_bound (x ∷ xs) zero c e = omega arith
get_elem?_bound (x ∷ xs) (suc i) c e = omega (arith, get_elem?_bound xs i c e)

-- What `addEvent` does when it succeeds.
pub record Added (ev : Event) (fd : ℕ) (e : EventContext) (c : FdContext) (m m' : IoManager)
    : Type 0 where
  pub contexts : m'.contexts ≡ set m.contexts fd (registering ev e c)
  pub pending : m'.pending ≡ m.pending + 1
  pub dispatched : m'.dispatched ≡ m.dispatched
  pub calls :
      m'.calls
      ≡ m.calls
        ++ record {
          op = if any c.events then ctl_mod else ctl_add;
          target = fd;
          interest = add c.events ev;
        }
          ∷ []
  pub valid : IsValid m'

-- Where epoll_ctl accepts, `addEvent` of an event that is not registered, of a descriptor
-- with a context, called on a scheduler with a callback or from a running fiber, succeeds,
-- records both, counts one more and leaves a valid manager, while the count is below 2^64 -
-- 1.
pub add_event_lem :
    (ev : Event) (fd s me : ℕ) (running : Bool) (cb : Option ℕ) (e : EventContext) (c : FdContext)
    (m : IoManager)
    → IsValid m
    → get_elem? m.contexts fd ≡ some c
    → ev ≢ no_event
    → has c.events ev ≡ false
    → filled (some s) cb me running ≡ some e
    → m.pending + 1 < 2 ^ 64
    → (m' : IoManager) × (add_event true (some s) me running fd ev cb m ≡ some (m', true))
      × Added ev fd e c m m'
unfolding add_event reset_event_context
add_event_lem ev fd s me running cb e c m v g n b f small =
    let r = get-IsRegistered m.contexts fd c v.each g in
    let sums = total-set m.contexts fd c (registering ev e c) g in
    let one = registered-registering ev e c n b in
    (
      record m {
        contexts = set m.contexts fd (registering ev e c);
        pending = increment m.pending;
        calls =
            m.calls
            ++ record {
              op = if any c.events then ctl_mod else ctl_add;
              target = fd;
              interest = add c.events ev;
            }
              ∷ [];
      },
      rw
          (
            lt→ltb fd (length m.contexts) (get_elem?_bound m.contexts fd c g),
            g,
            b,
            unused_context ev c n r b,
            f,
          )
          refl,
      record {
        contexts = refl;
        pending = omega arith;
        dispatched = refl;
        calls = refl;
        valid = record {
          each =
              set-AllRegistered m.contexts fd (registering ev e c) v.each
                (registering-IsRegistered ev e c (filled-Matches s me running cb e f) r);
          counted = omega (arith, v.counted, sums, one);
        };
      },
    )

-- Adding an event that is already registered fails the assertion of `addEvent`, whatever epoll_ctl would answer.
pub add_twice_aborts :
    (accepted : Bool) (ev : Event) (fd me : ℕ) (this : Option ℕ) (running : Bool) (cb : Option ℕ)
    (c : FdContext) (m : IoManager)
    → get_elem? m.contexts fd ≡ some c
    → has c.events ev ≡ true
    → add_event accepted this me running fd ev cb m ≡ none
unfolding add_event
add_twice_aborts accepted ev fd me this running cb c m g b =
    rw (lt→ltb fd (length m.contexts) (get_elem?_bound m.contexts fd c g), g, b) refl
