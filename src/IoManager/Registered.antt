-- ===== src/IoManager/Registered.antt =====
-- server/iomanager.cc: the contexts agree with the registered events, and the count with both.
use zjh_server.Base.{
  ℕ, zero, suc, ◌+◌, ◌≡◌, refl, sym, ap, List, [], ◌∷◌, arith, Bool, true, false, ◌||◌, some,
  get_elem?, set,
}
use mathlib.Core.Option.{some-injective}
use mathlib.Core.Path.{subst}
use zjh_server.Scheduler.{is_some}
use zjh_server.IoManager.{
  no_event, reading, writing, Event, has, remove, EventContext, reset_event_context, FdContext,
  put_event_context, IoManager,
}

-- A registered event has a scheduler and a fiber or callback, any other an empty context.
abbrev pub Matches : Bool → EventContext → Type 0
Matches true e = ((s : ℕ) × (e.scheduler ≡ some s)) × ((is_some e.fiber || is_some e.cb) ≡ true)
Matches false e = e ≡ reset_event_context

pub record IsRegistered (c : FdContext) : Type 0 where
  pub for_reading : Matches c.events.readable c.read
  pub for_writing : Matches c.events.writable c.write

abbrev pub AllRegistered : List FdContext → Type 0
AllRegistered [] = Unit {0}
AllRegistered (c ∷ cs) = IsRegistered c × AllRegistered cs

abbrev pub bit : Bool → ℕ
bit true = 1
bit false = 0

abbrev pub registered : FdContext → ℕ
registered c = bit c.events.readable + bit c.events.writable

abbrev pub total : List FdContext → ℕ
total [] = 0
total (c ∷ cs) = registered c + total cs

pub record IsValid (m : IoManager) : Type 0 where
  pub each : AllRegistered m.contexts
  pub counted : m.pending ≡ total m.contexts

pub get-IsRegistered :
    (cs : List FdContext) (i : ℕ) (c : FdContext)
    → AllRegistered cs
    → get_elem? cs i ≡ some c
    → IsRegistered c
get-IsRegistered [] i c a e = ground arith
get-IsRegistered (x ∷ xs) zero c a e = subst IsRegistered (some-injective x c e) a.0
get-IsRegistered (x ∷ xs) (suc i) c a e = get-IsRegistered xs i c a.1 e

pub set-AllRegistered :
    (cs : List FdContext) (i : ℕ) (c : FdContext)
    → AllRegistered cs
    → IsRegistered c
    → AllRegistered (set cs i c)
set-AllRegistered [] i c a h = tt
set-AllRegistered (x ∷ xs) zero c a h = (h, a.1)
set-AllRegistered (x ∷ xs) (suc i) c a h = (a.0, set-AllRegistered xs i c a.1 h)

pub total-set :
    (cs : List FdContext) (i : ℕ) (c d : FdContext)
    → get_elem? cs i ≡ some c
    → total (set cs i d) + registered c ≡ total cs + registered d
total-set [] i c d e = ground arith
total-set (x ∷ xs) zero c d e = omega (arith, ap registered (some-injective x c e))
total-set (x ∷ xs) (suc i) c d e = omega (arith, total-set xs i c d e)

-- Clearing one event of a context that has it.
pub cleared-IsRegistered :
    (ev : Event) (c : FdContext)
    → IsRegistered c
    → IsRegistered
        (put_event_context ev reset_event_context (record c { events = remove c.events ev }))
cleared-IsRegistered no_event c h = h
cleared-IsRegistered reading c h = record { for_reading = refl; for_writing = h.for_writing }
cleared-IsRegistered writing c h = record { for_reading = h.for_reading; for_writing = refl }

pub registered-cleared :
    (ev : Event) (c : FdContext)
    → has c.events ev ≡ true
    → registered
          (put_event_context ev reset_event_context (record c { events = remove c.events ev }))
        + 1
      ≡ registered c
registered-cleared no_event c e = ground arith
registered-cleared reading c e = rw e (omega arith)
registered-cleared writing c e = rw e (omega arith)

pub get_elem?-set :
    (cs : List FdContext) (i : ℕ) (c d : FdContext)
    → get_elem? cs i ≡ some c
    → get_elem? (set cs i d) i ≡ some d
get_elem?-set [] i c d e = ground arith
get_elem?-set (x ∷ xs) zero c d e = refl
get_elem?-set (x ∷ xs) (suc i) c d e = get_elem?-set xs i c d e

pub set-set : (cs : List FdContext) (i : ℕ) (c d : FdContext) → set (set cs i c) i d ≡ set cs i d
set-set [] i c d = refl
set-set (x ∷ xs) zero c d = refl
set-set (x ∷ xs) (suc i) c d = ap (λ l. x ∷ l) (set-set xs i c d)

pub set_same :
    (cs : List FdContext) (i : ℕ) (c : FdContext) → get_elem? cs i ≡ some c → set cs i c ≡ cs
set_same [] i c e = refl
set_same (x ∷ xs) zero c e = ap (λ y. y ∷ xs) (sym (some-injective x c e))
set_same (x ∷ xs) (suc i) c e = ap (λ l. x ∷ l) (set_same xs i c e)
