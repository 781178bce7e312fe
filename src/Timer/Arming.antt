-- ===== src/Timer/Arming.antt =====
-- server/timer.cc: `addTimer`, `cancel`, `refresh`, `reset` and `getNextTimer` on a valid manager.
use zjh_server.Base.{
  ℕ, ◌+◌, ◌-◌, ◌^◌, ◌≤◌, ◌<◌, ◌≡◌, refl, ◌∙◌, ◌⊎◌, inl, inr, List, [], ◌∷◌, arith, ◌==◌,
  if◌then◌else◌, Bool, true, false, not, ◌&&◌, ◌||◌, none, Bool-cases,
}
use zjh_server.Base.Words.{u64, sub64, sub64_lem}
use zjh_server.Timer.{
  Heap, Timer, Callback, TimerManager, put, is_some, find, erase, new_timer, add_locked, add_timer,
  cancel, refresh, reset, get_next_timer, until_first,
}
use zjh_server.Timer.Order.{
  contains, Above, Sorted, insert-Sorted, contains-insert, find-eq-contains, erase-Sorted,
  contains-erase, Sorted-put, Sorted-put_same, less-le,
}

-- The set is in the order of the deadlines, without repetition, and holds exactly the timers
-- that still have a callback.
pub record IsValid (m : TimerManager) : Type 0 where
  pub sorted : Sorted m.objects m.timers
  pub armed : (a : ℕ) → contains a m.timers ≡ is_some (m.objects a).cb

add_locked-IsValid :
    (a : ℕ) (m : TimerManager)
    → Sorted m.objects m.timers
    → ((b : ℕ) → ((a == b) || contains b m.timers) ≡ is_some (m.objects b).cb)
    → IsValid (add_locked a m).0
unfolding add_locked
add_locked-IsValid a m s armed = record {
  sorted = insert-Sorted m.objects a m.timers s;
  armed = λ b. contains-insert m.objects a b m.timers ∙ armed b;
}

pub add_timer-IsValid :
    (a ms : ℕ) (cb : Callback) (recurring : Bool) (now : ℕ) (m : TimerManager)
    → IsValid m
    → is_some (m.objects a).cb ≡ false
    → IsValid (add_timer a ms cb recurring now m).0
unfolding add_timer
add_timer-IsValid a ms cb recurring now m v fresh =
    add_locked-IsValid a (record m { objects = put m.objects a (new_timer ms cb recurring now) })
      (Sorted-put m.objects a (new_timer ms cb recurring now) m.timers (v.armed a ∙ fresh) v.sorted)
      (λ b. unfold new_timer in ground (arith, v.armed b))

pub cancel-IsValid : (a : ℕ) (m : TimerManager) → IsValid m → IsValid (cancel a m).0
unfolding cancel
cancel-IsValid a m v = elim (Bool-cases (is_some (m.objects a).cb)) [
  | inl e ↦ rw e (record {
    sorted = erase-Sorted h a m.timers sorted;
    armed = λ b. ground (arith, contains-erase h a b m.timers sorted, v.armed b);
  })
  | inr e ↦ rw e v
]
  where
    h : Heap
    h = put m.objects a (record (m.objects a) { cb = none })

    sorted : Sorted h m.timers
    sorted = Sorted-put_same m.objects a _ m.timers refl v.sorted

-- On a valid manager `cancel` succeeds exactly on an armed timer; then it has no callback and
-- is not in the set, and a second `cancel` fails.
pub cancel_lem :
    (a : ℕ) (m : TimerManager)
    → IsValid m
    → let r = cancel a m in
      (r.1 ≡ is_some (m.objects a).cb)
      × (is_some (r.0.objects a).cb ≡ false)
      × (contains a r.0.timers ≡ false)
      × ((cancel a r.0).1 ≡ false)
cancel_lem a m v = (returned, disarmed, (cancel-IsValid a m v).armed a ∙ disarmed, again)
  where
    returned : (cancel a m).1 ≡ is_some (m.objects a).cb
    returned = unfold cancel in ground arith

    disarmed : is_some ((cancel a m).0.objects a).cb ≡ false
    disarmed = unfold cancel in ground arith

    again : (cancel a (cancel a m).0).1 ≡ false
    again = unfold cancel in ground arith

-- A timer taken out, given another deadline and put back.
requeue :
    (a : ℕ) (t : Timer) (m : TimerManager)
    → IsValid m
    → is_some (m.objects a).cb ≡ true
    → t.cb ≡ (m.objects a).cb
    → Sorted (put m.objects a t) (erase m.objects a m.timers)
      × ((b : ℕ)
          → ((a == b) || contains b (erase m.objects a m.timers))
            ≡ is_some (put m.objects a t b).cb)
requeue a t m v e same = (
  Sorted-put m.objects a t (erase m.objects a m.timers)
      (ground (arith, contains-erase m.objects a a m.timers v.sorted))
      (erase-Sorted m.objects a m.timers v.sorted),
  λ b. ground (arith, contains-erase m.objects a b m.timers v.sorted, v.armed b),
)

pub refresh-IsValid : (a now : ℕ) (m : TimerManager) → IsValid m → IsValid (refresh a now m).0
unfolding refresh
refresh-IsValid a now m v = elim (Bool-cases (is_some (m.objects a).cb)) [
  | inl e ↦
      let held : find m.objects a m.timers ≡ true =
        find-eq-contains m.objects a m.timers ∙ (v.armed a ∙ e) in
      let t : Timer = record (m.objects a) { next = u64 (now + (m.objects a).ms) } in
      let q = requeue a t m v e refl in
      rw (e, held)
        (record {
          sorted = insert-Sorted (put m.objects a t) a (erase m.objects a m.timers) q.0;
          armed = λ b. contains-insert (put m.objects a t) a b (erase m.objects a m.timers) ∙ q.1 b;
        })
  | inr e ↦ rw e v
]

pub reset-IsValid :
    (a ms : ℕ) (from_now : Bool) (now : ℕ) (m : TimerManager)
    → IsValid m
    → IsValid (reset a ms from_now now m).0
unfolding reset
reset-IsValid a ms from_now now m v = elim (Bool-cases (ms == (m.objects a).ms && not from_now)) [
  | inl e ↦ rw e v
  | inr e ↦ elim (Bool-cases (is_some (m.objects a).cb)) [
    | inl q ↦
        let held : find m.objects a m.timers ≡ true =
          find-eq-contains m.objects a m.timers ∙ (v.armed a ∙ q) in
        let r = requeue a t m v q refl in
        rw (e, q, held)
          (add_locked-IsValid a
            (record m { objects = put m.objects a t; timers = erase m.objects a m.timers }) r.0 r.1)
    | inr q ↦ rw (e, q) v
  ]
]
  where
    t : Timer
    t = record (m.objects a) {
      ms = ms;
      next = u64 ((if from_now then now else sub64 (m.objects a).next (m.objects a).ms) + ms);
    }

-- On a valid manager `reset` of an armed timer with another period or from now succeeds and puts
-- the deadline `ms` after now, or after the start of the period.
pub reset_deadline :
    (a ms : ℕ) (from_now : Bool) (now : ℕ) (m : TimerManager)
    → IsValid m
    → is_some (m.objects a).cb ≡ true
    → (ms == (m.objects a).ms && not from_now) ≡ false
    → let r = reset a ms from_now now m in
      let start = if from_now then now else sub64 (m.objects a).next (m.objects a).ms in
      (r.1 ≡ true)
      × ((r.0.objects a).next ≡ u64 (start + ms))
      × ((r.0.objects a).ms ≡ ms)
      × (contains a r.0.timers ≡ true)
unfolding reset add_locked
reset_deadline a ms from_now now m v q e =
    let held : find m.objects a m.timers ≡ true =
      find-eq-contains m.objects a m.timers ∙ (v.armed a ∙ q) in
    (
      ground arith,
      ground arith,
      ground arith,
      ground (arith, contains-insert (put m.objects a t) a a (erase m.objects a m.timers)),
    )
  where
    t : Timer
    t = record (m.objects a) {
      ms = ms;
      next = u64 ((if from_now then now else sub64 (m.objects a).next (m.objects a).ms) + ms);
    }

Above-le :
    (h : Heap) (x a : ℕ) (xs : List ℕ)
    → Above h x xs
    → contains a xs ≡ true
    → (h x).next ≤ (h a).next
Above-le h x a [] s c = cc
Above-le h x a (y ∷ ys) s c = ground (arith, Above-le h x a ys s.1, less-le h x y s.0)

-- The time to the earliest deadline of the set, or `~0ull` if there is none.
abbrev pub NextIn : ℕ → Heap → List ℕ → ℕ → Type 0
NextIn now h ts r =
    ((ts ≡ []) × (r ≡ 2 ^ 64 - 1))
    ⊎ ((first : ℕ) × (contains first ts ≡ true)
        × (r ≡ (h first).next - now)
        × ((a : ℕ) → contains a ts ≡ true → (h first).next ≤ (h a).next))

until_first-NextIn :
    (now : ℕ) (h : Heap) (ts : List ℕ)
    → Sorted h ts
    → ((a : ℕ) → (h a).next < 2 ^ 64)
    → NextIn now h ts (until_first now h ts)
unfolding until_first
until_first-NextIn now h [] s small = inl (refl, refl)
until_first-NextIn now h (x ∷ xs) s small = inr (
  x,
  ground arith,
  ground (arith, small x, sub64_lem (h x).next now),
  λ a c. ground (arith, Above-le h x a xs s.0),
)

-- `getNextTimer` is the time to the earliest deadline, 0 if that is over, and the largest number
-- if there is no timer; it only clears m_tickled.
pub get_next_timer_lem :
    (now : ℕ) (m : TimerManager)
    → IsValid m
    → ((a : ℕ) → (m.objects a).next < 2 ^ 64)
    → let r = get_next_timer now m in
      NextIn now m.objects m.timers r.1 × (r.0 ≡ record m { tickled = false })
unfolding get_next_timer
get_next_timer_lem now m v small = (until_first-NextIn now m.objects m.timers v.sorted small, refl)
