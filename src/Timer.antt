-- ===== src/Timer.antt =====
-- server/timer.h and timer.cc. Timer objects live at addresses in a heap, and the set of the
-- manager is the list of addresses in the order of `Timer::Comparator`. The clock
-- (`GetElapsedMS`) is the argument `now`; each operation runs under the manager's lock.
pub mod Order
pub mod Arming
pub mod Invariant
pub mod Due
pub mod Firing
pub mod Expiry
pub mod Examples
use zjh_server.Base.{
  ℕ, ◌+◌, ◌-◌, ◌*◌, ◌^◌, List, [], ◌∷◌, ltb, leb, ◌==◌, if◌then◌else◌, Bool, true, false, not, ◌&&◌,
  ◌||◌, Option, none, some,
}
use zjh_server.Base.Words.{u64, sub64}

-- A callback of the user, or `OnTimer` bound to a weak pointer and a callback.
pub data Callback : Type 0 where
  call : ℕ → Callback
  on_timer : ℕ → ℕ → Callback

-- What a callback runs, when `alive` says which weak pointers can be locked.
unfoldable pub run_callback : (ℕ → Bool) → Callback → List ℕ
run_callback alive (call f) = f ∷ []
run_callback alive (on_timer weak f) = if alive weak then f ∷ [] else []

pub record Timer : Type 0 where
  pub recurring : Bool
  pub ms : ℕ
  pub next : ℕ
  pub cb : Option Callback

abbrev pub Heap : Type 0
Heap = ℕ → Timer

pub record TimerManager : Type 0 where
  pub objects : Heap
  pub timers : List ℕ
  pub tickled : Bool
  pub previous_time : ℕ

abbrev pub put : Heap → ℕ → Timer → Heap
put h a t b = if b == a then t else h b

-- `Timer::Comparator`, null pointers first.
unfoldable pub comparator : Heap → Option ℕ → Option ℕ → Bool
comparator h none none = false
comparator h none (some b) = true
comparator h (some a) none = false
comparator h (some a) (some b) =
    if ltb (h a).next (h b).next then true else if ltb (h b).next (h a).next then false else ltb a b

unfoldable pub less : Heap → ℕ → ℕ → Bool
unfolding comparator
less h a b = comparator h (some a) (some b)

-- `insert`, `find` and `erase` of the `std::set` with that comparator.
unfoldable pub insert : Heap → ℕ → List ℕ → List ℕ
insert h a [] = a ∷ []
insert h a (x ∷ xs) =
    let rest = insert h a xs in
    if less h a x then a ∷ x ∷ xs else if less h x a then x ∷ rest else x ∷ xs

unfoldable pub find : Heap → ℕ → List ℕ → Bool
find h a [] = false
find h a (x ∷ xs) = (not (less h a x) && not (less h x a)) || find h a xs

unfoldable pub erase : Heap → ℕ → List ℕ → List ℕ
erase h a [] = []
erase h a (x ∷ xs) =
    let rest = erase h a xs in if not (less h a x) && not (less h x a) then xs else x ∷ rest

abbrev pub is_some : Option Callback → Bool
is_some none = false
is_some (some c) = true

unfoldable pub new_timer : ℕ → Callback → Bool → ℕ → Timer
new_timer ms cb recurring now = record {
  recurring = recurring;
  ms = ms;
  next = u64 (now + ms);
  cb = some cb;
}

is_first : ℕ → List ℕ → Bool
is_first a [] = false
is_first a (x ∷ xs) = x == a

-- `TimerManager::addTimer(val, lock)`; true if `onTimerInsertedAtFront` is called.
unfoldable pub add_locked : ℕ → TimerManager → TimerManager × Bool
unfolding is_first
add_locked a m =
    let timers' = insert m.objects a m.timers in
    let at_front = is_first a timers' && not m.tickled in
    (record m { timers = timers'; tickled = at_front || m.tickled }, at_front)

-- `addTimer(ms, cb, recurring)`, with the new object at address `a`, for a `cb` that is not empty.
unfoldable pub add_timer : ℕ → ℕ → Callback → Bool → ℕ → TimerManager → TimerManager × Bool
unfolding add_locked new_timer
add_timer a ms cb recurring now m =
    add_locked a (record m { objects = put m.objects a (new_timer ms cb recurring now) })

-- `addConditionTimer`
unfoldable pub add_condition_timer : ℕ → ℕ → ℕ → ℕ → Bool → ℕ → TimerManager → TimerManager × Bool
unfolding add_timer
add_condition_timer a ms cb weak recurring now m = add_timer a ms (on_timer weak cb) recurring now m

unfoldable pub cancel : ℕ → TimerManager → TimerManager × Bool
cancel a m =
    let t = m.objects a in
    let h = put m.objects a (record t { cb = none }) in
    if is_some t.cb
    then (record m { objects = h; timers = erase h a m.timers }, true)
    else (m, false)

unfoldable pub refresh : ℕ → ℕ → TimerManager → TimerManager × Bool
refresh a now m =
    let t = m.objects a in
    let h = put m.objects a (record t { next = u64 (now + t.ms) }) in
    if not (is_some t.cb)
    then (m, false)
    else if not (find m.objects a m.timers)
    then (m, false)
    else (record m { objects = h; timers = insert h a (erase m.objects a m.timers) }, true)

-- The second result is that of the call, the third whether `onTimerInsertedAtFront` is called.
unfoldable pub reset : ℕ → ℕ → Bool → ℕ → TimerManager → TimerManager × Bool × Bool
unfolding add_locked
reset a ms from_now now m =
    let t = m.objects a in
    let start = if from_now then now else sub64 t.next t.ms in
    let h = put m.objects a (record t { ms = ms; next = u64 (start + ms) }) in
    let r = add_locked a (record m { objects = h; timers = erase m.objects a m.timers }) in
    if ms == t.ms && not from_now
    then (m, true, false)
    else if not (is_some t.cb)
    then (m, false, false)
    else if not (find m.objects a m.timers)
    then (m, false, false)
    else (r.0, true, r.1)

unfoldable pub has_timer : TimerManager → Bool
has_timer m = elim m.timers [ [] ↦ false | _ ∷ _ ↦ true ]

-- `~0ull` where there is no timer.
until_first : ℕ → Heap → List ℕ → ℕ
until_first now h [] = 2 ^ 64 - 1
until_first now h (x ∷ xs) = if leb (h x).next now then 0 else sub64 (h x).next now

unfoldable pub get_next_timer : ℕ → TimerManager → TimerManager × ℕ
unfolding until_first
get_next_timer now m = (record m { tickled = false }, until_first now m.objects m.timers)

unfoldable pub detect_clock_rollover : ℕ → TimerManager → TimerManager × Bool
detect_clock_rollover now m = (
  record m { previous_time = now },
  ltb now m.previous_time && ltb now (sub64 m.previous_time (60 * 60 * 1000)),
)

-- `lower_bound` of a new `Timer(now)` at address `probe`, and the loop that passes the timers
-- with `m_next == now`: the part in front of the iterator and the part from it on.
unfoldable pub pass_equal : Heap → ℕ → List ℕ → List ℕ × List ℕ
pass_equal h now [] = ([], [])
pass_equal h now (x ∷ xs) =
    let r = pass_equal h now xs in if (h x).next == now then (x ∷ r.0, r.1) else ([], x ∷ xs)

unfoldable pub split_due : Heap → ℕ → ℕ → List ℕ → List ℕ × List ℕ
unfolding pass_equal
split_due h now probe [] = ([], [])
split_due h now probe (x ∷ xs) =
    let r = split_due h now probe xs in
    let before =
      if ltb (h x).next now then true else if ltb now (h x).next then false else ltb x probe in
    if before then (x ∷ r.0, r.1) else pass_equal h now (x ∷ xs)

-- What the loop over `expired` does to a timer: it is due again, or it loses its callback.
abbrev pub fired : ℕ → Timer → Timer
fired now t = if t.recurring then record t { next = u64 (now + t.ms) } else record t { cb = none }

unfoldable pub fire : ℕ → List ℕ → Heap → List ℕ → Heap × List ℕ × List (Option Callback)
fire now [] h timers = (h, timers, [])
fire now (a ∷ expired) h timers =
    let h' = put h a (fired now (h a)) in
    let r = fire now expired h' (if (h a).recurring then insert h' a timers else timers) in
    (r.0, r.1, (h a).cb ∷ r.2)

-- `listExpiredCb` on a set of timers.
expire_set : ℕ → ℕ → TimerManager → List ℕ → TimerManager × List (Option Callback)
unfolding detect_clock_rollover
expire_set now probe m [] = (m, [])
expire_set now probe m (first ∷ rest) =
    let d = detect_clock_rollover now m in
    let s = if d.1 then (first ∷ rest, []) else split_due m.objects now probe (first ∷ rest) in
    let f = fire now s.0 m.objects s.1 in
    if not d.1 && ltb now (m.objects first).next
    then (d.0, [])
    else (record d.0 { objects = f.0; timers = f.1 }, f.2)

unfoldable pub list_expired : ℕ → ℕ → TimerManager → TimerManager × List (Option Callback)
unfolding expire_set
list_expired now probe m = expire_set now probe m m.timers
