-- ===== src/Timer/Expiry.antt =====
-- server/timer.cc: `listExpiredCb` on the whole set.
use mathlib.Core.List.{append-nil}
use zjh_server.Base.{
  ◌⊎◌, inl, inr, ℕ, ◌+◌, ◌^◌, ◌<◌, ◌≡◌, refl, sym, ap, ◌∙◌, inl, inr, List, [], ◌∷◌, ◌++◌, map,
  arith, ltb, leb, ◌==◌, if◌then◌else◌, true, false, ◌&&◌, ◌||◌, Option, Bool-cases, ltb→lt, ==_iff,
}
use zjh_server.Base.Words.{sub64}
use zjh_server.Timer.{
  Heap, Callback, TimerManager, fired, fire, detect_clock_rollover, expire_set, list_expired,
}
use zjh_server.Timer.Order.{contains, Above, Sorted, Above-contains}
use zjh_server.Timer.Arming.{IsValid}
use zjh_server.Timer.Due.{AllDue, NoneDue, Above-NoneDue, split_due-Cut}
use zjh_server.Timer.Firing.{Fired, fire-Fired}

contains-append :
    (b : ℕ) (xs ys : List ℕ) → contains b (xs ++ ys) ≡ (contains b xs || contains b ys)
contains-append b [] ys = refl
contains-append b (x ∷ xs) ys = ground (arith, contains-append b xs ys)

Above-append :
    (h : Heap) (x : ℕ) (xs ys : List ℕ) → Above h x (xs ++ ys) → Above h x xs × Above h x ys
Above-append h x [] ys s = (tt, s)
Above-append h x (y ∷ xs) ys s = let rest = Above-append h x xs ys s.1 in ((s.0, rest.0), rest.1)

Sorted-append :
    (h : Heap) (xs ys : List ℕ)
    → Sorted h (xs ++ ys)
    → Sorted h xs × Sorted h ys × ((b : ℕ) → (contains b xs && contains b ys) ≡ false)
Sorted-append h [] ys s = (tt, s, λ b. refl)
Sorted-append h (x ∷ xs) ys s =
    let head = Above-append h x xs ys s.0 in
    let rest = Sorted-append h xs ys s.1 in
    (
      (head.0, rest.0),
      rest.1,
      λ b. ground (arith, rest.2 b, Above-contains h x ys head.1, apart_head h x b ys head.1),
    )
  where
    apart_head :
        (h : Heap) (x b : ℕ) (ys : List ℕ) → Above h x ys → (x == b) ≡ true → contains b ys ≡ false
    apart_head h x b ys s e =
        let same : x ≡ b = (==_iff x b).0 e in rw (← same) (Above-contains h x ys s)

-- What `listExpiredCb` promises: it fires a prefix `e` of the set in its order.
pub record Expires (now : ℕ) (m : TimerManager) (r : TimerManager × List (Option Callback))
    : Type 0 where
  pub e : List ℕ
  pub kept : List ℕ
  pub parts : e ++ kept ≡ m.timers
  pub cbs : r.1 ≡ map (λ a. (m.objects a).cb) e
  pub objects :
      (a : ℕ) → (r.0).objects a ≡ (if contains a e then fired now (m.objects a) else m.objects a)
  pub due :
      (((detect_clock_rollover now m).1 ≡ false)
        × AllDue m.objects now e
        × NoneDue m.objects now kept)
      ⊎ (((detect_clock_rollover now m).1 ≡ true) × (kept ≡ []))
  pub valid : IsValid r.0

either_due :
    (now : ℕ) (m : TimerManager) (e kept : List ℕ)
    → ((detect_clock_rollover now m).1 ≡ false
        → AllDue m.objects now e × NoneDue m.objects now kept)
    → ((detect_clock_rollover now m).1 ≡ true → kept ≡ [])
    → (((detect_clock_rollover now m).1 ≡ false)
        × AllDue m.objects now e
        × NoneDue m.objects now kept)
      ⊎ (((detect_clock_rollover now m).1 ≡ true) × (kept ≡ []))
either_due now m e kept on_time all = elim (Bool-cases (detect_clock_rollover now m).1) [
  | inl r ↦ inr (r, all r)
  | inr r ↦ inl (r, (on_time r).0, (on_time r).1)
]

expire_parts :
    (now : ℕ) (m : TimerManager) (e kept : List ℕ)
    → IsValid m
    → e ++ kept ≡ m.timers
    → ((detect_clock_rollover now m).1 ≡ false
        → AllDue m.objects now e × NoneDue m.objects now kept)
    → ((detect_clock_rollover now m).1 ≡ true → kept ≡ [])
    → let f = fire now e m.objects kept in
      Expires now m (record m { previous_time = now; objects = f.0; timers = f.1 }, f.2)
expire_parts now m e kept v parts on_time all =
    let s = Sorted-append m.objects e kept (rw parts v.sorted) in
    let f : Fired now m.objects e kept (fire now e m.objects kept) =
      fire-Fired now e m.objects kept (record {
        sorted_expired = s.0;
        sorted_timers = s.1;
        apart = s.2;
        armed = λ b. sym (contains-append b e kept) ∙ (ap (λ t. contains b t) parts ∙ v.armed b);
      }) in
    record {
      e = e;
      kept = kept;
      parts = parts;
      cbs = f.cbs;
      objects = f.objects;
      due = either_due now m e kept on_time all;
      valid = record { sorted = f.sorted; armed = f.armed };
    }

expire_none :
    (now : ℕ) (m a : TimerManager)
    → IsValid m
    → a.objects ≡ m.objects
    → a.timers ≡ m.timers
    → ((detect_clock_rollover now m).1 ≡ false → NoneDue m.objects now m.timers)
    → ((detect_clock_rollover now m).1 ≡ true → m.timers ≡ [])
    → IsValid a
    → Expires now m (a, [])
expire_none now m a v same_objects same_timers none_due all valid = record {
  e = [];
  kept = m.timers;
  parts = refl;
  cbs = refl;
  objects = λ b. ap (λ (h : Heap). h b) same_objects;
  due = either_due now m [] m.timers (λ r. (tt, none_due r)) all;
  valid = valid;
}

expire_set-Expires :
    (now probe : ℕ) (m : TimerManager) (ts : List ℕ)
    → IsValid m
    → m.timers ≡ ts
    → Expires now m (expire_set now probe m ts)
unfolding expire_set
expire_set-Expires now probe m [] v e = expire_none now m m v refl refl (λ _. rw e tt) (λ _. e) v
expire_set-Expires now probe m (first ∷ rest) v e =
    let sorted : Sorted m.objects (first ∷ rest) = rw e at v.sorted in
    elim (Bool-cases (detect_clock_rollover now m).1) [
      | inl r ↦ rw r (
          expire_parts now m (first ∷ rest) [] v (append-nil (first ∷ rest) ∙ sym e) (λ n. cc)
            (λ _. refl))
      | inr r ↦
          let cut = split_due-Cut m.objects now probe (first ∷ rest) sorted in
          elim (Bool-cases (ltb now (m.objects first).next)) [
            | inl late ↦
                let after = ltb→lt now (m.objects first).next late in
                rw (r, late)
                  (expire_none now m (record m { previous_time = now }) v refl refl
                    (λ _. rw e (after, Above-NoneDue m.objects now first rest sorted.0 after))
                    (λ n. cc) (record { sorted = v.sorted; armed = v.armed }))
            | inr due ↦
                rw (r, due)
                  (expire_parts now m _ _ v (cut.0 ∙ sym e) (λ _. (cut.1, cut.2)) (λ n. cc))
          ]
    ]

-- On a valid manager `listExpiredCb` hands out, in the order of the set, the callbacks of a
-- prefix of the timers: exactly those due if no rollover is detected, else all. Recurring
-- ones are due again, the others are disarmed, and the manager stays valid.
pub list_expired_lem :
    (now probe : ℕ) (m : TimerManager) → IsValid m → Expires now m (list_expired now probe m)
unfolding list_expired
list_expired_lem now probe m v = expire_set-Expires now probe m m.timers v refl

-- With times below 2^64 `detectClockRollover` says whether the clock has gone back by more than
-- an hour, once the last time is an hour or more; before that, whether it has gone back at all.
pub detect_clock_rollover_lem :
    (now : ℕ) (m : TimerManager)
    → now < 2 ^ 64
    → m.previous_time < 2 ^ 64
    → (detect_clock_rollover now m).1 ≡ (
        if leb 3600000 m.previous_time
        then ltb (now + 3600000) m.previous_time
        else ltb now m.previous_time)
unfolding detect_clock_rollover sub64
detect_clock_rollover_lem now m h k = ground arith
