-- ===== src/Timer/Due.antt =====
-- server/timer.cc: the iterator of `listExpiredCb`, between the timers that are due and the rest.
use zjh_server.Base.{
  ℕ, ◌≤◌, ◌<◌, ◌≡◌, refl, ap, inl, inr, List, [], ◌∷◌, ◌++◌, arith, ltb, ◌==◌, if◌then◌else◌, Bool,
  true, false, Bool-cases,
}
use zjh_server.Timer.{Heap, pass_equal, split_due}
use zjh_server.Timer.Order.{contains, Above, Sorted, less-le}

abbrev pub AllDue : Heap → ℕ → List ℕ → Type 0
AllDue h now [] = Unit {0}
AllDue h now (x ∷ xs) = ((h x).next ≤ now) × AllDue h now xs

abbrev pub NoneDue : Heap → ℕ → List ℕ → Type 0
NoneDue h now [] = Unit {0}
NoneDue h now (x ∷ xs) = (now < (h x).next) × NoneDue h now xs

pub Above-NoneDue :
    (h : Heap) (now x : ℕ) (xs : List ℕ) → Above h x xs → now < (h x).next → NoneDue h now xs
Above-NoneDue h now x [] s p = tt
Above-NoneDue h now x (y ∷ ys) s p =
    (omega (arith, less-le h x y s.0), Above-NoneDue h now x ys s.1 p)

-- A list cut into the timers that are due and those that are not.
abbrev pub Cut : Heap → ℕ → List ℕ → List ℕ × List ℕ → Type 0
Cut h now ts r = (r.0 ++ r.1 ≡ ts) × AllDue h now r.0 × NoneDue h now r.1

pass_equal-Cut :
    (h : Heap) (now : ℕ) (ts : List ℕ)
    → Sorted h ts
    → ((x : ℕ) → contains x ts ≡ true → now ≤ (h x).next)
    → Cut h now ts (pass_equal h now ts)
unfolding pass_equal
pass_equal-Cut h now [] s late = (refl, tt, tt)
pass_equal-Cut h now (x ∷ xs) s late =
    let rest = pass_equal-Cut h now xs s.1 (λ y c. late y (ground arith)) in
    elim (Bool-cases ((h x).next == now)) [
      | inl e ↦ rw e (ap (λ t. x ∷ t) rest.0, (ground arith, rest.1), rest.2)
      | inr e ↦
          let after : now < (h x).next = ground (arith, late x) in
          rw e (refl, tt, (after, Above-NoneDue h now x xs s.0 after))
    ]

Above-contains-le :
    (h : Heap) (x y : ℕ) (xs : List ℕ)
    → Above h x xs
    → contains y xs ≡ true
    → (h x).next ≤ (h y).next
Above-contains-le h x y [] s c = cc
Above-contains-le h x y (z ∷ zs) s c =
    ground (arith, Above-contains-le h x y zs s.1, less-le h x z s.0)

-- Wherever the probe lies in memory, the iterator stops behind the last timer that is due.
pub split_due-Cut :
    (h : Heap) (now probe : ℕ) (ts : List ℕ) → Sorted h ts → Cut h now ts (split_due h now probe ts)
unfolding split_due
split_due-Cut h now probe [] s = (refl, tt, tt)
split_due-Cut h now probe (x ∷ xs) s = elim (Bool-cases before) [
  | inl e ↦
      let rest = split_due-Cut h now probe xs s.1 in
      rw e (ap (λ t. x ∷ t) rest.0, (ground arith, rest.1), rest.2)
  | inr e ↦
      let late : now ≤ (h x).next = ground arith in
      rw e (pass_equal-Cut h now (x ∷ xs) s (λ y c. ground (arith, Above-contains-le h x y xs s.0)))
]
  where
    before : Bool
    before = if ltb (h x).next now then true else if ltb now (h x).next then false else ltb x probe
