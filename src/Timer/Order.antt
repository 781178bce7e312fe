-- ===== src/Timer/Order.antt =====
-- server/timer.cc: the order of `Timer::Comparator`, and the set's operations on it.
use zjh_server.Base.{
  ℕ, ◌≤◌, ◌≡◌, refl, ◌∙◌, List, [], ◌∷◌, arith, ◌==◌, Bool, true, false, not, ◌&&◌, ◌||◌,
}
use zjh_server.Timer.{Heap, Timer, put, less, insert, find, erase}

abbrev pub contains : ℕ → List ℕ → Bool
contains a [] = false
contains a (x ∷ xs) = (x == a) || contains a xs

abbrev pub Above : Heap → ℕ → List ℕ → Type 0
Above h x [] = Unit {0}
Above h x (y ∷ ys) = (less h x y ≡ true) × Above h x ys

abbrev pub Sorted : Heap → List ℕ → Type 0
Sorted h [] = Unit {0}
Sorted h (x ∷ xs) = Above h x xs × Sorted h xs

pub less_irrefl : (h : Heap) (a : ℕ) → less h a a ≡ false
unfolding less
less_irrefl h a = ground arith

pub less_trans : (h : Heap) (a b c : ℕ) → less h a b ≡ true → less h b c ≡ true → less h a c ≡ true
unfolding less
less_trans h a b c p q = ground arith

pub less_asym : (h : Heap) (a b : ℕ) → less h a b ≡ true → less h b a ≡ false
unfolding less
less_asym h a b p = ground arith

-- Two timers of which neither comes before the other are one.
pub less_total : (h : Heap) (a b : ℕ) → less h a b ≡ false → less h b a ≡ false → a ≡ b
unfolding less
less_total h a b p q = ground arith

pub less-le : (h : Heap) (a b : ℕ) → less h a b ≡ true → (h a).next ≤ (h b).next
unfolding less
less-le h a b p = ground arith

less-eq : (h : Heap) (a b : ℕ) → a ≡ b → (less h a b ≡ false) × (less h b a ≡ false)
less-eq h a b e = rw e (less_irrefl h b, less_irrefl h b)

pub Above-trans :
    (h : Heap) (a b : ℕ) (xs : List ℕ) → less h a b ≡ true → Above h b xs → Above h a xs
Above-trans h a b [] p q = tt
Above-trans h a b (x ∷ xs) p q = (less_trans h a b x p q.0, Above-trans h a b xs p q.1)

Above-insert :
    (h : Heap) (x a : ℕ) (xs : List ℕ)
    → less h x a ≡ true
    → Above h x xs
    → Above h x (insert h a xs)
unfolding insert
Above-insert h x a [] p q = (p, tt)
Above-insert h x a (y ∷ ys) p q = ground (arith, Above-insert h x a ys)

pub insert-Sorted : (h : Heap) (a : ℕ) (xs : List ℕ) → Sorted h xs → Sorted h (insert h a xs)
unfolding insert
insert-Sorted h a [] s = (tt, tt)
insert-Sorted h a (x ∷ xs) s =
    ground (arith, insert-Sorted h a xs s.1, Above-insert h x a xs, Above-trans h a x xs)

pub contains-insert :
    (h : Heap) (a b : ℕ) (xs : List ℕ) → contains b (insert h a xs) ≡ ((a == b) || contains b xs)
unfolding insert
contains-insert h a b [] = refl
contains-insert h a b (x ∷ xs) = ground (arith, contains-insert h a b xs, less_total h a x)

-- `find` finds an address exactly if the set holds it.
pub find-eq-contains : (h : Heap) (a : ℕ) (xs : List ℕ) → find h a xs ≡ contains a xs
unfolding find
find-eq-contains h a [] = refl
find-eq-contains h a (x ∷ xs) =
    ground (arith, find-eq-contains h a xs, less_total h a x, less-eq h a x)

pub Above-contains : (h : Heap) (x : ℕ) (xs : List ℕ) → Above h x xs → contains x xs ≡ false
Above-contains h x [] s = refl
Above-contains h x (y ∷ ys) s = ground (arith, Above-contains h x ys s.1, less-eq h x y)

Above-erase : (h : Heap) (x a : ℕ) (xs : List ℕ) → Above h x xs → Above h x (erase h a xs)
unfolding erase
Above-erase h x a [] s = tt
Above-erase h x a (y ∷ ys) s = ground (arith, Above-erase h x a ys s.1)

pub erase-Sorted : (h : Heap) (a : ℕ) (xs : List ℕ) → Sorted h xs → Sorted h (erase h a xs)
unfolding erase
erase-Sorted h a [] s = tt
erase-Sorted h a (x ∷ xs) s = ground (arith, erase-Sorted h a xs s.1, Above-erase h x a xs s.0)

pub contains-erase :
    (h : Heap) (a b : ℕ) (xs : List ℕ)
    → Sorted h xs
    → contains b (erase h a xs) ≡ (not (a == b) && contains b xs)
unfolding erase
contains-erase h a b [] s = ground arith
contains-erase h a b (x ∷ xs) s =
    ground (
      arith,
      contains-erase h a b xs s.1,
      less_total h a x,
      less-eq h a x,
      Above-contains h x xs s.0,
    )

-- The order is that of the deadlines, so a change of anything else leaves it.
pub less-put_same :
    (h : Heap) (a b c : ℕ) (t : Timer) → t.next ≡ (h a).next → less (put h a t) b c ≡ less h b c
unfolding less
less-put_same h a b c t e = ground arith

less-put_ne :
    (h : Heap) (a b c : ℕ) (t : Timer)
    → (b == a) ≡ false
    → (c == a) ≡ false
    → less (put h a t) b c ≡ less h b c
unfolding less
less-put_ne h a b c t p q = ground arith

-- A timer outside of the set may get any deadline.
Above-put :
    (h : Heap) (a x : ℕ) (t : Timer) (xs : List ℕ)
    → (x == a) ≡ false
    → contains a xs ≡ false
    → Above h x xs
    → Above (put h a t) x xs
Above-put h a x t [] n c s = tt
Above-put h a x t (y ∷ ys) n c s = ground (arith, Above-put h a x t ys n, less-put_ne h a x y t n)

pub Sorted-put :
    (h : Heap) (a : ℕ) (t : Timer) (xs : List ℕ)
    → contains a xs ≡ false
    → Sorted h xs
    → Sorted (put h a t) xs
Sorted-put h a t [] c s = tt
Sorted-put h a t (x ∷ xs) c s = ground (arith, Sorted-put h a t xs, Above-put h a x t xs)

Above-put_same :
    (h : Heap) (a x : ℕ) (t : Timer) (xs : List ℕ)
    → t.next ≡ (h a).next
    → Above h x xs
    → Above (put h a t) x xs
Above-put_same h a x t [] e s = tt
Above-put_same h a x t (y ∷ ys) e s =
    (less-put_same h a x y t e ∙ s.0, Above-put_same h a x t ys e s.1)

pub Sorted-put_same :
    (h : Heap) (a : ℕ) (t : Timer) (xs : List ℕ)
    → t.next ≡ (h a).next
    → Sorted h xs
    → Sorted (put h a t) xs
Sorted-put_same h a t [] e s = tt
Sorted-put_same h a t (x ∷ xs) e s =
    (Above-put_same h a x t xs e s.0, Sorted-put_same h a t xs e s.1)
