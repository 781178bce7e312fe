-- ===== src/Timer/Firing.antt =====
-- server/timer.cc: the loop of `listExpiredCb` over the expired timers.
use zjh_server.Base.{
  ℕ, ◌+◌, ◌≡◌, refl, ap, ◌∙◌, inl, inr, List, [], ◌∷◌, map, arith, ◌==◌, if◌then◌else◌, Bool, true,
  false, ◌&&◌, ◌||◌, Option, none, Bool-cases, ==_iff,
}
use zjh_server.Base.Words.{u64}
use zjh_server.Timer.{Heap, Timer, Callback, put, is_some, insert, fired, fire}
use zjh_server.Timer.Order.{
  contains, Sorted, Above-contains, insert-Sorted, contains-insert, Sorted-put,
}

-- The fired timers and those that stay, between two rounds of the loop.
pub record Firing (h : Heap) (expired timers : List ℕ) : Type 0 where
  pub sorted_expired : Sorted h expired
  pub sorted_timers : Sorted h timers
  pub apart : (b : ℕ) → (contains b expired && contains b timers) ≡ false
  pub armed : (b : ℕ) → (contains b expired || contains b timers) ≡ is_some (h b).cb

-- What the loop over the expired timers leaves.
pub record Fired (now : ℕ) (h : Heap) (expired timers : List ℕ)
    (r : Heap × List ℕ × List (Option Callback)) : Type 0 where
  pub sorted : Sorted r.0 r.1
  pub armed : (b : ℕ) → contains b r.1 ≡ is_some (r.0 b).cb
  pub cbs : r.2 ≡ map (λ a. (h a).cb) expired
  pub objects : (b : ℕ) → r.0 b ≡ (if contains b expired then fired now (h b) else h b)

module _ (a : ℕ) (expired : List ℕ) (h : Heap) (timers : List ℕ)
    (f : Firing h (a ∷ expired) timers) where
  outside_expired : contains a expired ≡ false
  outside_expired = Above-contains h a expired f.sorted_expired.0

  outside_timers : contains a timers ≡ false
  outside_timers = ground (arith, f.apart a)

  fire_again :
      (t : Timer) → t.cb ≡ (h a).cb → Firing (put h a t) expired (insert (put h a t) a timers)
  fire_again t e = record {
    sorted_expired = Sorted-put h a t expired outside_expired f.sorted_expired.1;
    sorted_timers =
        insert-Sorted (put h a t) a timers (Sorted-put h a t timers outside_timers f.sorted_timers);
    apart = λ b. ground (arith, contains-insert (put h a t) a b timers, f.apart b, outside_expired);
    armed = λ b. ground (arith, contains-insert (put h a t) a b timers, f.armed b, f.armed a);
  }

  fire_once : (t : Timer) → t.cb ≡ none → Firing (put h a t) expired timers
  fire_once t e = record {
    sorted_expired = Sorted-put h a t expired outside_expired f.sorted_expired.1;
    sorted_timers = Sorted-put h a t timers outside_timers f.sorted_timers;
    apart = λ b. ground (arith, f.apart b);
    armed = λ b. ground (arith, f.armed b, outside_expired, outside_timers);
  }

  fire_next :
      (now : ℕ) (r : Bool)
      → let t =
          if r then record (h a) { next = u64 (now + (h a).ms) } else record (h a) { cb = none } in
        Firing (put h a t) expired (if r then insert (put h a t) a timers else timers)
  fire_next now true = fire_again _ refl
  fire_next now false = fire_once _ refl

-- A change of a timer that has been fired does not show in the callbacks still to come.
map-put :
    (h : Heap) (a : ℕ) (t : Timer) (xs : List ℕ)
    → contains a xs ≡ false
    → map (λ b. (put h a t b).cb) xs ≡ map (λ b. (h b).cb) xs
map-put h a t [] c = refl
map-put h a t (x ∷ xs) c = ground (arith, map-put h a t xs)

one_more :
    (g : Timer → Timer) (h : Heap) (a b : ℕ) (expired : List ℕ)
    → contains a expired ≡ false
    → (if contains b expired then g (put h a (g (h a)) b) else put h a (g (h a)) b)
      ≡ (if contains b (a ∷ expired) then g (h b) else h b)
one_more g h a b expired c = elim (Bool-cases (a == b)) [
  | inl e ↦
      let same : a ≡ b = (==_iff a b).0 e in
      let here : contains b expired ≡ false = rw (← same) c in
      let back : (b == a) ≡ true = ground arith in rw (e, back, here) (ap (λ (x : ℕ). g (h x)) same)
  | inr e ↦ let back : (b == a) ≡ false = ground arith in rw (e, back) refl
]

pub fire-Fired :
    (now : ℕ) (expired : List ℕ) (h : Heap) (timers : List ℕ)
    → Firing h expired timers
    → Fired now h expired timers (fire now expired h timers)
unfolding fire
fire-Fired now [] h timers f = record {
  sorted = f.sorted_timers;
  armed = f.armed;
  cbs = refl;
  objects = λ b. refl;
}
fire-Fired now (a ∷ expired) h timers f =
    let h' : Heap = put h a (fired now (h a)) in
    let timers' : List ℕ = if (h a).recurring then insert h' a timers else timers in
    let rest : Fired now h' expired timers' (fire now expired h' timers') =
      fire-Fired now expired h' timers' (fire_next a expired h timers f now (h a).recurring) in
    record {
      sorted = rest.sorted;
      armed = rest.armed;
      cbs =
          ap (λ t. (h a).cb ∷ t)
            (rest.cbs
              ∙ map-put h a (fired now (h a)) expired (outside_expired a expired h timers f));
      objects = λ b.
          rest.objects b
          ∙ one_more (fired now) h a b expired (outside_expired a expired h timers f);
    }
