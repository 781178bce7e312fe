-- ===== src/Hook/Retrying.antt =====
-- server/hook.cc: the theorems on the rounds of `do_io` and on `connect`.
use mathlib.Core.List.{append-nil}
use zjh_server.Base.{
  ℕ, zero, suc, ◌-◌, ◌^◌, ◌≤◌, ◌<◌, ◌≡◌, refl, sym, ap, ◌∙◌, inl, inr, List, [], ◌∷◌, ◌++◌, ◌==◌,
  Bool, true, false, not, ◌||◌, ◌&&◌, Option, none, some, arith, Bool-cases,
}
use zjh_server.Hook.{
  IoResult, failed, Action, called, timer_added, timer_cancelled, event_added, event_refused,
  yielded, is_failure, Run, arm, disarm, eintr, eagain, etimedout, retry, wait, refuse_event,
  after_actions,
}

-- Whether a timer is armed after some actions: `none` where one is armed twice at once, or cancelled
-- without being armed.
unfoldable pub timers : Bool → List Action → Option Bool
timers armed [] = some armed
timers armed (called ∷ more) = timers armed more
timers true (timer_added to ∷ more) = none
timers false (timer_added to ∷ more) = timers true more
timers true (timer_cancelled ∷ more) = timers false more
timers false (timer_cancelled ∷ more) = none
timers armed (event_added ∷ more) = timers armed more
timers armed (event_refused ∷ more) = timers armed more
timers armed (yielded ∷ more) = timers armed more

unfoldable pub was_refused : List Action → Bool
was_refused [] = false
was_refused (called ∷ more) = was_refused more
was_refused (timer_added to ∷ more) = was_refused more
was_refused (timer_cancelled ∷ more) = was_refused more
was_refused (event_added ∷ more) = was_refused more
was_refused (event_refused ∷ more) = true
was_refused (yielded ∷ more) = was_refused more

-- An answer that asks for another round.
unfoldable pub is_again : IoResult → Bool
unfolding is_failure
is_again r = is_failure eintr r || is_failure eagain r

-- What holds of a run: the timers are cancelled, and the answer asks for another round only where
-- the event was refuse_event.
unfoldable pub IsDone {ℓ} : {S : Type ℓ} → Run S → Type 0
unfolding timers was_refused is_again
IsDone r = (timers false r.1 ≡ some false) × ((is_again r.2 && not (was_refused r.1)) ≡ false)

module _ {ℓ} {S : Type ℓ} where
  Ends : Option (Run S) → Type ℓ
  unfolding IsDone
  Ends o = (r : Run S) × (o ≡ some r) × IsDone r

  -- A round that goes on: it has the timer cancelled and no refusal.
  after_round :
      (acts : List Action) (o : Option (Run S))
      → ((more : List Action) → timers false (acts ++ more) ≡ timers false more)
      → ((more : List Action) → was_refused (acts ++ more) ≡ was_refused more)
      → Ends o
      → Ends (after_actions acts o)
  unfolding Ends IsDone after_actions
  after_round acts o t w (r, e, d) = (
    (r.0, acts ++ r.1, r.2),
    rw e refl,
    (t r.1 ∙ d.0, ap (λ b. is_again r.2 && not b) (w r.1) ∙ d.1),
  )

unfoldable pub round_acts : ℕ → List Action
unfolding arm disarm
round_acts to = called ∷ (arm to ++ event_added ∷ yielded ∷ disarm to)

pub round_timers :
    (to : ℕ) (more : List Action) → timers false (round_acts to ++ more) ≡ timers false more
unfolding round_acts arm disarm timers
round_timers to more = elim (Bool-cases (to == 2 ^ 64 - 1)) [
  | inl e ↦ rw e refl
  | inr e ↦ rw e refl
]

round_refused :
    (to : ℕ) (more : List Action) → was_refused (round_acts to ++ more) ≡ was_refused more
unfolding round_acts arm disarm was_refused
round_refused to more = elim (Bool-cases (to == 2 ^ 64 - 1)) [
  | inl e ↦ rw e refl
  | inr e ↦ rw e refl
]

pub refused_timers :
    (to : ℕ) → timers false (called ∷ (arm to ++ event_refused ∷ disarm to)) ≡ some false
unfolding arm disarm timers
refused_timers to = elim (Bool-cases (to == 2 ^ 64 - 1)) [ inl e ↦ rw e refl | inr e ↦ rw e refl ]

refused_refused : (to : ℕ) → was_refused (called ∷ (arm to ++ event_refused ∷ disarm to)) ≡ true
unfolding arm disarm was_refused
refused_refused to = elim (Bool-cases (to == 2 ^ 64 - 1)) [ inl e ↦ rw e refl | inr e ↦ rw e refl ]

and_not : (a b : Bool) → b ≡ true → (a && not b) ≡ false
and_not true b h = rw h refl
and_not false b h = refl

module _ {ℓ} {S : Type ℓ} (call : S → S × IoResult) (add_event : S → S × Option ℕ)
    (resumed : ℕ → S → S × Bool) where
  wait-Ends :
      (to : ℕ) (e : S × Option ℕ) (w : S × Bool) (rest : Option (Run S))
      → Ends rest
      → Ends (wait call add_event resumed to e w rest)
  unfolding wait refuse_event Ends IsDone round_acts
  wait-Ends to (s, some errno) w rest r = (
    (s, called ∷ (arm to ++ event_refused ∷ disarm to), failed errno),
    refl,
    (
      refused_timers to,
      and_not (is_again (failed errno))
          (was_refused (called ∷ (arm to ++ event_refused ∷ disarm to))) (refused_refused to),
    ),
  )
  wait-Ends to (s, none) (s2, true) rest r = (
    (s2, round_acts to, failed etimedout),
    refl,
    (ap (timers false) (sym (append-nil (round_acts to))) ∙ round_timers to [], refl),
  )
  wait-Ends to (s, none) (s2, false) rest r =
      after_round (round_acts to) rest (round_timers to) (round_refused to) r

  -- Where the environment loses something with every call that answers EINTR or EAGAIN, and
  -- gains nothing while it is asked for the event and waited for, the rounds of `do_io` end; a
  -- timer is never armed twice at once and every one is cancelled, and the answer is EINTR or
  -- EAGAIN only where `addEvent` was refused.
  pub retry_lem :
      (left : S → ℕ)
      → ((s : S) → is_again (call s).1 ≡ true → left (call s).0 < left s)
      → ((s : S) → left (add_event s).0 ≤ left s)
      → ((to : ℕ) (s : S) → left (resumed to s).0 ≤ left s)
      → (fuel to : ℕ) (s : S) → left s < fuel
      → (r : Run S) × (retry call add_event resumed fuel to s ≡ some r) × IsDone r
  unfolding retry Ends IsDone is_again
  retry_lem left p q w zero to s h = absurd (omega arith)
  retry_lem left p q w (suc fuel) to s h = elim (Bool-cases (is_failure eintr (call s).1)) [
    | inl i ↦
        let less : left (call s).0 < left s = p s (rw i refl) in
        rw i (
          after_round (called ∷ []) (retry call add_event resumed fuel to (call s).0) (λ more. refl)
            (λ more. refl) (retry_lem left p q w fuel to (call s).0 (omega arith)))
    | inr i ↦ elim (Bool-cases (is_failure eagain (call s).1)) [
      | inl a ↦
          let e : S × Option ℕ = add_event (call s).0 in
          let next : S × Bool = resumed to e.0 in
          let less : left (call s).0 < left s = p s (rw (i, a) refl) in
          rw (i, a)
            (wait-Ends to e next (retry call add_event resumed fuel to next.0)
              (retry_lem left p q w fuel to next.0 (omega (arith, q (call s).0, w to e.0))))
      | inr a ↦ rw (i, a) (((call s).0, called ∷ [], (call s).1), refl, (refl, rw (i, a) refl))
    ]
  ]
