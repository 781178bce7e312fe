-- ===== src/Timer/Examples.antt =====
-- server/timer.cc: the theorems on a manager with one recurring timer.
use zjh_server.Base.{ℕ, ◌≡◌, refl, [], ◌∷◌, arith, ◌==◌, if◌then◌else◌, true, false, none, some}
use zjh_server.Timer.{call, TimerManager, is_some, add_timer, list_expired}
use zjh_server.Timer.Arming.{IsValid}
use zjh_server.Timer.Expiry.{Expires, list_expired_lem}
use zjh_server.Timer.Invariant.{new_manager, here, then_step, adds, expires, reachable-IsValid}

-- The timer at address 7 was armed at time 5, for every 100 milliseconds.
abbrev one_timer : TimerManager
one_timer = record {
  objects = λ a.
      if a == 7
      then record { recurring = true; ms = 100; next = 105; cb = some (call 1) }
      else record { recurring = false; ms = 0; next = 0; cb = none };
  timers = 7 ∷ [];
  tickled = true;
  previous_time = 0;
}

one_timer-IsValid : IsValid one_timer
one_timer-IsValid = record { sorted = (tt, tt); armed = λ a. ground arith }

list_expired_example : Expires 200 one_timer (list_expired 200 9 one_timer)
list_expired_example = list_expired_lem 200 9 one_timer one_timer-IsValid

no_callback : (a : ℕ) → is_some ((new_manager 0).objects a).cb ≡ false
unfolding new_manager
no_callback a = refl

reachable_example :
    IsValid (list_expired 200 9 (add_timer 7 100 (call 1) true 5 (new_manager 0)).0).0
reachable_example =
    reachable-IsValid 0 (list_expired 200 9 (add_timer 7 100 (call 1) true 5 (new_manager 0)).0).0
      (then_step (then_step here (adds 7 100 (call 1) true 5 (no_callback 7))) (expires 200 9))
