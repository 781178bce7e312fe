-- ===== src/Timer/Invariant.antt =====
-- server/timer.cc: any sequence of calls on a manager.
use zjh_server.Base.{ℕ, ◌≡◌, refl, [], Bool, false, none}
use zjh_server.Timer.{
  Callback, TimerManager, is_some, add_timer, cancel, refresh, reset, get_next_timer, list_expired,
}
use zjh_server.Timer.Arming.{
  IsValid, add_timer-IsValid, cancel-IsValid, refresh-IsValid, reset-IsValid,
}
use zjh_server.Timer.Expiry.{list_expired_lem}

-- `TimerManager::TimerManager`: an empty set, and every object without a callback.
unfoldable pub new_manager : ℕ → TimerManager
new_manager now = record {
  objects = λ a. record { recurring = false; ms = 0; next = 0; cb = none };
  timers = [];
  tickled = false;
  previous_time = now;
}

-- One call; a new timer takes the place of an object without a callback.
pub data Step (m : TimerManager) : TimerManager → Type 0 where
  adds :
      (a ms : ℕ) (cb : Callback) (recurring : Bool) (now : ℕ)
      → is_some (m.objects a).cb ≡ false
      → Step m (add_timer a ms cb recurring now m).0
  cancels : (a : ℕ) → Step m (cancel a m).0
  refreshes : (a now : ℕ) → Step m (refresh a now m).0
  resets : (a ms : ℕ) (from_now : Bool) (now : ℕ) → Step m (reset a ms from_now now m).0
  asks : (now : ℕ) → Step m (get_next_timer now m).0
  expires : (now probe : ℕ) → Step m (list_expired now probe m).0

pub data Reach (m : TimerManager) : TimerManager → Type 0 where
  here : Reach m m
  then_step : {a b : TimerManager} → Reach m a → Step a b → Reach m b

pub new_manager-IsValid : (now : ℕ) → IsValid (new_manager now)
unfolding new_manager
new_manager-IsValid now = record { sorted = tt; armed = λ a. refl }

get_next_timer-IsValid : (now : ℕ) (m : TimerManager) → IsValid m → IsValid (get_next_timer now m).0
unfolding get_next_timer
get_next_timer-IsValid now m v = record { sorted = v.sorted; armed = v.armed }

Step-IsValid : {m a : TimerManager} → Step m a → IsValid m → IsValid a
Step-IsValid {m} (adds a ms cb recurring now fresh) v =
    add_timer-IsValid a ms cb recurring now m v fresh
Step-IsValid {m} (cancels a) v = cancel-IsValid a m v
Step-IsValid {m} (refreshes a now) v = refresh-IsValid a now m v
Step-IsValid {m} (resets a ms from_now now) v = reset-IsValid a ms from_now now m v
Step-IsValid {m} (asks now) v = get_next_timer-IsValid now m v
Step-IsValid {m} (expires now probe) v = (list_expired_lem now probe m v).valid

Reach-IsValid : {m a : TimerManager} → IsValid m → Reach m a → IsValid a
Reach-IsValid v here = v
Reach-IsValid v (then_step r s) = Step-IsValid s (Reach-IsValid v r)

-- After any sequence of calls on a new manager, where timers are added with a callback, the
-- set is in the order of the deadlines and holds exactly the timers with a callback.
pub reachable-IsValid : (now : ℕ) (m : TimerManager) → Reach (new_manager now) m → IsValid m
reachable-IsValid now m r = Reach-IsValid (new_manager-IsValid now) r
