-- ===== src/Hook.antt =====
-- server/hook.cc: the hooks of system calls. `do_io` retries a call that would block: it arms a
-- timer, asks for the event, yields, and calls again. The system call, `addEvent`, and what happens
-- from the yield to the resumption are parameters on a state of the environment. An answer is a
-- count or an `errno`, a run also tells the actions it took.
pub mod Retrying
pub mod Calls
pub mod Flags
pub mod Examples
use zjh_server.Base.{
  ℕ, zero, suc, ◌-◌, ◌^◌, List, [], ◌∷◌, ◌++◌, ◌==◌, if◌then◌else◌, Bool, false, not, ◌||◌, Option,
  none, some,
}
use zjh_server.FdManager.{FdCtx, Slots, get, get_timeout}

abbrev pub eintr : ℕ
eintr = 4

abbrev pub ebadf : ℕ
ebadf = 9

abbrev pub eagain : ℕ
eagain = 11

abbrev pub etimedout : ℕ
etimedout = 110

pub data IoResult : Type 0 where
  done : ℕ → IoResult
  failed : ℕ → IoResult

pub data Action : Type 0 where
  called : Action
  timer_added : ℕ → Action
  timer_cancelled : Action
  event_added : Action
  event_refused : Action
  yielded : Action

unfoldable pub is_failure : ℕ → IoResult → Bool
is_failure errno (done n) = false
is_failure errno (failed e) = e == errno

-- The context of a descriptor, if it has one.
unfoldable pub find_ctx : ℕ → Slots → Option FdCtx
unfolding get
find_ctx fd slots = answer (get none (some fd) false slots)
  where
    answer : Option (Slots × Option FdCtx) → Option FdCtx
    answer none = none
    answer (some found) = found.1

abbrev pub Run {ℓ} : Type ℓ → Type ℓ
Run S = S × List Action × IoResult

module _ {ℓ} {S : Type ℓ} where
  -- A run after some actions.
  unfoldable pub after_actions : List Action → Option (Run S) → Option (Run S)
  after_actions acts none = none
  after_actions acts (some r) = some (r.0, acts ++ r.1, r.2)

-- `addConditionTimer` unless the timeout is -1, and `cancel` of what it gave.
unfoldable pub arm : ℕ → List Action
arm to = if to == 2 ^ 64 - 1 then [] else timer_added to ∷ []

unfoldable pub disarm : ℕ → List Action
disarm to = if to == 2 ^ 64 - 1 then [] else timer_cancelled ∷ []

-- `call` is the system call. `add_event` gives the `errno` of a refusal. `resumed` is the time from
-- the yield to the resumption, with the timeout, and says whether the timer had fired.
module _ {ℓ} {S : Type ℓ} (call : S → S × IoResult) (add_event : S → S × Option ℕ)
    (resumed : ℕ → S → S × Bool) where
  unfoldable pub refuse_event : ℕ → S → List Action → ℕ → Option (Run S)
  unfolding disarm
  refuse_event to s acts errno = some (s, acts ++ event_refused ∷ disarm to, failed errno)

  -- What follows EAGAIN, the next round being given.
  unfoldable pub wait : ℕ → S × Option ℕ → S × Bool → Option (Run S) → Option (Run S)
  unfolding arm disarm refuse_event after_actions
  wait to (s, some errno) w rest = refuse_event to s (called ∷ arm to) errno
  wait to (s, none) (s2, fired) rest =
      let acts = called ∷ (arm to ++ event_added ∷ yielded ∷ disarm to) in
      if fired then some (s2, acts, failed etimedout) else after_actions acts rest

  -- The rounds from the label `retry`. A call that was interrupted is made again at once, which is
  -- a round of its own.
  unfoldable pub retry : ℕ → ℕ → S → Option (Run S)
  unfolding is_failure wait after_actions
  retry zero to s = none
  retry (suc fuel) to s =
      let c = call s in
      let e = add_event c.0 in
      let w = resumed to e.0 in
      let interrupted = is_failure eintr c.1 in
      let rest = retry fuel to (if interrupted then c.0 else w.0) in
      if interrupted
      then after_actions (called ∷ []) rest
      else (if is_failure eagain c.1 then wait to e w rest else some (c.0, called ∷ [], c.1))

  unfoldable pub straight : S → Option (Run S)
  straight s = let c = call s in some (c.0, called ∷ [], c.1)

  -- With the context that the manager has of the descriptor.
  unfoldable pub io_on : ℕ → Option FdCtx → Bool → S → Option (Run S)
  unfolding straight retry get_timeout
  io_on fuel none receiving s = straight s
  io_on fuel (some ctx) receiving s =
      if ctx.is_closed
      then some (s, [], failed ebadf)
      else (if not ctx.is_socket || ctx.user_nonblock
          then straight s
          else retry fuel (get_timeout receiving ctx) s)

  unfoldable pub do_io : Bool → Slots → ℕ → Bool → ℕ → S → Option (Run S)
  unfolding straight io_on find_ctx
  do_io hook_enable slots fd receiving fuel s =
      if not hook_enable then straight s else io_on fuel (find_ctx fd slots) receiving s
