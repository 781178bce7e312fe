-- ===== src/Hook/Calls.antt =====
-- server/hook.cc: the hooks that are not `do_io` alone: sleeping, `socket`, `connect`, `accept`,
-- `close` and `setsockopt`.
pub mod Connecting
pub mod Effects
use zjh_server.Base.{
  ℕ, ◌+◌, ◌-◌, ◌*◌, ◌/◌, ◌%◌, ◌^◌, List, [], ◌∷◌, ◌++◌, ◌==◌, if◌then◌else◌, Bool, true, false, not,
  ◌||◌, Option, none, some, ltb, set,
}
use zjh_server.FdManager.{FdCtx, Slots, get, del, set_timeout}
use zjh_server.Hook.{
  IoResult, done, failed, Action, called, timer_added, event_added, event_refused, yielded,
  is_failure, find_ctx, Run, arm, disarm, ebadf, etimedout,
}

-- The timeout of the timer that `sleep` arms: a product of `unsigned int`.
unfoldable pub sleep_ms : ℕ → ℕ
sleep_ms seconds = seconds * 1000 % 2 ^ 32

unfoldable pub usleep_ms : ℕ → ℕ
usleep_ms usec = usec / 1000

-- The `int` that `nanosleep` computes, made the `uint64_t` that `addTimer` takes.
unfoldable pub nanosleep_ms : ℕ → ℕ → ℕ
nanosleep_ms sec nsec =
    let ms = (sec * 1000 + nsec / 1000 / 1000) % 2 ^ 32 in
    if ltb ms (2 ^ 31) then ms else ms + (2 ^ 64 - 2 ^ 32)

-- What a hook of sleeping does: the timer that schedules the fiber, then the yield.
unfoldable pub sleep_actions : ℕ → List Action
sleep_actions ms = timer_added ms ∷ yielded ∷ []

unfoldable pub sleep : Bool → ℕ → List Action
unfolding sleep_actions sleep_ms
sleep hook_enable seconds = if hook_enable then sleep_actions (sleep_ms seconds) else called ∷ []

unfoldable pub usleep : Bool → ℕ → List Action
unfolding sleep_actions usleep_ms
usleep hook_enable usec = if hook_enable then sleep_actions (usleep_ms usec) else called ∷ []

unfoldable pub nanosleep : Bool → ℕ → ℕ → List Action
unfolding sleep_actions nanosleep_ms
nanosleep hook_enable sec nsec =
    if hook_enable then sleep_actions (nanosleep_ms sec nsec) else called ∷ []

-- `FdMgr::get(fd, true)`, whose answer is not used; `none` is a write beyond the table.
unfoldable pub register_fd : Option Bool → ℕ → Slots → Option Slots
unfolding get
register_fd stat fd slots = table (get stat (some fd) true slots)
  where
    table : Option (Slots × Option FdCtx) → Option Slots
    table none = none
    table (some found) = some found.0

-- The new descriptor, `none` where the call fails, is an argument.
unfoldable pub socket : Bool → Option Bool → Option ℕ → Slots → Option Slots
unfolding register_fd
socket hook_enable stat none slots = some slots
socket hook_enable stat (some fd) slots =
    if hook_enable then register_fd stat fd slots else some slots

module _ {ℓ} {S : Type ℓ} (call : S → S × IoResult) (add_event : S → S × Option ℕ)
    (resumed : ℕ → S → S × Bool) where
  -- `so_error` is `getsockopt(SO_ERROR)`: it fails, or gives an error or 0.
  module _ (so_error : S → S × (IoResult × ℕ)) where
    -- The end of a connect: an error of the socket is the answer.
    unfoldable pub socket_error : S → List Action → Option (Run S)
    unfolding is_failure
    socket_error s acts = let a = so_error s in some (a.0, acts, answer a.1.0 a.1.1)
      where
        answer : IoResult → ℕ → IoResult
        answer (failed errno) error = failed errno
        answer (done n) error = if error == 0 then done 0 else failed error

    -- What follows EINPROGRESS.
    unfoldable pub await_connect : ℕ → S × Option ℕ → S × Bool → Option (Run S)
    unfolding arm disarm socket_error
    await_connect to (s, some errno) w =
        socket_error s (called ∷ (arm to ++ event_refused ∷ disarm to))
    await_connect to (s, none) (s2, fired) =
        let acts = called ∷ (arm to ++ event_added ∷ yielded ∷ disarm to) in
        if fired then some (s2, acts, failed etimedout) else socket_error s2 acts

    unfoldable pub connect_on : ℕ → Option FdCtx → S → Option (Run S)
    unfolding await_connect is_failure
    connect_on to none s = some (s, [], failed ebadf)
    connect_on to (some ctx) s =
        let c = call s in
        let e = add_event c.0 in
        if ctx.is_closed
        then some (s, [], failed ebadf)
        else (if not ctx.is_socket || (ctx.user_nonblock || not (is_failure 115 c.1))
            then some (c.0, called ∷ [], c.1)
            else await_connect to e (resumed to e.0))

    unfoldable pub connect_with_timeout : Bool → Slots → ℕ → ℕ → S → Option (Run S)
    unfolding connect_on find_ctx
    connect_with_timeout hook_enable slots fd to s =
        let c = call s in
        if hook_enable then connect_on to (find_ctx fd slots) s else some (c.0, called ∷ [], c.1)

  -- A descriptor that `accept` gives is registered: the table afterwards, `none` a fault.
  unfoldable pub accepted : Option Bool → Slots → IoResult → Option Slots
  unfolding register_fd
  accepted stat slots (done fd) = register_fd stat fd slots
  accepted stat slots (failed errno) = some slots

-- Whether all events are cancelled, and the table afterwards. `has_iom` says whether the thread has
-- an IOManager.
unfoldable pub close_on : Bool → ℕ → Option FdCtx → Slots → Bool × Slots
unfolding del
close_on has_iom fd none slots = (false, slots)
close_on has_iom fd (some ctx) slots = (has_iom, del fd slots)

unfoldable pub close_fd : Bool → Bool → ℕ → Slots → Bool × Slots
unfolding close_on find_ctx
close_fd hook_enable has_iom fd slots =
    if hook_enable then close_on has_iom fd (find_ctx fd slots) slots else (false, slots)

-- The table after `setsockopt` of a timeout: `receiving` says SO_RCVTIMEO, else SO_SNDTIMEO; other
-- options change nothing here.
unfoldable pub set_timeout_on : ℕ → Bool → ℕ → Option FdCtx → Slots → Slots
unfolding set_timeout
set_timeout_on fd receiving ms none slots = slots
set_timeout_on fd receiving ms (some ctx) slots = set slots fd (some (set_timeout receiving ms ctx))

unfoldable pub setsockopt : Bool → ℕ → Bool → ℕ → ℕ → Slots → Slots
unfolding set_timeout_on find_ctx
setsockopt hook_enable fd receiving sec usec slots =
    if hook_enable
    then set_timeout_on fd receiving (sec * 1000 + usec / 1000) (find_ctx fd slots) slots
    else slots
