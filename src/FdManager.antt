-- ===== src/FdManager.antt =====
-- server/fd_manager.h and fd_manager.cc: the states of file descriptors, made when they are first asked for.
-- What `fstat` and `fcntl` say of a new descriptor is an argument.
pub mod Asking
pub mod Examples
use zjh_server.Base.{
  ℕ, ◌+◌, ◌-◌, ◌*◌, ◌/◌, ◌^◌, List, ◌++◌, ltb, leb, if◌then◌else◌, length, take, replicate, Bool,
  true, false, not, ◌&&◌, ◌||◌, Option, none, some, get_elem?, set,
}

pub record FdCtx : Type 0 where
  pub is_init : Bool
  pub is_socket : Bool
  pub sys_nonblock : Bool
  pub user_nonblock : Bool
  pub is_closed : Bool
  pub fd : ℕ
  pub recv_timeout : ℕ
  pub send_timeout : ℕ

-- `FdCtx(fd)` with `init`: `stat` is none where `fstat` fails, else whether it is a socket. The calls
-- of `fcntl` make the descriptor non-blocking.
unfoldable pub new_fd_ctx : ℕ → Option Bool → FdCtx
new_fd_ctx fd stat = record {
  is_init = elim stat [ none ↦ false | some s ↦ true ];
  is_socket = elim stat [ none ↦ false | some s ↦ s ];
  sys_nonblock = elim stat [ none ↦ false | some s ↦ s ];
  user_nonblock = false;
  is_closed = false;
  fd = fd;
  recv_timeout = 2 ^ 64 - 1;
  send_timeout = 2 ^ 64 - 1;
}

-- `type == SO_RCVTIMEO` is the argument.
unfoldable pub set_timeout : Bool → ℕ → FdCtx → FdCtx
set_timeout receiving v c =
    if receiving then record c { recv_timeout = v } else record c { send_timeout = v }

unfoldable pub get_timeout : Bool → FdCtx → ℕ
get_timeout receiving c = if receiving then c.recv_timeout else c.send_timeout

unfoldable pub set_user_nonblock : Bool → FdCtx → FdCtx
set_user_nonblock v c = record c { user_nonblock = v }

unfoldable pub set_sys_nonblock : Bool → FdCtx → FdCtx
set_sys_nonblock v c = record c { sys_nonblock = v }

abbrev pub Slots : Type 0
Slots = List (Option FdCtx)

-- `FdManager()`
unfoldable pub new_slots : Slots
new_slots = replicate 64 none

abbrev pub resize : ℕ → Slots → Slots
resize size slots = take size slots ++ replicate (size - length slots) none

abbrev pub flatten : Option (Option FdCtx) → Option FdCtx
flatten none = none
flatten (some c) = c

abbrev pub is_none : Option FdCtx → Bool
is_none none = true
is_none (some c) = false

-- The slots afterwards and the answer; a write beyond the vector is a fault, `none`. The argument -1 of
-- the source is `none`.
unfoldable pub get : Option Bool → Option ℕ → Bool → Slots → Option (Slots × Option FdCtx)
unfolding new_fd_ctx
get stat none auto_create slots = some (slots, none)
get stat (some fd) auto_create slots =
    let ctx = new_fd_ctx fd stat in
    let slots' = if leb (length slots) fd then resize (fd * 3 / 2) slots else slots in
    let found = flatten (get_elem? slots fd) in
    if (leb (length slots) fd && not auto_create)
      || (ltb fd (length slots) && (not (is_none found) || not auto_create))
    then some (slots, found)
    else (if ltb fd (length slots') then some (set slots' fd (some ctx), some ctx) else none)

unfoldable pub del : ℕ → Slots → Slots
del fd slots = if leb (length slots) fd then slots else set slots fd none
