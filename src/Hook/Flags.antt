-- ===== src/Hook/Flags.antt =====
-- server/hook.cc: `fcntl` and `ioctl` of the non-blocking flag. What the kernel keeps of a
-- descriptor is a parameter F with its calls.
pub mod Views
use zjh_server.Base.{
  ℕ, ◌+◌, ◌-◌, ◌/◌, ◌%◌, ◌==◌, if◌then◌else◌, Bool, true, false, not, ◌||◌, Option, none, some, set,
}
use zjh_server.FdManager.{FdCtx, Slots, set_user_nonblock}
use zjh_server.Hook.{find_ctx}

-- `O_NONBLOCK` is 2048.
unfoldable pub nonblock : ℕ → Bool
nonblock arg = arg / 2048 % 2 == 1

-- `arg | O_NONBLOCK` or `arg & ~O_NONBLOCK`.
unfoldable pub with_nonblock : Bool → ℕ → ℕ
unfolding nonblock
with_nonblock true arg = if nonblock arg then arg else arg + 2048
with_nonblock false arg = if nonblock arg then arg - 2048 else arg

-- A descriptor that the hooks look after.
unfoldable pub hooked : Option FdCtx → Bool
hooked none = false
hooked (some ctx) = not (ctx.is_closed || not ctx.is_socket)

-- The table after `setUserNonblock` on the context of a descriptor.
unfoldable pub mark_user : Bool → ℕ → Option FdCtx → Slots → Slots
unfolding set_user_nonblock
mark_user b fd none slots = slots
mark_user b fd (some ctx) slots = set slots fd (some (set_user_nonblock b ctx))

unfoldable pub sys_view : ℕ → Option FdCtx → ℕ
unfolding with_nonblock
sys_view arg none = arg
sys_view arg (some ctx) = with_nonblock ctx.sys_nonblock arg

unfoldable pub user_view : ℕ → Option FdCtx → ℕ
unfolding with_nonblock
user_view arg none = arg
user_view arg (some ctx) = with_nonblock ctx.user_nonblock arg

module _ {ℓ} {F : Type ℓ} (set_fl : ℕ → F → F) (get_fl : F → ℕ) (set_nbio : ℕ → F → F) where
  -- `fcntl(fd, F_SETFL, arg)`.
  unfoldable pub fcntl_setfl : ℕ → ℕ → Slots × F → Slots × F
  unfolding hooked mark_user sys_view find_ctx nonblock
  fcntl_setfl fd arg (slots, f) =
      let ctx = find_ctx fd slots in
      if hooked ctx
      then (mark_user (nonblock arg) fd ctx slots, set_fl (sys_view arg ctx) f)
      else (slots, set_fl arg f)

  -- `fcntl(fd, F_GETFL)`.
  unfoldable pub fcntl_getfl : ℕ → Slots × F → ℕ
  unfolding hooked user_view find_ctx
  fcntl_getfl fd (slots, f) =
      let ctx = find_ctx fd slots in if hooked ctx then user_view (get_fl f) ctx else get_fl f

  -- `ioctl(fd, FIONBIO, &arg)`.
  unfoldable pub ioctl_fionbio : ℕ → ℕ → Slots × F → Slots × F
  unfolding hooked mark_user find_ctx
  ioctl_fionbio fd arg (slots, f) =
      let ctx = find_ctx fd slots in
      if hooked ctx
      then (mark_user (not (arg == 0)) fd ctx slots, set_nbio arg f)
      else (slots, set_nbio arg f)
