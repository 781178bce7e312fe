-- ===== src/Hook/Examples.antt =====
-- server/hook.cc: the theorems on an environment whose calls answer from a list.
use zjh_server.Base.{
  ℕ, ◌<◌, ◌≡◌, refl, List, [], ◌∷◌, if◌then◌else◌, Bool, true, false, Option, none, some, arith,
  length,
}
use zjh_server.FdManager.{FdCtx, Slots, get, get_timeout}
use zjh_server.Hook.{IoResult, done, failed, is_failure, find_ctx, Run, straight, retry, do_io}
use zjh_server.Hook.Retrying.{timers, is_again, IsDone, retry_lem}
use zjh_server.Hook.Calls.{connect_with_timeout}
use zjh_server.Hook.Calls.Connecting.{connect_lem}
use zjh_server.Hook.Flags.{nonblock, hooked, fcntl_setfl, fcntl_getfl}
use zjh_server.Hook.Flags.Views.{fcntl_lem, io_after_fcntl}

abbrev Script : Type 0
Script = List IoResult

abbrev next_answer : Script → Script × IoResult
next_answer [] = ([], done 0)
next_answer (r ∷ rs) = (rs, r)

abbrev register_event : Script → Script × Option ℕ
register_event s = (s, none)

abbrev resumed : ℕ → Script → Script × Bool
resumed to s = (s, false)

progress : (s : Script) → is_again (next_answer s).1 ≡ true → length (next_answer s).0 < length s
unfolding is_again is_failure
progress [] h = absurd (ground (arith, h))
progress (r ∷ rs) h = omega arith

-- Interrupted, then with nothing to read, then with five bytes.
abbrev three_calls : Script
three_calls = failed 4 ∷ failed 11 ∷ done 5 ∷ []

retry_example :
    (r : Run Script) × (retry next_answer register_event resumed 4 1000 three_calls ≡ some r)
    × IsDone r
retry_example =
    retry_lem next_answer register_event resumed length progress (λ s. omega arith)
      (λ to s. omega arith) 4 1000 three_calls (omega arith)

abbrev fd_five : FdCtx
fd_five = record {
  is_init = true;
  is_socket = true;
  sys_nonblock = true;
  user_nonblock = false;
  is_closed = false;
  fd = 1;
  recv_timeout = 2000;
  send_timeout = 3000;
}

abbrev table : Slots
table = none ∷ some fd_five ∷ []

found : find_ctx 1 table ≡ some fd_five
unfolding find_ctx get
found = refl

is_hooked : hooked (some fd_five) ≡ true
unfolding hooked
is_hooked = refl

abbrev so_error : Script → Script × (IoResult × ℕ)
so_error s = (s, (done 0, 111))

connect_example :
    (r : Run Script) × (connect_with_timeout next_answer register_event resumed so_error true table
        1 5000
        (failed 115 ∷ [])
      ≡ some r)
    × (timers false r.1 ≡ some false)
connect_example =
    connect_lem next_answer register_event resumed so_error true table 1 5000 (failed 115 ∷ [])

-- A kernel that keeps the flags as they are set.
abbrev set_fl : ℕ → ℕ → ℕ
set_fl a f = a

abbrev get_fl : ℕ → ℕ
get_fl f = f

fcntl_example :
    (nonblock (fcntl_getfl set_fl get_fl set_fl 1 (fcntl_setfl set_fl get_fl set_fl 1 2 (table, 0)))
      ≡ nonblock 2)
    × (nonblock (get_fl (fcntl_setfl set_fl get_fl set_fl 1 2 (table, 0)).1) ≡ true)
fcntl_example = fcntl_lem set_fl get_fl set_fl (λ a f. refl) 1 2 table 0 fd_five found is_hooked

io_after_fcntl_example :
    do_io next_answer register_event resumed true
      (fcntl_setfl set_fl get_fl set_fl 1 2050 (table, 0)).0
      1
      true
      4
      three_calls
    ≡ (if nonblock 2050
        then straight next_answer register_event resumed three_calls
        else retry next_answer register_event resumed 4 (get_timeout true fd_five) three_calls)
io_after_fcntl_example =
    io_after_fcntl set_fl get_fl set_fl next_answer register_event resumed 1 2050 4 true table 0
      fd_five three_calls found is_hooked
