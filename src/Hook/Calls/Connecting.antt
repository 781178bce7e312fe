-- ===== src/Hook/Calls/Connecting.antt =====
-- server/hook.cc: the theorem on `connect_with_timeout`.
use mathlib.Core.List.{append-nil}
use zjh_server.Base.{
  ℕ, ◌≡◌, refl, sym, ap, ◌∙◌, inl, inr, List, [], Bool, true, false, not, ◌||◌, Option, none, some,
  Bool-cases,
}
use zjh_server.FdManager.{FdCtx, Slots}
use zjh_server.Hook.{IoResult, failed, Action, is_failure, find_ctx, Run, etimedout}
use zjh_server.Hook.Retrying.{timers, round_acts, round_timers, refused_timers}
use zjh_server.Hook.Calls.{socket_error, await_connect, connect_on, connect_with_timeout}

-- A run that ends with its timer cancelled.
Ends : {S : Type 0} → Option (Run S) → Type 0
Ends {S} o = (r : Run S) × (o ≡ some r) × (timers false r.1 ≡ some false)

module _ {S : Type 0} (call : S → S × IoResult) (add_event : S → S × Option ℕ)
    (resumed : ℕ → S → S × Bool) (so_error : S → S × (IoResult × ℕ)) where
  socket_error-Ends :
      (s : S) (acts : List Action)
      → timers false acts ≡ some false
      → Ends (socket_error call add_event resumed so_error s acts)
  unfolding Ends socket_error
  socket_error-Ends s acts t = (_, refl, t)

  await_connect-Ends :
      (to : ℕ) (e : S × Option ℕ) (w : S × Bool)
      → Ends (await_connect call add_event resumed so_error to e w)
  unfolding Ends await_connect round_acts timers
  await_connect-Ends to (s, some errno) w = socket_error-Ends s _ (refused_timers to)
  await_connect-Ends to (s, none) (s2, true) = (
    (s2, round_acts to, failed etimedout),
    refl,
    ap (timers false) (sym (append-nil (round_acts to))) ∙ round_timers to [],
  )
  await_connect-Ends to (s, none) (s2, false) =
      socket_error-Ends s2 (round_acts to)
        (ap (timers false) (sym (append-nil (round_acts to))) ∙ round_timers to [])

  connect_on-Ends :
      (to : ℕ) (ctx : Option FdCtx) (s : S)
      → Ends (connect_on call add_event resumed so_error to ctx s)
  unfolding Ends connect_on timers
  connect_on-Ends to none s = (_, refl, refl)
  connect_on-Ends to (some ctx) s = elim (Bool-cases ctx.is_closed) [
    | inl c ↦ rw c (_, refl, refl)
    | inr c ↦
        elim (Bool-cases
          (not ctx.is_socket || (ctx.user_nonblock || not (is_failure 115 (call s).1)))) [
            | inl d ↦ rw (c, d) (_, refl, refl)
            | inr d ↦
                rw (c, d)
                  (await_connect-Ends to (add_event (call s).0)
                    (resumed to (add_event (call s).0).0))
          ]
  ]

  -- Whatever the environment does, `connect_with_timeout` answers, a timer is never armed twice
  -- at once and every one is cancelled.
  pub connect_lem :
      (hook_enable : Bool) (slots : Slots) (fd to : ℕ) (s : S)
      → (r : Run S) × (connect_with_timeout call add_event resumed so_error hook_enable slots fd to
            s
          ≡ some r)
        × (timers false r.1 ≡ some false)
  unfolding connect_with_timeout timers Ends
  connect_lem true slots fd to s = connect_on-Ends to (find_ctx fd slots) s
  connect_lem false slots fd to s = (_, refl, refl)
