-- ===== src/Hook/Calls/Effects.antt =====
-- server/hook.cc: what `setsockopt` and `close` mean for the reads and writes that follow, and the
-- times that the hooks of sleeping keep.
use zjh_server.Base.{
  ℕ, zero, suc, ◌+◌, ◌*◌, ◌/◌, ◌≤◌, ◌<◌, ◌≡◌, refl, sym, ap, ◌∙◌, inl, inr, [], ◌∷◌, Bool, true,
  false, leb, Option, none, some, arith, Bool-cases, Option-cases, leb→le, length, get_elem?, set,
}
use zjh_server.FdManager.{FdCtx, Slots, flatten, del, set_timeout, get_timeout}
use zjh_server.Hook.{IoResult, find_ctx, straight, retry, io_on, do_io}
use zjh_server.Hook.Flags.{hooked}
use zjh_server.Hook.Flags.Views.{find_ctx_lem, get_elem?-set}
use zjh_server.Hook.Calls.{sleep_ms, nanosleep_ms, set_timeout_on, setsockopt, close_on, close_fd}

get_elem?-erased : (slots : Slots) (fd : ℕ) → flatten (get_elem? (set slots fd none) fd) ≡ none
get_elem?-erased [] fd = refl
get_elem?-erased (x ∷ xs) zero = refl
get_elem?-erased (x ∷ xs) (suc fd) = get_elem?-erased xs fd

find_ctx-del : (fd : ℕ) (slots : Slots) → find_ctx fd (del fd slots) ≡ none
unfolding del
find_ctx-del fd slots = elim (Bool-cases (leb (length slots) fd)) [
  | inl l ↦ rw l (find_ctx_lem fd slots ∙ beyond slots fd (leb→le (length slots) fd l))
  | inr l ↦ rw l (find_ctx_lem fd (set slots fd none) ∙ get_elem?-erased slots fd)
]
  where
    beyond : (slots : Slots) (fd : ℕ) → length slots ≤ fd → flatten (get_elem? slots fd) ≡ none
    beyond [] fd h = refl
    beyond (x ∷ xs) zero h = absurd (omega arith)
    beyond (x ∷ xs) (suc fd) h = beyond xs fd (omega arith)

module _ {S : Type 0} (call : S → S × IoResult) (add_event : S → S × Option ℕ)
    (resumed : ℕ → S → S × Bool) where
  on_set :
      (receiving : Bool) (ms fuel : ℕ) (ctx : FdCtx) (s : S)
      → hooked (some ctx) ≡ true
      → ctx.user_nonblock ≡ false
      → io_on call add_event resumed fuel (some (set_timeout receiving ms ctx)) receiving s
        ≡ retry call add_event resumed fuel ms s
  unfolding io_on set_timeout get_timeout hooked
  on_set true ms fuel ctx s h u =
      ground (arith, h, u, Bool-cases ctx.is_closed, Bool-cases ctx.is_socket)
  on_set false ms fuel ctx s h u =
      ground (arith, h, u, Bool-cases ctx.is_closed, Bool-cases ctx.is_socket)

  pub io_after_close :
      (has_iom receiving : Bool) (fd fuel : ℕ) (slots : Slots) (s : S)
      → do_io call add_event resumed true (close_fd true has_iom fd slots).1 fd receiving fuel s
        ≡ straight call add_event resumed s
  unfolding do_io close_fd close_on io_on
  io_after_close has_iom receiving fd fuel slots s = elim (Option-cases (find_ctx fd slots)) [
    | inl n ↦ rw (n, n) refl
    | inr (ctx, c) ↦ rw (c, find_ctx-del fd slots) refl
  ]

  pub io_after_setsockopt :
      (receiving : Bool) (fd sec usec fuel : ℕ) (slots : Slots) (ctx : FdCtx) (s : S)
      → find_ctx fd slots ≡ some ctx
      → hooked (some ctx) ≡ true
      → ctx.user_nonblock ≡ false
      → do_io call add_event resumed true
          (setsockopt true fd receiving sec usec slots)
          fd
          receiving
          fuel
          s
        ≡ retry call add_event resumed fuel (sec * 1000 + usec / 1000) s
  unfolding do_io setsockopt set_timeout_on
  io_after_setsockopt receiving fd sec usec fuel slots ctx s e h u = rw e (
      ap (λ c. io_on call add_event resumed fuel c receiving s)
        (find_ctx_lem fd
            (set slots fd (some (set_timeout receiving (sec * 1000 + usec / 1000) ctx)))
          ∙ get_elem?-set slots fd ctx (set_timeout receiving (sec * 1000 + usec / 1000) ctx)
              (sym (find_ctx_lem fd slots) ∙ e))
      ∙ on_set receiving (sec * 1000 + usec / 1000) fuel ctx s h u)

-- Below 2147483 seconds and with less than a second of nanoseconds, `sleep` waits the seconds
-- it is given and `nanosleep` the milliseconds that are over, less than one short.
pub sleep_times_lem :
    (sec nsec : ℕ)
    → sec < 2147483
    → nsec < 1000000000
    → (sleep_ms sec ≡ sec * 1000)
      × (nanosleep_ms sec nsec ≡ sec * 1000 + nsec / 1000000)
      × (nanosleep_ms sec nsec * 1000000 ≤ sec * 1000000000 + nsec)
      × (sec * 1000000000 + nsec < (nanosleep_ms sec nsec + 1) * 1000000)
unfolding sleep_ms nanosleep_ms
sleep_times_lem sec nsec h k = (ground arith, ground arith, ground arith, ground arith)
