-- ===== src/Hook/Flags/Views.antt =====
-- server/hook.cc: the theorems on the two views of the non-blocking flag, and on `do_io` after
-- `fcntl`.
use zjh_server.Base.{
  ℕ, zero, suc, ◌≡◌, refl, sym, ap, ◌∙◌, inl, inr, [], ◌∷◌, if◌then◌else◌, Bool, true, false,
  Option, some, arith, Bool-cases, length, get_elem?, set, leb, leb→lt, lt→ltb,
}
use zjh_server.FdManager.{FdCtx, Slots, get, flatten, is_none, set_user_nonblock, get_timeout}
use zjh_server.Hook.{IoResult, find_ctx, straight, retry, io_on, do_io}
use zjh_server.Hook.Flags.{
  nonblock, with_nonblock, hooked, mark_user, sys_view, user_view, fcntl_setfl, fcntl_getfl,
}

pub find_ctx_lem : (fd : ℕ) (slots : Slots) → find_ctx fd slots ≡ flatten (get_elem? slots fd)
unfolding find_ctx get
find_ctx_lem fd slots = elim (Bool-cases (leb (length slots) fd)) [
  | inl l ↦ rw l refl
  | inr l ↦ elim (Bool-cases (is_none (flatten (get_elem? slots fd)))) [
    | inl n ↦ rw (l, lt→ltb fd (length slots) (leb→lt (length slots) fd l), n) refl
    | inr n ↦ rw (l, lt→ltb fd (length slots) (leb→lt (length slots) fd l), n) refl
  ]
]

pub get_elem?-set :
    (slots : Slots) (fd : ℕ) (c v : FdCtx)
    → flatten (get_elem? slots fd) ≡ some c
    → flatten (get_elem? (set slots fd (some v)) fd) ≡ some v
get_elem?-set [] fd c v h = absurd (ground (arith, h))
get_elem?-set (x ∷ xs) zero c v h = refl
get_elem?-set (x ∷ xs) (suc fd) c v h = get_elem?-set xs fd c v h

nonblock-with_nonblock : (b : Bool) (arg : ℕ) → nonblock (with_nonblock b arg) ≡ b
unfolding nonblock with_nonblock
nonblock-with_nonblock true arg = ground arith
nonblock-with_nonblock false arg = ground arith

-- The context after `setUserNonblock`.
find_ctx-mark_user :
    (b : Bool) (fd : ℕ) (ctx : FdCtx) (slots : Slots)
    → find_ctx fd slots ≡ some ctx
    → find_ctx fd (mark_user b fd (some ctx) slots) ≡ some (set_user_nonblock b ctx)
unfolding mark_user
find_ctx-mark_user b fd ctx slots h =
    find_ctx_lem fd (set slots fd (some (set_user_nonblock b ctx)))
    ∙ get_elem?-set slots fd ctx (set_user_nonblock b ctx) (sym (find_ctx_lem fd slots) ∙ h)

module _ {ℓ} {F : Type ℓ} (set_fl : ℕ → F → F) (get_fl : F → ℕ) (set_nbio : ℕ → F → F) where
  setfl_hooked :
      (fd arg : ℕ) (slots : Slots) (f : F) (ctx : FdCtx)
      → find_ctx fd slots ≡ some ctx
      → hooked (some ctx) ≡ true
      → fcntl_setfl set_fl get_fl set_nbio fd arg (slots, f) ≡ (
        mark_user (nonblock arg) fd (some ctx) slots,
        set_fl (with_nonblock ctx.sys_nonblock arg) f,
      )
  unfolding fcntl_setfl sys_view
  setfl_hooked fd arg slots f ctx e h = rw (e, h) refl

  getfl_hooked :
      (fd : ℕ) (slots : Slots) (f : F) (ctx : FdCtx)
      → find_ctx fd slots ≡ some ctx
      → hooked (some ctx) ≡ true
      → fcntl_getfl set_fl get_fl set_nbio fd (slots, f)
        ≡ with_nonblock ctx.user_nonblock (get_fl f)
  unfolding fcntl_getfl user_view
  getfl_hooked fd slots f ctx e h = rw (e, h) refl

  hooked-mark :
      (b : Bool) (ctx : FdCtx) → hooked (some (set_user_nonblock b ctx)) ≡ hooked (some ctx)
  unfolding hooked set_user_nonblock
  hooked-mark b ctx = refl

  -- After F_SETFL on an open socket with a context, on a kernel that keeps the non-blocking
  -- flag it is given, F_GETFL shows the flag as the caller set it, while the kernel has what
  -- the manager made it.
  pub fcntl_lem :
      ((a : ℕ) (f : F) → nonblock (get_fl (set_fl a f)) ≡ nonblock a)
      → (fd arg : ℕ) (slots : Slots) (f : F) (ctx : FdCtx) → find_ctx fd slots ≡ some ctx
      → hooked (some ctx) ≡ true
      → (nonblock (
            fcntl_getfl set_fl get_fl set_nbio fd
              (fcntl_setfl set_fl get_fl set_nbio fd arg (slots, f)))
          ≡ nonblock arg)
        × (nonblock (get_fl (fcntl_setfl set_fl get_fl set_nbio fd arg (slots, f)).1)
            ≡ ctx.sys_nonblock)
  unfolding set_user_nonblock
  fcntl_lem law fd arg slots f ctx e h =
      let user = set_user_nonblock (nonblock arg) ctx in
      let kept = set_fl (with_nonblock ctx.sys_nonblock arg) f in
      let marked = mark_user (nonblock arg) fd (some ctx) slots in
      (
        ap (λ t. nonblock (fcntl_getfl set_fl get_fl set_nbio fd t))
              (setfl_hooked fd arg slots f ctx e h)
            ∙ ap nonblock (
                getfl_hooked fd marked kept user (find_ctx-mark_user (nonblock arg) fd ctx slots e)
                  (hooked-mark (nonblock arg) ctx ∙ h))
            ∙ nonblock-with_nonblock (nonblock arg) (get_fl kept),
        ap (λ t. nonblock (get_fl t.1)) (setfl_hooked fd arg slots f ctx e h)
            ∙ law (with_nonblock ctx.sys_nonblock arg) f
            ∙ nonblock-with_nonblock ctx.sys_nonblock arg,
      )

  -- What the read and write hooks do on the descriptor afterwards.
  module _ {ℓ₂} {S : Type ℓ₂} (call : S → S × IoResult) (add_event : S → S × Option ℕ)
      (resumed : ℕ → S → S × Bool) where
    io_on-hooked :
        (fuel : ℕ) (b receiving : Bool) (ctx : FdCtx) (s : S)
        → hooked (some ctx) ≡ true
        → io_on call add_event resumed fuel (some (set_user_nonblock b ctx)) receiving s ≡ (
            if b
            then straight call add_event resumed s
            else retry call add_event resumed fuel (get_timeout receiving ctx) s)
    unfolding io_on set_user_nonblock hooked get_timeout
    io_on-hooked fuel b receiving ctx s h =
        ground (arith, h, Bool-cases ctx.is_closed, Bool-cases ctx.is_socket, Bool-cases b)

    -- After F_SETFL on an open socket with a context, a hooked read or write goes straight to the
    -- system call if the caller asked for non-blocking, and else makes the rounds with the
    -- timeout of the descriptor.
    pub io_after_fcntl :
        (fd arg fuel : ℕ) (receiving : Bool) (slots : Slots) (f : F) (ctx : FdCtx) (s : S)
        → find_ctx fd slots ≡ some ctx
        → hooked (some ctx) ≡ true
        → do_io call add_event resumed true
            (fcntl_setfl set_fl get_fl set_nbio fd arg (slots, f)).0
            fd
            receiving
            fuel
            s
          ≡ (if nonblock arg
              then straight call add_event resumed s
              else retry call add_event resumed fuel (get_timeout receiving ctx) s)
    unfolding do_io
    io_after_fcntl fd arg fuel receiving slots f ctx s e h =
        ap (λ t. do_io call add_event resumed true t.0 fd receiving fuel s)
          (setfl_hooked fd arg slots f ctx e h)
        ∙ ap (λ c. io_on call add_event resumed fuel c receiving s)
            (find_ctx-mark_user (nonblock arg) fd ctx slots e)
        ∙ io_on-hooked fuel (nonblock arg) receiving ctx s h
