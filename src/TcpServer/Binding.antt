-- ===== src/TcpServer/Binding.antt =====
-- server/tcp_server.cc: what `bind` of several addresses comes to.
use mathlib.Core.List.{append_assoc, append-nil}
use mathlib.Core.Path.{ap₂}
use zjh_server.Base.{
  ℕ, ◌≡◌, refl, sym, ap, ◌∙◌, inl, inr, List, [], ◌∷◌, ◌++◌, if◌then◌else◌, Bool, true, ◌&&◌,
  Bool-cases,
}
use zjh_server.TcpServer.{TcpServer, Attempt, bind_loop, no_fails, bind_all}

unfoldable pub all_bound : List Attempt → Bool
all_bound [] = true
all_bound (a ∷ rest) = (a.binds && a.listens) && all_bound rest

unfoldable pub bound : List Attempt → List ℕ
bound [] = []
bound (a ∷ rest) =
    let others = bound rest in if a.binds && a.listens then a.sock ∷ others else others

-- The addresses where one of the calls fails.
unfoldable pub failing : List Attempt → List ℕ
failing [] = []
failing (a ∷ rest) =
    let others = failing rest in if a.binds && a.listens then others else a.address ∷ others

bind_loop_lem :
    (attempts : List Attempt) (socks fails : List ℕ)
    → bind_loop attempts socks fails ≡ (socks ++ bound attempts, fails ++ failing attempts)
unfolding bind_loop bound failing
bind_loop_lem [] socks fails =
    ap₂ (λ (u v : List ℕ). (u, v)) (sym (append-nil socks)) (sym (append-nil fails))
bind_loop_lem (a ∷ rest) socks fails = elim (Bool-cases (a.binds && a.listens)) [
  | inl h ↦ rw h (
      bind_loop_lem rest (socks ++ a.sock ∷ []) fails
      ∙ ap (λ (u : List ℕ). (u, fails ++ failing rest))
          (append_assoc socks (a.sock ∷ []) (bound rest)))
  | inr h ↦ rw h (
      bind_loop_lem rest socks (fails ++ a.address ∷ [])
      ∙ ap (λ (u : List ℕ). (socks ++ bound rest, u))
          (append_assoc fails (a.address ∷ []) (failing rest)))
]

no_fails_lem : (attempts : List Attempt) → no_fails (failing attempts) ≡ all_bound attempts
unfolding failing all_bound
no_fails_lem [] = refl
no_fails_lem (a ∷ rest) = elim (Bool-cases (a.binds && a.listens)) [
  | inl h ↦ rw h (no_fails_lem rest)
  | inr h ↦ rw h refl
]

-- `bind` of several addresses, with no failures before, succeeds exactly if each socket binds
-- and listens, reports exactly the addresses where one does not, and keeps the sockets it had
-- with all the new ones, in order, or none at all.
pub bind_all_lem :
    (attempts : List Attempt) (s : TcpServer)
    → let r = bind_all attempts [] s in
      (r.2 ≡ all_bound attempts)
      × (r.1 ≡ failing attempts)
      × (r.0.socks ≡ (if all_bound attempts then s.socks ++ bound attempts else []))
unfolding bind_all
bind_all_lem attempts s =
    let l = bind_loop_lem attempts s.socks [] in
    let f : no_fails (bind_loop attempts s.socks []).1 ≡ all_bound attempts =
      ap (λ t. no_fails t.1) l ∙ no_fails_lem attempts in
    (f, ap (λ t. t.1) l, ap₂ (λ (b : Bool) (t : List ℕ). if b then t else []) f (ap (λ t. t.0) l))
