-- ===== src/Address/Comparing.antt =====
-- server/address.cc: the order of addresses is that of their bytes as texts.
use mathlib.Core.Path.{ap₂}
use zjh_server.Base.{
  ℕ, zero, suc, ◌≤◌, ◌≡◌, refl, sym, ap, ◌∙◌, ◌⊎◌, inl, inr, [], ◌∷◌, arith, ltb, ◌==◌,
  if◌then◌else◌, length, take, length-take, Bool, true, false, Bool-cases, ltb→lt, ltb→le, ==_iff,
}
use zjh_server.Base.Overwrite.{take-take}
use zjh_server.Base.Text.{Text, less_text, same_text, same_text→≡}
use zjh_server.Address.{RawAddress, less_address, same_address}

by_prefix :
    (m : ℕ) (xs ys : Text)
    → m ≤ length xs
    → m ≤ length ys
    → (m ≡ length xs) ⊎ (m ≡ length ys)
    → (if less_text (take m xs) (take m ys)
        then true
        else (if less_text (take m ys) (take m xs) then false else ltb (length xs) (length ys)))
      ≡ less_text xs ys
unfolding less_text
by_prefix zero [] [] h k e = refl
by_prefix zero [] (y ∷ ys) h k e = ground arith
by_prefix zero (x ∷ xs) [] h k e = ground arith
by_prefix zero (x ∷ xs) (y ∷ ys) h k e = absurd (ground (arith, e))
by_prefix (suc m) [] ys h k e = absurd (omega arith)
by_prefix (suc m) (x ∷ xs) [] h k e = absurd (omega arith)
by_prefix (suc m) (x ∷ xs) (y ∷ ys) h k e =
    ground (arith, by_prefix m xs ys (omega arith) (omega arith) (pred e))
  where
    pred : (suc m ≡ suc (length xs)) ⊎ (suc m ≡ suc (length ys)) → (m ≡ length xs) ⊎ (m ≡ length ys)
    pred (inl p) = inl (omega (arith, p))
    pred (inr p) = inr (omega (arith, p))

-- What `operator<` answers once the common part is compared.
decide : ℕ → ℕ → Text → Text → Bool
decide la lb u v = if less_text u v then true else (if less_text v u then false else ltb la lb)

less_lem :
    (m la lb : ℕ) (a b : Text)
    → la ≤ length a
    → lb ≤ length b
    → m ≤ la
    → m ≤ lb
    → (m ≡ la) ⊎ (m ≡ lb)
    → decide la lb (take m a) (take m b) ≡ less_text (take la a) (take lb b)
unfolding decide
less_lem m la lb a b h k p q e =
    let x = length-take la a h in
    let y = length-take lb b k in
    ap₂ (decide la lb) (sym (take-take m la a p)) (sym (take-take m lb b q))
    ∙ ap₂ (λ (i j : ℕ). decide i j (take m (take la a)) (take m (take lb b))) (sym x) (sym y)
    ∙ by_prefix m (take la a) (take lb b) (omega (arith, x, p)) (omega (arith, y, q)) (pick e)
  where
    pick : (m ≡ la) ⊎ (m ≡ lb) → (m ≡ length (take la a)) ⊎ (m ≡ length (take lb b))
    pick (inl r) = inl (r ∙ sym (length-take la a h))
    pick (inr r) = inr (r ∙ sym (length-take lb b k))

same_lengths : (xs ys : Text) → same_text xs ys ≡ true → length xs ≡ length ys
same_lengths xs ys h = ap length (same_text→≡ xs ys h)

-- For addresses whose memory has at least the announced length, `operator<` is the
-- lexicographic order of the bytes of that length, and `operator==` their equality.
pub address_order_lem :
    (a b : RawAddress)
    → a.addr_len ≤ length a.bytes
    → b.addr_len ≤ length b.bytes
    → (less_address a b ≡ less_text (take a.addr_len a.bytes) (take b.addr_len b.bytes))
      × (same_address a b ≡ same_text (take a.addr_len a.bytes) (take b.addr_len b.bytes))
unfolding less_address same_address decide
address_order_lem a b h k = (
  elim (Bool-cases (ltb b.addr_len a.addr_len)) [
    | inl l ↦ rw l (
        less_lem b.addr_len a.addr_len b.addr_len a.bytes b.bytes h k
          (omega (arith, ltb→lt b.addr_len a.addr_len l)) (omega arith) (inr refl))
    | inr l ↦ rw l (
        less_lem a.addr_len a.addr_len b.addr_len a.bytes b.bytes h k (omega arith)
          (ltb→le b.addr_len a.addr_len l) (inl refl))
  ],
  elim (Bool-cases (a.addr_len == b.addr_len)) [
    | inl e ↦ rw e (
        ap (λ (n : ℕ). same_text (take a.addr_len a.bytes) (take n b.bytes))
          ((==_iff a.addr_len b.addr_len).0 e))
    | inr e ↦
        rw e (elim (Bool-cases (same_text (take a.addr_len a.bytes) (take b.addr_len b.bytes))) [
          | inl s ↦
              let d = same_lengths (take a.addr_len a.bytes) (take b.addr_len b.bytes) s in
              let f : a.addr_len ≡ b.addr_len =
                sym (length-take a.addr_len a.bytes h) ∙ d ∙ length-take b.addr_len b.bytes k in
              absurd (ground (arith, e, f))
          | inr s ↦ sym s
        ])
  ],
)
