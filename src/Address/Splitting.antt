-- ===== src/Address/Splitting.antt =====
-- server/address.cc: how a host is split into the node and the service that are looked up.
use zjh_server.Base.{
  ℕ, ◌≡◌, refl, inl, inr, [], ◌∷◌, ◌++◌, arith, ◌==◌, if◌then◌else◌, false, none, some, Bool-cases,
  ==_iff,
}
use zjh_server.Base.Text.{Text}
use zjh_server.Base.Text.Decimal.{has_byte}
use zjh_server.Address.{split_at, service_after, split_bracket, split_colon, split_host}

split_at-append :
    (b : ℕ) (xs ys : Text) → has_byte b xs ≡ false → split_at b (xs ++ (b ∷ ys)) ≡ some (xs, ys)
unfolding split_at has_byte
split_at-append b [] ys h = rw ((==_iff b b).1 refl) refl
split_at-append b (x ∷ xs) ys h = elim (Bool-cases (x == b)) [
  | inl e ↦ absurd (ground (arith, h, e))
  | inr e ↦ rw (e, split_at-append b xs ys (ground (arith, h, e))) refl
]

split_at-none : (b : ℕ) (xs : Text) → has_byte b xs ≡ false → split_at b xs ≡ none
unfolding split_at has_byte
split_at-none b [] h = refl
split_at-none b (x ∷ xs) h = elim (Bool-cases (x == b)) [
  | inl e ↦ absurd (ground (arith, h, e))
  | inr e ↦ rw (e, split_at-none b xs (ground (arith, h, e))) refl
]

colon_lem :
    (x : ℕ) (xs service : Text)
    → (x == b'[') ≡ false
    → has_byte b':' (x ∷ xs) ≡ false
    → split_host ((x ∷ xs) ++ (b':' ∷ service)) ≡ (
        if has_byte b':' service
        then ((x ∷ xs) ++ (b':' ∷ service), some (b':' ∷ service))
        else (x ∷ xs, some service))
unfolding split_host split_bracket split_colon
colon_lem x xs service a b = elim (Bool-cases (has_byte b':' service)) [
  | inl t ↦ rw (a, split_at-append b':' (x ∷ xs) service b, t) refl
  | inr t ↦ rw (a, split_at-append b':' (x ∷ xs) service b, t) refl
]

-- For a non-empty name without a colon or a closing bracket that does not begin with an
-- opening one, `Lookup` asks for the name alone if nothing follows, for name and service if
-- they are joined by the only colon or if the name is in brackets, and with more colons for
-- the whole host and what stands from the first colon on.
pub split_host_lem :
    (x : ℕ) (xs service : Text)
    → (x == b'[') ≡ false
    → has_byte b':' (x ∷ xs) ≡ false
    → has_byte b']' (x ∷ xs) ≡ false
    → (split_host (x ∷ xs) ≡ (x ∷ xs, none))
      × (split_host ((x ∷ xs) ++ (b':' ∷ service)) ≡ (
          if has_byte b':' service
          then ((x ∷ xs) ++ (b':' ∷ service), some (b':' ∷ service))
          else (x ∷ xs, some service)))
      × (split_host (b'[' ∷ ((x ∷ xs) ++ (b']' ∷ b':' ∷ service))) ≡ (x ∷ xs, some service))
unfolding split_host split_bracket split_colon service_after
split_host_lem x xs service a b c = (
  rw (a, split_at-none b':' (x ∷ xs) b) refl,
  colon_lem x xs service a b,
  rw (split_at-append b']' (x ∷ xs) (b':' ∷ service) c) refl,
)
