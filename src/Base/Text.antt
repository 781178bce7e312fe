-- ===== src/Base/Text.antt =====
-- Strings of the C and C++ libraries as lists of bytes: comparison, case, and the part before a
-- NUL byte.
use Prim.Native.Char.{code}
use Prim.Native.String.{String}
use mathlib.Core.Path.{ap₂}
use zjh_server.Base.{
  ℕ, ◌+◌, ◌≡◌, refl, sym, ◌⊎◌, inl, inr, List, [], ◌∷◌, ◌++◌, map, arith, ltb, leb, ◌==◌,
  if◌then◌else◌, Bool, true, false, ◌&&◌, ◌||◌, lt→ltb, ==_iff, Bool-cases,
}
pub mod Decimal

abbrev pub Text : Type 0
Text = List ℕ

-- The bytes of an ASCII literal.
abbrev pub codes : String → Text
codes String.[] = []
codes (String.◌∷◌ c s) = code c ∷ codes s

-- `==` on strings.
unfoldable pub same_text : Text → Text → Bool
same_text [] [] = true
same_text [] (y ∷ ys) = false
same_text (x ∷ xs) [] = false
same_text (x ∷ xs) (y ∷ ys) = x == y && same_text xs ys

-- `strncmp(xs, ys, strlen(xs)) == 0`.
unfoldable pub is_prefix : Text → Text → Bool
is_prefix [] ys = true
is_prefix (x ∷ xs) [] = false
is_prefix (x ∷ xs) (y ∷ ys) = x == y && is_prefix xs ys

-- Whether the first of two texts is the smaller one, byte by byte.
unfoldable pub less_text : Text → Text → Bool
less_text xs [] = false
less_text [] (y ∷ ys) = true
less_text (x ∷ xs) (y ∷ ys) = ltb x y || (x == y && less_text xs ys)

-- `c_str()` ends at the first NUL byte.
unfoldable pub c_str : Text → Text
c_str [] = []
c_str (x ∷ xs) = let rest = c_str xs in if x == 0 then [] else x ∷ rest

unfoldable pub to_lower : ℕ → ℕ
to_lower b = if leb b'A' b && leb b b'Z' then b + 32 else b

-- What `strcasecmp` compares.
unfoldable pub caseless : Text → Text
unfolding to_lower c_str
caseless s = map to_lower (c_str s)

pub same_text→≡ : (xs ys : Text) → same_text xs ys ≡ true → xs ≡ ys
unfolding same_text
same_text→≡ [] [] h = refl
same_text→≡ [] (y ∷ ys) h = absurd (ground (arith, h))
same_text→≡ (x ∷ xs) [] h = absurd (ground (arith, h))
same_text→≡ (x ∷ xs) (y ∷ ys) h = elim (Bool-cases (x == y)) [
  | inl e ↦ rw ((==_iff x y).0 e, same_text→≡ xs ys (ground (arith, h, e))) refl
  | inr e ↦ absurd (ground (arith, h, e))
]

pub same_text_refl : (xs : Text) → same_text xs xs ≡ true
unfolding same_text
same_text_refl [] = refl
same_text_refl (x ∷ xs) = rw ((==_iff x x).1 refl) (same_text_refl xs)

pub less_text_irrefl : (xs : Text) → less_text xs xs ≡ false
unfolding less_text
less_text_irrefl [] = refl
less_text_irrefl (x ∷ xs) = ground (arith, less_text_irrefl xs)

pub less_text_trans :
    (xs ys zs : Text) → less_text xs ys ≡ true → less_text ys zs ≡ true → less_text xs zs ≡ true
unfolding less_text
less_text_trans xs [] zs h k = absurd (ground (arith, h))
less_text_trans xs (y ∷ ys) [] h k = absurd (ground (arith, k))
less_text_trans [] (y ∷ ys) (z ∷ zs) h k = refl
less_text_trans (x ∷ xs) (y ∷ ys) (z ∷ zs) h k = ground (arith, h, k, less_text_trans xs ys zs)

pub less_text_cases :
    (xs ys : Text) → (less_text xs ys ≡ true) ⊎ ((xs ≡ ys) ⊎ (less_text ys xs ≡ true))
unfolding less_text
less_text_cases [] [] = inr (inl refl)
less_text_cases [] (y ∷ ys) = inl refl
less_text_cases (x ∷ xs) [] = inr (inr refl)
less_text_cases (x ∷ xs) (y ∷ ys) = elim (Bool-cases (x == y)) [
  | inl e ↦ elim (less_text_cases xs ys) [
    | inl l ↦ inl (ground (arith, e, l))
    | inr (inl l) ↦ inr (inl (rw ((==_iff x y).0 e, l) refl))
    | inr (inr l) ↦ inr (inr (ground (arith, e, l)))
  ]
  | inr e ↦ elim (Bool-cases (ltb x y)) [
    | inl l ↦ inl (rw l refl)
    | inr l ↦ inr (inr (rw (lt→ltb y x (ground (arith, e, l))) refl))
  ]
]

pub is_prefix_append : (xs ys : Text) → is_prefix xs (xs ++ ys) ≡ true
unfolding is_prefix
is_prefix_append [] ys = refl
is_prefix_append (x ∷ xs) ys = rw ((==_iff x x).1 refl) (is_prefix_append xs ys)

pub is_prefix-split : (xs ys : Text) → is_prefix xs ys ≡ true → (zs : Text) × (ys ≡ xs ++ zs)
unfolding is_prefix
is_prefix-split [] ys h = (ys, refl)
is_prefix-split (x ∷ xs) [] h = absurd (ground (arith, h))
is_prefix-split (x ∷ xs) (y ∷ ys) h = elim (Bool-cases (x == y)) [
  | inl e ↦
      let rest = is_prefix-split xs ys (ground (arith, h, e)) in
      (rest.0, ap₂ (λ t ts. t ∷ ts) (sym ((==_iff x y).0 e)) rest.1)
  | inr e ↦ absurd (ground (arith, h, e))
]
