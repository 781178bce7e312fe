-- ===== src/Base/Overwrite.antt =====
-- What copying into and out of a concatenation of buffers does to the bytes as a whole.
use mathlib.Core.List.{append_assoc, append-nil}
use native.Mathlib.Nat.{zero-add}
use zjh_server.Base.{
  ℕ, zero, suc, ◌+◌, ◌-◌, ◌≤◌, ◌≡◌, refl, sym, ap, ◌∙◌, List, [], ◌∷◌, ◌++◌, arith, length, take,
  drop, overwrite, slice, length-append, length-take, length-drop, take-append-drop, take-length,
  drop_all, take-append_le, drop-append_le, take-append_add, drop-append_add,
}

module _ {ℓ} {A : Type ℓ} where
  pub length-overwrite :
      (p : ℕ) (xs ys : List A) → p + length xs ≤ length ys → length (overwrite p xs ys) ≡ length ys
  length-overwrite p xs ys h = omega (
    arith,
    length-append (take p ys) (xs ++ drop (p + length xs) ys),
    length-append xs (drop (p + length xs) ys),
    length-take p ys (omega arith),
    length-drop (p + length xs) ys,
  )

  -- An overwrite that starts behind `a` leaves `a` alone.
  pub overwrite-append_right :
      (p q : ℕ) (xs a b : List A)
      → q ≡ length a + p
      → overwrite q xs (a ++ b) ≡ a ++ overwrite p xs b
  overwrite-append_right p q xs a b h =
      rw
        (
          take-append_add q p a b h,
          drop-append_add (q + length xs) (p + length xs) a b (omega arith),
          append_assoc,
        )
        refl

  -- One that ends within `a` leaves `b` alone.
  pub overwrite-append_left :
      (p : ℕ) (xs a b : List A)
      → p + length xs ≤ length a
      → overwrite p xs (a ++ b) ≡ overwrite p xs a ++ b
  overwrite-append_left p xs a b h =
      rw
        (
          take-append_le p a b (omega arith),
          drop-append_le (p + length xs) a b h,
          append_assoc (take p a) (xs ++ drop (p + length xs) a) b,
          append_assoc xs (drop (p + length xs) a) b,
        )
        refl

  -- One that crosses the border is two, the first filling `a` to its end.
  pub overwrite-append_split :
      (p c : ℕ) (xs a b : List A)
      → p + c ≡ length a
      → c ≤ length xs
      → overwrite p xs (a ++ b) ≡ overwrite p (take c xs) a ++ overwrite 0 (drop c xs) b
  overwrite-append_split p c xs a b e h =
      rw
        (
          take-append_le p a b (omega arith),
          drop-append_add (p + length xs) (length xs - c) a b (omega arith),
          drop_all (p + length (take c xs)) a (omega (arith, length-take c xs h)),
          append-nil,
          length-drop c xs,
          append_assoc,
          zero-add,
        )
        (ap (λ t. take p a ++ t)
          (ap (λ t. t ++ drop (length xs - c) b) (sym (take-append-drop c xs))
            ∙ append_assoc (take c xs) (drop c xs) (drop (length xs - c) b)))

  pub slice-overwrite :
      (p : ℕ) (xs ys : List A)
      → p ≤ length ys
      → drop p (overwrite p xs ys) ≡ xs ++ drop (p + length xs) ys
  slice-overwrite p xs ys h =
      drop-append_add p 0 (take p ys) (xs ++ drop (p + length xs) ys)
        (omega (arith, length-take p ys h))

  pub slice-append_left :
      (p n : ℕ) (a b : List A) → p + n ≤ length a → slice p n (a ++ b) ≡ slice p n a
  slice-append_left p n a b h =
      rw (drop-append_le p a b (omega arith))
        (take-append_le n (drop p a) b (omega (arith, length-drop p a)))

  pub slice-append_split :
      (p c n : ℕ) (a b : List A)
      → p + c ≡ length a
      → c ≤ n
      → slice p n (a ++ b) ≡ slice p c a ++ slice 0 (n - c) b
  slice-append_split p c n a b e h = rw (drop-append_le p a b (omega arith)) (
      take-append_add n (n - c) (drop p a) b (omega (arith, length-drop p a))
      ∙ ap (λ t. t ++ take (n - c) b)
          (sym (take-length c (drop p a) (omega (arith, length-drop p a)))))

  pub drop-take : (k n : ℕ) (ys : List A) → drop k (take n ys) ≡ take (n - k) (drop k ys)
  drop-take zero n ys = let e : n - 0 ≡ n = omega arith in rw e
  drop-take (suc k) zero ys = let e : 0 - suc k ≡ 0 = omega arith in rw e
  drop-take (suc k) (suc n) [] = take_nil (suc n - suc k)
    where
      take_nil : (j : ℕ) → ◌≡◌ {A = List A} [] (take j [])
      take_nil zero = refl
      take_nil (suc j) = refl
  drop-take (suc k) (suc n) (y ∷ ys) =
      let e : suc n - suc k ≡ n - k = omega arith in rw e (drop-take k n ys)

  pub take-take : (p n : ℕ) (ys : List A) → p ≤ n → take p (take n ys) ≡ take p ys
  take-take zero n ys h = refl
  take-take (suc p) zero ys h = absurd (omega arith)
  take-take (suc p) (suc n) [] h = refl
  take-take (suc p) (suc n) (y ∷ ys) h = ap (λ t. y ∷ t) (take-take p n ys (omega arith))

  -- Cutting to a size commutes with an overwrite that the new size covers.
  pub take-overwrite :
      (p n m : ℕ) (xs ys : List A)
      → p ≤ n
      → n ≤ length ys
      → p + length xs ≤ m
      → m - (p + length xs) ≡ n - (p + length xs)
      → take m (overwrite p xs ys) ≡ overwrite p xs (take n ys)
  take-overwrite p n m xs ys h1 h2 h3 h4 =
      rw (take-take p n ys h1, drop-take (p + length xs) n ys, ← h4)
        (take-append_add m (m - p) (take p ys) (xs ++ drop (p + length xs) ys)
            (omega (arith, length-take p ys (omega arith)))
          ∙ ap (λ t. take p ys ++ t)
              (take-append_add (m - p) (m - (p + length xs)) xs (drop (p + length xs) ys)
                (omega arith)))
