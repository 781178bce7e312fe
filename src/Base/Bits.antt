-- ===== src/Base/Bits.antt =====
-- The bit operations that the byte codecs use, as arithmetic: `|` of disjoint fields, `&` with a
-- mask of low bits, and `^` with nothing or with all ones.
use Prim.Native.Nat.{
  min, max, bit_and, bit_or, bit_xor, digits, differ, bitwise, bit_and-bitwise, bit_or-bitwise,
  bit_xor-bitwise,
}
use native.Mathlib.Nat.{pow-suc, one-le-pow}
use zjh_server.Base.{ℕ, zero, suc, ◌+◌, ◌-◌, ◌*◌, ◌/◌, ◌%◌, ◌^◌, ◌≤◌, ◌<◌, ◌≡◌, refl, ap, arith}

module _ (z : ℕ → ℕ) (f : ℕ → ℕ → ℕ) where
  -- The count of digits to go does not matter once it covers the first number.
  count_free : (i j a b : ℕ) → i ≤ j → a ≤ i → digits z f j a b ≡ digits z f i a b
  count_free zero zero a b p q = refl
  count_free zero (suc j) zero b p q = refl
  count_free zero (suc j) (suc a) b p q = absurd (omega arith)
  count_free (suc i) zero a b p q = absurd (omega arith)
  count_free (suc i) (suc j) zero b p q = refl
  count_free (suc i) (suc j) (suc a) b p q =
      ap (λ (t : ℕ). t * 2 + f (suc a % 2) (b % 2))
        (count_free i j (suc a / 2) (b / 2) (omega arith) (omega arith))

  lowest_digit :
      (a b : ℕ)
      → bitwise z f (suc a) b ≡ 2 * bitwise z f (suc a / 2) (b / 2) + f (suc a % 2) (b % 2)
  lowest_digit a b =
      omega (arith, count_free (suc a / 2) a (suc a / 2) (b / 2) (omega arith) (omega arith))

or_step : (a b : ℕ) → bit_or a b ≡ 2 * bit_or (a / 2) (b / 2) + max (a % 2) (b % 2)
or_step zero b = simp bit_or-bitwise (omega arith)
or_step (suc a) b = simp bit_or-bitwise (lowest_digit (λ y. y) max a b)

pub and_step : (a b : ℕ) → bit_and a b ≡ 2 * bit_and (a / 2) (b / 2) + min (a % 2) (b % 2)
and_step zero b = simp bit_and-bitwise (omega arith)
and_step (suc a) b = simp bit_and-bitwise (lowest_digit (λ y. 0) min a b)

xor_step : (a b : ℕ) → bit_xor a b ≡ 2 * bit_xor (a / 2) (b / 2) + differ (a % 2) (b % 2)
xor_step zero b = simp bit_xor-bitwise (ground arith)
xor_step (suc a) b = simp bit_xor-bitwise (lowest_digit (λ y. y) differ a b)

zero-or : (b : ℕ) → bit_or 0 b ≡ b
zero-or b = bit_or-bitwise 0 b

differ-zero : (r : ℕ) → differ r 0 ≡ r
differ-zero zero = refl
differ-zero (suc r) = refl

differ-one : (r o : ℕ) → o ≡ 1 → r < 2 → differ r o ≡ 1 - r
differ-one r o e h = rw e (below r h)
  where
    below : (r : ℕ) → r < 2 → differ r 1 ≡ 1 - r
    below zero h = refl
    below (suc zero) h = refl
    below (suc (suc r)) h = absurd (omega arith)

xor-zero_below : (n a : ℕ) → a ≤ n → bit_xor a 0 ≡ a
xor-zero_below n zero h = bit_xor-bitwise 0 0
xor-zero_below zero (suc a) h = absurd (omega arith)
xor-zero_below (suc n) (suc a) h =
    ground (
      arith,
      xor_step (suc a) 0,
      differ-zero (suc a % 2),
      xor-zero_below n (suc a / 2) (omega arith),
    )

pub xor-zero : (a : ℕ) → bit_xor a 0 ≡ a
xor-zero a = xor-zero_below a a (omega arith)

and-zero_below : (n a : ℕ) → a ≤ n → bit_and a 0 ≡ 0
and-zero_below n zero h = bit_and-bitwise 0 0
and-zero_below zero (suc a) h = absurd (omega arith)
and-zero_below (suc n) (suc a) h =
    ground (arith, and_step (suc a) 0, and-zero_below n (suc a / 2) (omega arith))

-- A field above the bits of `a` is added to it.
pub or_above : (k a q : ℕ) → a < 2 ^ k → bit_or a (q * 2 ^ k) ≡ a + q * 2 ^ k
or_above zero a q h = let e : a ≡ 0 = omega arith in rw e (omega (arith, zero-or (q * 1)))
or_above (suc k) a q h =
    let p : q * 2 ^ suc k ≡ 2 * (q * 2 ^ k) = omega (arith, ap (λ (t : ℕ). q * t) (pow-suc 2 k)) in
    let double = pow-suc 2 k in
    ground (arith, p, double, or_step a (q * 2 ^ suc k), or_above k (a / 2) q (omega arith))

-- A mask of `k` ones keeps the remainder by `2 ^ k`.
and_mask_field : (k q r : ℕ) → r < 2 ^ k → bit_and (r + q * 2 ^ k) (2 ^ k - 1) ≡ r
and_mask_field zero q r h =
    let e : r ≡ 0 = omega arith in rw e (and-zero_below (0 + q * 1) (0 + q * 1) (omega arith))
and_mask_field (suc k) q r h =
    let p : q * 2 ^ suc k ≡ 2 * (q * 2 ^ k) = omega (arith, ap (λ (t : ℕ). q * t) (pow-suc 2 k)) in
    ground (
      arith,
      p,
      pow-suc 2 k,
      one-le-pow k 2 (omega arith),
      and_step (r + q * 2 ^ suc k) (2 ^ suc k - 1),
      and_mask_field k q (r / 2) (omega (arith, pow-suc 2 k)),
    )

pub and_mask : (k a : ℕ) → bit_and a (2 ^ k - 1) ≡ a % 2 ^ k
and_mask k a =
    ground (arith, one-le-pow k 2 (omega arith), and_mask_field k (a / 2 ^ k) (a % 2 ^ k))

-- `^` with `k` ones turns every bit.
pub xor_ones : (k a : ℕ) → a < 2 ^ k → bit_xor a (2 ^ k - 1) ≡ 2 ^ k - 1 - a
xor_ones zero a h = let e : a ≡ 0 = omega arith in rw e (bit_xor-bitwise 0 0)
xor_ones (suc k) a h = ground (
  arith,
  pow-suc 2 k,
  one-le-pow k 2 (omega arith),
  xor_step a (2 ^ suc k - 1),
  differ-one (a % 2) ((2 ^ suc k - 1) % 2)
      (omega (arith, pow-suc 2 k, one-le-pow k 2 (omega arith))) (omega arith),
  xor_ones k (a / 2) (omega (arith, pow-suc 2 k)),
)
