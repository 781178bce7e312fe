-- ===== src/Address/Counting.antt =====
-- server/address.cc: `CountBytes` counts the bits that are set.
use Prim.Native.Nat.{bit_and}
use native.Mathlib.Nat.{pow-suc}
use zjh_server.Base.{
  ℕ, zero, suc, ◌+◌, ◌*◌, ◌/◌, ◌%◌, ◌^◌, ◌≤◌, ◌<◌, ◌≡◌, refl, ap, ◌∙◌, inl, inr, arith, ◌==◌, some,
  Bool-cases, ==_iff,
}
use zjh_server.Base.Bits.{and_step}
use zjh_server.Address.{count_bytes}

-- The sum of the lowest `k` binary digits.
unfoldable pub ones : ℕ → ℕ → ℕ
ones zero v = 0
ones (suc k) v = v % 2 + ones k (v / 2)

and_same_below : (n a : ℕ) → a ≤ n → bit_and a a ≡ a
and_same_below zero a h = let e : a ≡ 0 = omega arith in rw e refl
and_same_below (suc n) zero h = refl
and_same_below (suc n) (suc a) h =
    ground (arith, and_step (suc a) (suc a), and_same_below n (suc a / 2) (omega arith))

ones_zero : (k : ℕ) → ones k 0 ≡ 0
unfolding ones
ones_zero zero = refl
ones_zero (suc k) = omega (arith, ones_zero k)

-- Taking the lowest bit away.
clear_lem :
    (k v : ℕ)
    → suc v < 2 ^ k
    → (bit_and (suc v) v < suc v) × (suc (ones k (bit_and (suc v) v)) ≡ ones k (suc v))
unfolding ones
clear_lem zero v h = absurd (omega arith)
clear_lem (suc k) v h = elim (Bool-cases (suc v % 2 == 1)) [
  | inl o ↦
      let odd : suc v % 2 ≡ 1 = (==_iff (suc v % 2) 1).0 o in
      let q : suc v / 2 ≡ v / 2 = omega (arith, odd) in
      let s : bit_and (suc v / 2) (v / 2) ≡ v / 2 =
        ap (λ (t : ℕ). bit_and t (v / 2)) q ∙ and_same_below (v / 2) (v / 2) (omega arith) in
      let c : bit_and (suc v) v ≡ v = ground (arith, and_step (suc v) v, s, odd) in
      let u : ones k (suc v / 2) ≡ ones k (v / 2) = ap (λ (t : ℕ). ones k t) q in
      (omega (arith, c), rw c (omega (arith, odd, u)))
  | inr o ↦
      let even : suc v % 2 ≡ 0 = ground (arith, o) in
      let q : suc v / 2 ≡ suc (v / 2) = omega (arith, even) in
      let ih = clear_lem k (v / 2) (omega (arith, pow-suc 2 k, q, even)) in
      let s : bit_and (suc v / 2) (v / 2) ≡ bit_and (suc (v / 2)) (v / 2) =
        ap (λ (t : ℕ). bit_and t (v / 2)) q in
      let c : bit_and (suc v) v ≡ 2 * bit_and (suc (v / 2)) (v / 2) =
        ground (arith, and_step (suc v) v, s, even) in
      let d : 2 * bit_and (suc (v / 2)) (v / 2) / 2 ≡ bit_and (suc (v / 2)) (v / 2) = omega arith in
      let u : ones k (suc v / 2) ≡ ones k (suc (v / 2)) = ap (λ (t : ℕ). ones k t) q in
      let w : ones k (2 * bit_and (suc (v / 2)) (v / 2) / 2)
          ≡ ones k (bit_and (suc (v / 2)) (v / 2)) =
        ap (λ (t : ℕ). ones k t) d in
      (omega (arith, c, ih.0, q), rw c (omega (arith, w, ih.1, u, even)))
]

count_lem : (fuel k v r : ℕ) → v < fuel → v < 2 ^ k → count_bytes fuel v r ≡ some (r + ones k v)
unfolding count_bytes
count_lem zero k v r h p = absurd (omega arith)
count_lem (suc fuel) k zero r h p = ap some (omega (arith, ones_zero k))
count_lem (suc fuel) k (suc v) r h p =
    let c = clear_lem k v p in
    count_lem fuel k (bit_and (suc v) v) (suc r) (omega (arith, c.0)) (omega (arith, c.0))
    ∙ ap some (omega (arith, c.1))

pub count_bytes_lem : (k v : ℕ) → v < 2 ^ k → count_bytes (suc v) v 0 ≡ some (ones k v)
count_bytes_lem k v h = count_lem (suc v) k v 0 (omega arith) h ∙ ap some (omega arith)
