-- ===== src/Stream/Sending.antt =====
-- server/stream.cc: the bytes that `writeFixSize` hands over, in order.
use zjh_server.Base.{
  ℕ, zero, suc, ◌≤◌, ◌<◌, ◌≡◌, refl, sym, ap, ◌∙◌, inl, inr, List, [], ◌∷◌, ◌++◌, arith, ◌==◌,
  length, take, drop, length-drop, take-append-drop, Bool-cases,
}
use mathlib.Core.List.{append_assoc, append-nil}
use zjh_server.Stream.{
  Sent, sent, refused, Outcome, whole, broken, out_of_fuel, after_send, write_fix_loop,
  write_fix_size,
}

-- All of `total` was taken in order, or a beginning of it that is not all.
abbrev pub Delivered : {S : Type 0} → List ℕ → Outcome S → Type 0
Delivered total (whole s done) = done ≡ total
Delivered total (broken s done n) = (left : List ℕ) × (done ++ left ≡ total) × (0 < length left)
Delivered total out_of_fuel = ⊥

module _ {S : Type 0} (total : List ℕ) where
  after_send-Delivered :
      (left : List ℕ) (s : S) (done : List ℕ) (t : Sent) (rest : List ℕ → List ℕ → Outcome S)
      → 0 < length left
      → done ++ left ≡ total
      → ((l d : List ℕ) → length l < length left → d ++ l ≡ total → Delivered total (rest l d))
      → Delivered total (after_send left s done t rest)
  after_send-Delivered left s done (refused n) rest p e h = (left, e, p)
  after_send-Delivered left s done (sent n) rest p e h = elim (Bool-cases (n == 0)) [
    | inl q ↦ rw q (left, e, p)
    | inr q ↦ rw q (
        h (drop n left) (done ++ take n left) (ground (arith, length-drop n left)) (
          append_assoc done (take n left) (drop n left)
          ∙ ap (λ l. done ++ l) (take-append-drop n left)
          ∙ e))
  ]

  write_fix_loop-Delivered :
      (write : S → List ℕ → S × Sent) (fuel : ℕ) (left : List ℕ) (s : S) (done : List ℕ)
      → length left ≤ fuel
      → done ++ left ≡ total
      → Delivered total (write_fix_loop write fuel left s done)
  unfolding write_fix_loop
  write_fix_loop-Delivered write fuel [] s done h e = sym (append-nil done) ∙ e
  write_fix_loop-Delivered write zero (b ∷ left) s done h e = absurd (omega arith)
  write_fix_loop-Delivered write (suc fuel) (b ∷ left) s done h e =
      let r = write s (b ∷ left) in
      after_send-Delivered (b ∷ left) r.0 done r.1 (λ l d. write_fix_loop write fuel l r.0 d)
        (omega arith) e
        (λ l d small f. write_fix_loop-Delivered write fuel l r.0 d (omega (arith, small)) f)

-- `writeFixSize` ends within as many rounds as there are bytes: the stream has taken all of
-- them in order or, after a call that took none or failed, a beginning of them that is not
-- all.
pub write_fix_size_lem :
    {S : Type 0} (write : S → List ℕ → S × Sent) (buffer : List ℕ) (s : S)
    → Delivered buffer (write_fix_size write buffer s)
unfolding write_fix_size
write_fix_size_lem write buffer s =
    write_fix_loop-Delivered buffer write (length buffer) buffer s [] (omega arith) refl
