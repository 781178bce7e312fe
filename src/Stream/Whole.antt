-- ===== src/Stream/Whole.antt =====
-- server/stream.cc: the loop ends, with all the bytes or at the first call that moves none.
use zjh_server.Base.{
  ℕ, zero, suc, ◌+◌, ◌-◌, ◌≤◌, ◌<◌, ◌≡◌, inl, inr, List, [], ◌∷◌, ◌++◌, arith, length,
  length-append, false, Bool-cases,
}
use zjh_server.Stream.{
  Transfer, moved, failed, Outcome, whole, broken, out_of_fuel, no_bytes, after_call, read_fix_loop,
  read_fix_size,
}

-- A call moves no more than it is asked for.
abbrev pub Bounded : ℕ → Transfer → Type 0
Bounded left (moved bytes) = length bytes ≤ left
Bounded left (failed n) = Unit {0}

-- The loop has all the bytes, or ended with fewer.
abbrev pub Ended : {S : Type 0} → ℕ → Outcome S → Type 0
Ended total (whole s done) = length done ≡ total
Ended total (broken s done n) = length done < total
Ended total out_of_fuel = ⊥

no_bytes_lem : (bs : List ℕ) → no_bytes bs ≡ false → 0 < length bs
no_bytes_lem [] e = ground arith
no_bytes_lem (b ∷ bs) e = omega arith

module _ {S : Type 0} (total : ℕ) where
  after_call-Ended :
      (left : ℕ) (s : S) (done : List ℕ) (t : Transfer) (rest : ℕ → List ℕ → Outcome S)
      → 0 < left
      → length done + left ≡ total
      → Bounded left t
      → ((l : ℕ) (d : List ℕ) → l < left → length d + l ≡ total → Ended total (rest l d))
      → Ended total (after_call left s done t rest)
  after_call-Ended left s done (failed n) rest p e b h = omega arith
  after_call-Ended left s done (moved bytes) rest p e b h = elim (Bool-cases (no_bytes bytes)) [
    | inl q ↦ rw q (omega arith)
    | inr q ↦
        let some_bytes = no_bytes_lem bytes q in
        rw q (
          h (left - length bytes) (done ++ bytes) (omega (arith, some_bytes))
            (omega (arith, length-append done bytes, b)))
  ]

  read_fix_loop-Ended :
      (read : S → ℕ → S × Transfer) (fuel left : ℕ) (s : S) (done : List ℕ)
      → ((u : S) (n : ℕ) → Bounded n (read u n).1)
      → left ≤ fuel
      → length done + left ≡ total
      → Ended total (read_fix_loop read fuel left s done)
  unfolding read_fix_loop
  read_fix_loop-Ended read fuel zero s done c h e = omega (arith, e)
  read_fix_loop-Ended read zero (suc left) s done c h e = absurd (omega arith)
  read_fix_loop-Ended read (suc fuel) (suc left) s done c h e =
      let r = read s (suc left) in
      after_call-Ended (suc left) r.0 done r.1 (λ l d. read_fix_loop read fuel l r.0 d)
        (omega arith) e (c s (suc left))
        (λ l d small f. read_fix_loop-Ended read fuel l r.0 d c (omega (arith, small)) f)

pub read_fix_size_lem :
    {S : Type 0} (read : S → ℕ → S × Transfer) (size : ℕ) (s : S)
    → ((u : S) (n : ℕ) → Bounded n (read u n).1)
    → Ended size (read_fix_size read size s)
unfolding read_fix_size
read_fix_size_lem read size s c =
    read_fix_loop-Ended size read size size s [] c (omega arith) (omega arith)
