-- ===== src/Stream.antt =====
-- server/stream.cc: `readFixSize` and `writeFixSize`, over the `read` and `write` that a stream implements.
-- Those are arguments: what a call with `left` bytes to go makes of the stream's state `S`.
pub mod Whole
pub mod Sending
pub mod Examples
use zjh_server.Base.{
  ℕ, zero, suc, ◌+◌, ◌-◌, List, [], ◌∷◌, ◌++◌, ◌==◌, if◌then◌else◌, length, take, drop, Bool, true,
  false,
}

-- What a call moved: bytes, none of them being the answer 0, or the answer -n.
pub data Transfer : Type 0 where
  moved : List ℕ → Transfer
  failed : ℕ → Transfer

-- All the bytes, with `length` as the answer, or the bytes up to the call that ended the loop, with -n
-- as the answer.
pub data Outcome (S : Type 0) : Type 0 where
  whole : S → List ℕ → Outcome S
  broken : S → List ℕ → ℕ → Outcome S
  out_of_fuel : Outcome S

abbrev pub no_bytes : List ℕ → Bool
no_bytes [] = true
no_bytes (b ∷ bs) = false

module _ {S : Type 0} where
  -- The rest of one round: `done` are the bytes so far. A `left` below 0, after a call that moved
  -- more than it was asked for, ends the loop like 0.
  abbrev pub after_call : ℕ → S → List ℕ → Transfer → (ℕ → List ℕ → Outcome S) → Outcome S
  after_call left s done (moved bytes) rest =
      if no_bytes bytes then broken s done 0 else rest (left - length bytes) (done ++ bytes)
  after_call left s done (failed n) rest = broken s done n

  unfoldable pub read_fix_loop : (S → ℕ → S × Transfer) → ℕ → ℕ → S → List ℕ → Outcome S
  read_fix_loop read fuel zero s done = whole s done
  read_fix_loop read zero (suc left) s done = out_of_fuel
  read_fix_loop read (suc fuel) (suc left) s done =
      let r = read s (suc left) in
      after_call (suc left) r.0 done r.1 (λ l d. read_fix_loop read fuel l r.0 d)

  -- `readFixSize`
  unfoldable pub read_fix_size : (S → ℕ → S × Transfer) → ℕ → S → Outcome S
  unfolding read_fix_loop
  read_fix_size read length s = read_fix_loop read length length s []

-- The answer of a call of `write`: how many bytes it took, or -n.
pub data Sent : Type 0 where
  sent : ℕ → Sent
  refused : ℕ → Sent

module _ {S : Type 0} where
  -- The rest of one round of `writeFixSize`: `left` are the bytes to go and `done` those taken.
  abbrev pub after_send : List ℕ → S → List ℕ → Sent → (List ℕ → List ℕ → Outcome S) → Outcome S
  after_send left s done (sent n) rest =
      if n == 0 then broken s done 0 else rest (drop n left) (done ++ take n left)
  after_send left s done (refused n) rest = broken s done n

  unfoldable pub write_fix_loop : (S → List ℕ → S × Sent) → ℕ → List ℕ → S → List ℕ → Outcome S
  write_fix_loop write fuel [] s done = whole s done
  write_fix_loop write zero (b ∷ left) s done = out_of_fuel
  write_fix_loop write (suc fuel) (b ∷ left) s done =
      let r = write s (b ∷ left) in
      after_send (b ∷ left) r.0 done r.1 (λ l d. write_fix_loop write fuel l r.0 d)

  -- `writeFixSize`
  unfoldable pub write_fix_size : (S → List ℕ → S × Sent) → List ℕ → S → Outcome S
  unfolding write_fix_loop
  write_fix_size write buffer s = write_fix_loop write (length buffer) buffer s []
