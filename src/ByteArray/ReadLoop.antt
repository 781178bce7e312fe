-- ===== src/ByteArray/ReadLoop.antt =====
-- server/bytearray.cc: the loop of `ByteArray::read`.
use zjh_server.Base.{
  ℕ, zero, suc, ◌+◌, ◌-◌, ◌≤◌, ◌<◌, ◌≡◌, refl, ◌∙◌, inl, inr, List, [], ◌∷◌, ◌++◌, arith, leb, ◌==◌,
  length, slice, length-append, Bool-cases,
}
use zjh_server.Base.Overwrite.{slice-append_left, slice-append_split}
use zjh_server.ByteArray.{Node, Cursor, Result, ok, read_loop}
use zjh_server.ByteArray.Chain.{bytes, Sized, Sized-append, Stops, bytes-snoc, length-bytes-snoc}

module _ (s : ℕ) (pos : 0 < s) where
  -- The loop of `read` copies out the bytes from the cursor on, and leaves the chain as it was.
  abbrev pub HasRead : ℕ → ℕ → List Node → List Node → Result (List ℕ × Cursor) → Type 0
  HasRead npos k before after r =
      (c : Cursor) × (r ≡ ok (slice npos k (bytes after), c))
      × (bytes c.before ++ bytes c.after ≡ bytes before ++ bytes after)
      × Stops s npos k before c

  read_loop_within :
      (npos k : ℕ) (before : List Node) (n : Node) (after : List Node)
      → npos < s
      → Sized s before
      → Sized s (n ∷ after)
      → k ≤ length n - npos
      → HasRead npos k before (n ∷ after) (read_loop npos k before (n ∷ after))
  unfolding read_loop
  read_loop_within npos zero before n after h zb za le = (
    record { before = before; after = n ∷ after },
    refl,
    refl,
    record { off = npos; off_small = h; sized_before = zb; sized_after = za; stop = omega arith },
  )
  read_loop_within npos (suc k) before n after h zb za le =
      let cut = slice-append_left npos (suc k) n (bytes after) (omega arith) in
      elim (Bool-cases (length n == npos + suc k)) [
        | inl e ↦ (
          record { before = before ++ n ∷ []; after = after },
          rw cut (ground arith),
          bytes-snoc before n (bytes after),
          record {
            off = 0;
            off_small = pos;
            sized_before = Sized-append s before (n ∷ []) zb (za.0, tt);
            sized_after = za.1;
            stop = ground (arith, length-bytes-snoc before n);
          },
        )
        | inr e ↦ (
          record { before = before; after = n ∷ after },
          rw cut (ground arith),
          refl,
          record {
            off = npos + suc k;
            off_small = ground arith;
            sized_before = zb;
            sized_after = za;
            stop = omega arith;
          },
        )
      ]

  read_loop_crosses :
      (npos k : ℕ) (before : List Node) (n : Node) (after : List Node)
      → npos ≤ length n
      → length n - npos < k
      → let c = length n - npos in
        HasRead 0 (k - c) (before ++ n ∷ []) after (read_loop 0 (k - c) (before ++ n ∷ []) after)
        → HasRead npos k before (n ∷ after) (read_loop npos k before (n ∷ after))
  unfolding read_loop
  read_loop_crosses npos k before n after le gt (cur, returns, flat, stops) = (
    cur,
    rw (slice-append_split npos (length n - npos) k n (bytes after) (omega arith) (omega arith))
        (ground arith),
    flat ∙ bytes-snoc before n (bytes after),
    record {
      off = stops.off;
      off_small = stops.off_small;
      sized_before = stops.sized_before;
      sized_after = stops.sized_after;
      stop = omega (arith, stops.stop, length-bytes-snoc before n);
    },
  )

  pub read_loop_lem :
      (npos k : ℕ) (before after : List Node)
      → npos < s
      → Sized s before
      → Sized s after
      → npos + k ≤ length (bytes after)
      → 0 < length (bytes after)
      → HasRead npos k before after (read_loop npos k before after)
  read_loop_lem npos k before [] h zb za fit some_room = absurd (omega arith)
  read_loop_lem npos k before (n ∷ after) h zb za fit some_room =
      elim (Bool-cases (leb k (length n - npos))) [
        | inl le ↦ read_loop_within npos k before n after h zb za (ground arith)
        | inr gt ↦
            let cross : length n - npos < k = ground arith in
            let total = length-append n (bytes after) in
            read_loop_crosses npos k before n after (omega arith) cross (
              read_loop_lem 0 (k - (length n - npos)) (before ++ n ∷ []) after pos
                (Sized-append s before (n ∷ []) zb (za.0, tt)) za.1 (omega arith) (omega arith))
      ]
