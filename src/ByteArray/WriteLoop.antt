-- ===== src/ByteArray/WriteLoop.antt =====
-- server/bytearray.cc: the loop of `ByteArray::write`.
use zjh_server.Base.{
  ℕ, ◌+◌, ◌-◌, ◌≤◌, ◌<◌, ◌≡◌, sym, ap, ◌∙◌, inl, inr, List, [], ◌∷◌, ◌++◌, arith, leb, ◌==◌, length,
  take, drop, overwrite, length-append, length-take, length-drop, Bool-cases,
}
use zjh_server.Base.Overwrite.{length-overwrite, overwrite-append_left, overwrite-append_split}
use zjh_server.ByteArray.{Node, Cursor, Result, ok, write_loop}
use zjh_server.ByteArray.Chain.{bytes, Sized, Sized-append, Stops, bytes-snoc, length-bytes-snoc}

-- The loop of `write` leaves the chain as one overwrite of its bytes.
abbrev pub Wrote : ℕ → ℕ → List ℕ → List Node → List Node → Result Cursor → Type 0
Wrote s npos buf before after r =
    (c : Cursor) × (r ≡ ok c)
    × (bytes c.before ++ bytes c.after ≡ bytes before ++ overwrite npos buf (bytes after))
    × Stops s npos (length buf) before c

module _ (s : ℕ) (pos : 0 < s) where
  write_loop_within :
      (npos : ℕ) (buf : List ℕ) (before : List Node) (n : Node) (after : List Node)
      → npos < s
      → Sized s before
      → Sized s (n ∷ after)
      → length buf ≤ length n - npos
      → Wrote s npos buf before (n ∷ after) (write_loop npos buf before (n ∷ after))
  unfolding write_loop
  write_loop_within npos buf before n after h zb za le =
      elim (Bool-cases (length n == npos + length buf)) [
        | inl e ↦ (
          record { before = before ++ n' ∷ []; after = after },
          ground arith,
          bytes-snoc before n' (bytes after) ∙ ap (λ t. bytes before ++ t) (sym flat),
          record {
            off = 0;
            off_small = pos;
            sized_before = Sized-append s before (n' ∷ []) zb (same, tt);
            sized_after = za.1;
            stop = ground (arith, length-bytes-snoc before n', kept);
          },
        )
        | inr e ↦ (
          record { before = before; after = n' ∷ after },
          ground arith,
          ap (λ t. bytes before ++ t) (sym flat),
          record {
            off = npos + length buf;
            off_small = ground arith;
            sized_before = zb;
            sized_after = (same, za.1);
            stop = omega arith;
          },
        )
      ]
    where
      n' : Node
      n' = overwrite npos buf n

      kept : length n' ≡ length n
      kept = length-overwrite npos buf n (omega arith)

      same : length n' ≡ s
      same = kept ∙ za.0

      flat : overwrite npos buf (n ++ bytes after) ≡ n' ++ bytes after
      flat = overwrite-append_left npos buf n (bytes after) (omega arith)

  write_loop_crosses :
      (npos : ℕ) (buf : List ℕ) (before : List Node) (n : Node) (after : List Node)
      → npos ≤ length n
      → length n - npos < length buf
      → let c = length n - npos in
        let n' = overwrite npos (take c buf) n in
        Wrote s 0
          (drop c buf)
          (before ++ n' ∷ [])
          after
          (write_loop 0 (drop c buf) (before ++ n' ∷ []) after)
        → Wrote s npos buf before (n ∷ after) (write_loop npos buf before (n ∷ after))
  unfolding write_loop
  write_loop_crosses npos buf before n after le gt (cur, returns, flat, stops) = (
    cur,
    ground arith,
    flat
        ∙ (bytes-snoc before n' (overwrite 0 (drop c buf) (bytes after))
            ∙ ap (λ t. bytes before ++ t) (sym split)),
    record {
      off = stops.off;
      off_small = stops.off_small;
      sized_before = stops.sized_before;
      sized_after = stops.sized_after;
      stop = omega (
        arith,
        stops.stop,
        length-bytes-snoc before n',
        length-drop c buf,
        length-overwrite npos (take c buf) n (omega (arith, length-take c buf (omega arith))),
      );
    },
  )
    where
      c : ℕ
      c = length n - npos

      n' : Node
      n' = overwrite npos (take c buf) n

      split : overwrite npos buf (n ++ bytes after) ≡ n' ++ overwrite 0 (drop c buf) (bytes after)
      split = overwrite-append_split npos c buf n (bytes after) (omega arith) (omega arith)

  pub write_loop_lem :
      (npos : ℕ) (buf : List ℕ) (before after : List Node)
      → npos < s
      → Sized s before
      → Sized s after
      → 0 < length buf
      → npos + length buf ≤ length (bytes after)
      → Wrote s npos buf before after (write_loop npos buf before after)
  write_loop_lem npos buf before [] h zb za pb fit = absurd (omega arith)
  write_loop_lem npos buf before (n ∷ after) h zb za pb fit =
      elim (Bool-cases (leb (length buf) (length n - npos))) [
        | inl le ↦ write_loop_within npos buf before n after h zb za (ground arith)
        | inr gt ↦
            let cross : length n - npos < length buf = ground arith in
            let c : ℕ = length n - npos in
            let n' : Node = overwrite npos (take c buf) n in
            let part : length (take c buf) ≡ c = length-take c buf (omega arith) in
            let kept : length n' ≡ length n = length-overwrite npos (take c buf) n (omega arith) in
            write_loop_crosses npos buf before n after (omega arith) cross (
              write_loop_lem 0 (drop c buf) (before ++ n' ∷ []) after pos
                (Sized-append s before (n' ∷ []) zb (kept ∙ za.0, tt)) za.1
                (omega (arith, length-drop c buf))
                (omega (arith, length-drop c buf, length-append n (bytes after))))
      ]
