-- ===== src/ByteArray/Seek.antt =====
-- server/bytearray.cc: the walk of `ByteArray::setPosition`, and the nodes that `addCapacity` links.
use zjh_server.Base.{
  ℕ, ◌-◌, ◌≤◌, ◌<◌, ◌≡◌, refl, ◌∙◌, inl, inr, List, [], ◌∷◌, ◌++◌, arith, ltb, ◌==◌, length,
  length-append, Bool-cases,
}
use zjh_server.ByteArray.{Node, Cursor, Result, ok, seek}
use zjh_server.ByteArray.Chain.{bytes, Sized, Sized-append, Stops, bytes-snoc, length-bytes-snoc}

module _ (s : ℕ) (pos : 0 < s) where
  -- The walk stops at the block that holds offset `v`, and leaves the bytes as they were.
  abbrev pub Sought : ℕ → List Node → List Node → Result Cursor → Type 0
  Sought v before after r =
      (c : Cursor) × (r ≡ ok c)
      × (bytes c.before ++ bytes c.after ≡ bytes before ++ bytes after)
      × Stops s 0 v before c

  seek_within :
      (v : ℕ) (before : List Node) (n : Node) (after : List Node)
      → Sized s before
      → Sized s (n ∷ after)
      → v ≤ length n
      → Sought v before (n ∷ after) (seek v before (n ∷ after))
  unfolding seek
  seek_within v before n after zb za le = elim (Bool-cases (v == length n)) [
    | inl e ↦ (
      record { before = before ++ n ∷ []; after = after },
      ground arith,
      bytes-snoc before n (bytes after),
      record {
        off = 0;
        off_small = pos;
        sized_before = Sized-append s before (n ∷ []) zb (za.0, tt);
        sized_after = za.1;
        stop = ground (arith, length-bytes-snoc before n);
      },
    )
    | inr e ↦ (
      record { before = before; after = n ∷ after },
      ground arith,
      refl,
      record {
        off = v;
        off_small = ground arith;
        sized_before = zb;
        sized_after = za;
        stop = omega arith;
      },
    )
  ]

  seek_beyond :
      (v : ℕ) (before : List Node) (n : Node) (after : List Node)
      → length n < v
      → Sought
          (v - length n)
          (before ++ n ∷ [])
          after
          (seek (v - length n) (before ++ n ∷ []) after)
      → Sought v before (n ∷ after) (seek v before (n ∷ after))
  unfolding seek
  seek_beyond v before n after gt (cur, returns, flat, stops) = (
    cur,
    ground arith,
    flat ∙ bytes-snoc before n (bytes after),
    record {
      off = stops.off;
      off_small = stops.off_small;
      sized_before = stops.sized_before;
      sized_after = stops.sized_after;
      stop = omega (arith, stops.stop, length-bytes-snoc before n);
    },
  )

  pub seek_lem :
      (v : ℕ) (before after : List Node)
      → Sized s before
      → Sized s after
      → v ≤ length (bytes after)
      → 0 < length (bytes after)
      → Sought v before after (seek v before after)
  seek_lem v before [] zb za fit some_room = absurd (omega arith)
  seek_lem v before (n ∷ after) zb za fit some_room = elim (Bool-cases (ltb (length n) v)) [
    | inl e ↦
        let beyond : length n < v = ground arith in
        let total = length-append n (bytes after) in
        seek_beyond v before n after beyond (
          seek_lem (v - length n) (before ++ n ∷ []) after
            (Sized-append s before (n ∷ []) zb (za.0, tt)) za.1 (omega arith) (omega arith))
    | inr e ↦ seek_within v before n after zb za (ground arith)
  ]
