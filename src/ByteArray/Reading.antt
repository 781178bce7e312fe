-- ===== src/ByteArray/Reading.antt =====
-- server/bytearray.cc: `read` on the data.
use native.Mathlib.Nat.{mod-lt}
use zjh_server.Base.{
  ℕ, ◌+◌, ◌-◌, ◌%◌, ◌≤◌, ◌<◌, ◌≡◌, refl, sym, ap, ◌∙◌, List, [], ◌∷◌, arith, length, take, drop,
  slice, length-append, drop-append_add, lt→ltb, le→ltb,
}
use zjh_server.Base.Overwrite.{drop-take, take-take}
use zjh_server.Base.Words.{sub64_lem}
use zjh_server.ByteArray.{
  ByteArray, Node, Result, ok, out_of_range, fault, ◌>>=◌, get_read_size, read_loop, read,
}
use zjh_server.ByteArray.Chain.{bytes, Sized}
use zjh_server.ByteArray.ReadLoop.{HasRead, read_loop_lem}
use zjh_server.ByteArray.Valid.{IsValid, chain, content, length-chain, at_end}
use zjh_server.ByteArray.Writing.{Stops-at}

pub get_read_size_lem : {b : ByteArray} → IsValid b → get_read_size b ≡ b.size - b.position
unfolding get_read_size
get_read_size_lem {b} v =
    sub64_lem b.size b.position v.position_le (omega (arith, v.size_le, v.addressable))

-- What a successful `read(buf, size)` promises: the data from the position on, and the rest kept.
pub record WasRead (size : ℕ) (b : ByteArray) (r : Result (List ℕ × ByteArray)) : Type 0 where
  pub final : ByteArray
  pub returns : r ≡ ok (slice b.position size (content b), final)
  pub valid : IsValid final
  pub same_content : content final ≡ content b
  pub new_position : final.position ≡ b.position + size
  pub same_size : final.size ≡ b.size
  pub same_base : final.base_size ≡ b.base_size
  pub same_endian : final.endian ≡ b.endian

-- A slice of the data is one of the chain.
pub slice-content :
    (b : ByteArray) (n : ℕ)
    → IsValid b
    → b.position + n ≤ b.size
    → slice (b.position % b.base_size) n (bytes b.after) ≡ slice b.position n (content b)
slice-content b n v fit = sym (
    ap (take n) (
      drop-take b.position b.size (chain b)
      ∙ ap (take (b.size - b.position)) (
          drop-append_add b.position (b.position % b.base_size) (bytes b.before) (bytes b.after)
            (omega (arith, v.at))))
    ∙ take-take n (b.size - b.position) (drop (b.position % b.base_size) (bytes b.after))
        (omega arith))

empty-bytes : (s : ℕ) (ns : List Node) → 0 < s → Sized s ns → length (bytes ns) ≡ 0 → ns ≡ []
empty-bytes s [] h z e = refl
empty-bytes s (n ∷ ns) h z e = absurd (omega (arith, length-append n (bytes ns), z.0))

-- On a valid buffer with a block under the cursor, `read` of no more than is left returns
-- that slice of the data and moves the position behind it; the data and the size stay, and
-- the buffer stays valid.
pub read_lem :
    (size : ℕ) (b : ByteArray)
    → IsValid b
    → b.position + size ≤ b.size
    → b.position < b.capacity
    → WasRead size b (read size b)
unfolding read
read_lem size b v fit room = rw (le→ltb _ _ enough) (finish looped)
  where
    enough : size ≤ get_read_size b
    enough = omega (arith, get_read_size_lem v)

    looped :
        HasRead b.base_size v.base_pos
          (b.position % b.base_size)
          size
          b.before
          b.after
          (read_loop (b.position % b.base_size) size b.before b.after)
    looped =
        read_loop_lem b.base_size v.base_pos (b.position % b.base_size) size b.before b.after
          (mod-lt b.position v.base_pos) v.sized_before v.sized_after
          (omega (arith, v.at, v.whole, v.size_le)) (omega (arith, v.at, v.whole, room))

    finish :
        HasRead b.base_size v.base_pos
          (b.position % b.base_size)
          size
          b.before
          b.after
          (read_loop (b.position % b.base_size) size b.before b.after)
        → WasRead size b (
            read_loop (b.position % b.base_size) size b.before b.after >>= λ r. ok (
              r.0,
              record b { position = b.position + size; before = (r.1).before; after = (r.1).after },
            ))
    finish (c, returns, flat, stops) = rw returns (record {
      final = record b { position = b.position + size; before = c.before; after = c.after };
      returns =
          ap
            (λ t.
              ok (t, record b { position = b.position + size; before = c.before; after = c.after }))
            (slice-content b size v fit);
      valid = record {
        base_pos = v.base_pos;
        sized_before = stops.sized_before;
        sized_after = stops.sized_after;
        whole =
            omega (
              arith,
              length-append (bytes c.before) (bytes c.after),
              ap length flat,
              length-chain v,
            );
        at = Stops-at b size c v stops;
        position_le = fit;
        size_le = v.size_le;
        rooted = v.rooted;
        addressable = v.addressable;
      };
      same_content = ap (take b.size) flat;
      new_position = refl;
      same_size = refl;
      same_base = refl;
      same_endian = refl;
    })

pub read_out_of_range :
    (size : ℕ) (b : ByteArray) → IsValid b → b.size < b.position + size → read size b ≡ out_of_range
unfolding read
read_out_of_range size b v over =
    let short : get_read_size b < size = omega (arith, get_read_size_lem v, v.position_le) in
    rw (lt→ltb _ _ short)

-- On a valid buffer with the position at the very end of the chain, where m_cur is null,
-- reading no byte at all faults.
pub read_null : (b : ByteArray) → IsValid b → b.position ≡ b.capacity → read 0 b ≡ fault
unfolding read read_loop
read_null b v e =
    let z : 0 ≤ get_read_size b = omega arith in
    rw (le→ltb _ _ z, empty-bytes b.base_size b.after v.base_pos v.sized_after (at_end v e))
