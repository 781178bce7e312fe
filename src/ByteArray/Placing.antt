-- ===== src/ByteArray/Placing.antt =====
-- server/bytearray.cc: `setPosition`, `clear`, `toString` and `read(buf, size, position)`.
use mathlib.Core.Path.{ap₂}
use mathlib.Core.List.{append-nil}
use native.Mathlib.Nat.{zero-mod}
use zjh_server.Base.{
  ℕ, ◌+◌, ◌%◌, ◌^◌, ◌≤◌, ◌<◌, ◌≡◌, refl, ap, ◌∙◌, List, [], ◌∷◌, ◌++◌, arith, ltb, if◌then◌else◌,
  length, take, length-append, lt→ltb, le→ltb,
}
use zjh_server.ByteArray.{
  ByteArray, Node, Cursor, Result, ok, out_of_range, ◌>>=◌, seek, set_position, clear,
}
use zjh_server.ByteArray.Chain.{bytes, Sized, Sized-append, bytes-append, Stops, bytes-mod}
use zjh_server.ByteArray.Seek.{Sought, seek_lem}
use zjh_server.ByteArray.Valid.{IsValid, chain, content, length-chain}

-- What a successful `setPosition(v)` promises.
pub record Placed (v : ℕ) (b : ByteArray) (r : Result ByteArray) : Type 0 where
  pub final : ByteArray
  pub returns : r ≡ ok final
  pub valid : IsValid final
  pub same_chain : chain final ≡ chain b
  pub new_position : final.position ≡ v
  pub new_size : final.size ≡ (if ltb b.size v then v else b.size)
  pub same_capacity : final.capacity ≡ b.capacity
  pub same_base : final.base_size ≡ b.base_size
  pub same_endian : final.endian ≡ b.endian

-- On a valid buffer `setPosition` succeeds up to the capacity, keeps the bytes, puts the
-- cursor on the block of the position, and extends the size to it.
pub set_position_lem :
    (p : ℕ) (b : ByteArray) → IsValid b → p ≤ b.capacity → Placed p b (set_position p b)
unfolding set_position
set_position_lem p b v fit = rw (le→ltb _ _ fit) (finish sought)
  where
    total : length (bytes (b.before ++ b.after)) ≡ b.capacity
    total = ap length (bytes-append b.before b.after) ∙ length-chain v

    sought :
        Sought b.base_size v.base_pos p [] (b.before ++ b.after) (seek p [] (b.before ++ b.after))
    sought =
        seek_lem b.base_size v.base_pos p [] (b.before ++ b.after) tt
          (Sized-append b.base_size b.before b.after v.sized_before v.sized_after)
          (omega (arith, total)) (omega (arith, total, v.rooted))

    finish :
        Sought b.base_size v.base_pos p [] (b.before ++ b.after) (seek p [] (b.before ++ b.after))
        → Placed p b (
            seek p [] (b.before ++ b.after) >>= λ c. ok (record b {
              position = p;
              size = if ltb b.size p then p else b.size;
              before = c.before;
              after = c.after;
            }))
    finish (c, returns, flat, stops) =
        let whole : bytes c.before ++ bytes c.after ≡ chain b =
          flat ∙ bytes-append b.before b.after in
        let offset : p % b.base_size ≡ stops.off =
          rw (← omega_stop c stops)
            (bytes-mod b.base_size stops.off c.before stops.off_small stops.sized_before) in
        rw returns (record {
          final = record b {
            position = p;
            size = if ltb b.size p then p else b.size;
            before = c.before;
            after = c.after;
          };
          returns = refl;
          valid = record {
            base_pos = v.base_pos;
            sized_before = stops.sized_before;
            sized_after = stops.sized_after;
            whole = omega (
              arith,
              length-append (bytes c.before) (bytes c.after),
              ap length whole,
              length-chain v,
            );
            at = omega (arith, offset, omega_stop c stops);
            position_le = ground arith;
            size_le = ground (arith, v.size_le);
            rooted = v.rooted;
            addressable = v.addressable;
          };
          same_chain = whole;
          new_position = refl;
          new_size = refl;
          same_capacity = refl;
          same_base = refl;
          same_endian = refl;
        })
      where
        omega_stop :
            (c : Cursor) (st : Stops b.base_size 0 p [] c) → length (bytes c.before) + st.off ≡ p
        omega_stop c st = omega (arith, st.stop)

pub set_position_out_of_range :
    (p : ℕ) (b : ByteArray) → b.capacity < p → set_position p b ≡ out_of_range
unfolding set_position
set_position_out_of_range p b over = rw (lt→ltb _ _ over)

-- `clear` gives a valid buffer of one block with no data.
pub clear_lem :
    (b : ByteArray)
    → IsValid b
    → (a : ByteArray) × (clear b ≡ ok a)
      × IsValid a
      × (content a ≡ [])
      × (a.position ≡ 0)
      × (a.capacity ≡ b.base_size)
unfolding clear
clear_lem b v =
    rooted (b.before ++ b.after)
      (Sized-append b.base_size b.before b.after v.sized_before v.sized_after)
      (omega (arith, ap length (bytes-append b.before b.after), length-chain v, v.rooted)) refl
  where
    rooted :
        (ns : List Node)
        → Sized b.base_size ns
        → 0 < length (bytes ns)
        → b.before ++ b.after ≡ ns
        → (a : ByteArray) × (clear b ≡ ok a)
          × IsValid a
          × (content a ≡ [])
          × (a.position ≡ 0)
          × (a.capacity ≡ b.base_size)
    rooted [] z some_room e = absurd (omega arith)
    rooted (root ∷ ns) z some_room e = (
      record b { position = 0; size = 0; capacity = b.base_size; before = []; after = root ∷ [] },
      rw (e, clear),
      record {
        base_pos = v.base_pos;
        sized_before = tt;
        sized_after = (z.0, tt);
        whole = rw append-nil (omega (arith, z.0));
        at = omega (arith, zero-mod b.base_size);
        position_le = omega arith;
        size_le = omega arith;
        rooted = v.base_pos;
        addressable = omega (arith, small);
      },
      refl,
      refl,
      refl,
    )
      where
        small : b.base_size < 2 ^ 64
        small = omega (
          arith,
          ap (λ t. length (bytes t)) e,
          ap length (bytes-append b.before b.after),
          length-chain v,
          v.addressable,
          length-append root (bytes ns),
          z.0,
        )

-- Going back into the data leaves it as it is.
pub Placed-content :
    (p : ℕ) (b : ByteArray) {r : Result ByteArray} (w : Placed p b r)
    → p ≤ b.size
    → (content w.final ≡ content b) × (w.final.size ≡ b.size)
Placed-content p b w h =
    let kept : w.final.size ≡ b.size = ground (arith, w.new_size) in
    (ap₂ (λ (n : ℕ) t. take n t) kept w.same_chain, kept)
