-- ===== src/ByteArray/Writing.antt =====
-- server/bytearray.cc: `write` overwrites the data at the position.
use mathlib.Core.Path.{ap₂}
use native.Mathlib.Nat.{add-zero, mod-lt}
use zjh_server.Base.{
  pos→==, ℕ, suc, ◌+◌, ◌%◌, ◌^◌, ◌≤◌, ◌<◌, ◌≡◌, refl, sym, ap, ◌∙◌, List, [], ◌∷◌, ◌++◌, arith, ltb,
  if◌then◌else◌, length, take, overwrite, length-append, take-append-drop,
}
use zjh_server.Base.Overwrite.{overwrite-append_right, take-overwrite, length-overwrite}
use zjh_server.ByteArray.{
  ByteArray, Cursor, Result, ok, ◌>>=◌, add_capacity, write_loop, advance, write,
}
use zjh_server.ByteArray.Chain.{bytes, Stops, bytes-mod}
use zjh_server.ByteArray.WriteLoop.{Wrote, write_loop_lem}
use zjh_server.ByteArray.Valid.{IsValid, chain, content, length-chain, Grown, add_capacity_lem}

-- What `write(buf, size)` promises.
pub record Written (buf : List ℕ) (b : ByteArray) (r : Result ByteArray) : Type 0 where
  pub final : ByteArray
  pub returns : r ≡ ok final
  pub valid : IsValid final
  pub new_content : content final ≡ overwrite b.position buf (content b)
  pub new_position : final.position ≡ b.position + length buf
  pub new_size :
      final.size
      ≡ (if ltb b.size (b.position + length buf) then b.position + length buf else b.size)
  pub same_base : final.base_size ≡ b.base_size
  pub same_endian : final.endian ≡ b.endian

-- The position at which a loop stopped is that of the cursor.
pub Stops-at :
    (b : ByteArray) (k : ℕ) (c : Cursor)
    → IsValid b
    → Stops b.base_size (b.position % b.base_size) k b.before c
    → length (bytes c.before) + (b.position + k) % b.base_size ≡ b.position + k
Stops-at b k c v st =
    let total : length (bytes c.before) + st.off ≡ b.position + k = omega (arith, st.stop, v.at) in
    let offset : (b.position + k) % b.base_size ≡ st.off =
      rw (← total) (bytes-mod b.base_size st.off c.before st.off_small st.sized_before) in
    omega (arith, total, offset)

overwrite-nil : (p : ℕ) (ys : List ℕ) → overwrite p [] ys ≡ ys
overwrite-nil p ys = rw add-zero (take-append-drop p ys)

write_room :
    (buf : List ℕ) (a : ByteArray)
    → IsValid a
    → a.position + length buf ≤ a.capacity
    → 0 < length buf
    → Written buf a (
        write_loop (a.position % a.base_size) buf a.before a.after >>= λ c.
        ok (advance (length buf) c a))
unfolding advance
write_room buf a v room pb = finish wrote
  where
    size' : ℕ
    size' = if ltb a.size (a.position + length buf) then a.position + length buf else a.size

    wrote :
        Wrote a.base_size
          (a.position % a.base_size)
          buf
          a.before
          a.after
          (write_loop (a.position % a.base_size) buf a.before a.after)
    wrote =
        write_loop_lem a.base_size v.base_pos (a.position % a.base_size) buf a.before a.after
          (mod-lt a.position v.base_pos) v.sized_before v.sized_after pb
          (omega (arith, room, v.at, v.whole))

    fits : a.position + length buf ≤ length (chain a)
    fits = omega (arith, room, length-chain v)

    finish :
        Wrote a.base_size
          (a.position % a.base_size)
          buf
          a.before
          a.after
          (write_loop (a.position % a.base_size) buf a.before a.after)
        → Written buf a (
            write_loop (a.position % a.base_size) buf a.before a.after >>= λ c.
            ok (advance (length buf) c a))
    finish (c, returns, flat, stops) =
        let whole : bytes c.before ++ bytes c.after ≡ overwrite a.position buf (chain a) =
          flat
          ∙ sym (
              overwrite-append_right (a.position % a.base_size) a.position buf (bytes a.before)
                (bytes a.after) (omega (arith, v.at))) in
        rw returns (record {
          final = advance (length buf) c a;
          returns = refl;
          valid = record {
            base_pos = v.base_pos;
            sized_before = stops.sized_before;
            sized_after = stops.sized_after;
            whole = omega (
              arith,
              length-append (bytes c.before) (bytes c.after),
              ap length whole,
              length-overwrite a.position buf (chain a) fits,
              length-chain v,
            );
            at = Stops-at a (length buf) c v stops;
            position_le = ground (arith, v.position_le);
            size_le = ground (arith, v.size_le);
            rooted = v.rooted;
            addressable = v.addressable;
          };
          new_content =
              ap (take size') whole
              ∙ take-overwrite a.position a.size size' buf (chain a) v.position_le
                  (omega (arith, v.size_le, length-chain v)) (ground arith) (ground arith);
          new_position = refl;
          new_size = refl;
          same_base = refl;
          same_endian = refl;
        })

-- On a valid buffer that stays addressable, `write` returns a valid buffer whose data is the
-- old data overwritten from the position on by what was written, whose position is behind it,
-- and whose size is the larger of the old size and the new position.
pub write_lem :
    (buf : List ℕ) (b : ByteArray)
    → IsValid b
    → b.position + length buf + b.base_size ≤ 2 ^ 64
    → Written buf b (write buf b)
unfolding write
write_lem [] b v fit = record {
  final = b;
  returns = refl;
  valid = v;
  new_content = sym (overwrite-nil b.position (content b));
  new_position = omega arith;
  new_size = ground (arith, v.position_le);
  same_base = refl;
  same_endian = refl;
}
write_lem (x ∷ buf) b v fit =
    rw (pos→== (suc (length buf)) (omega arith)) (
      regrow
        (write_room (x ∷ buf) a g.valid (omega (arith, g.room, g.same_position)) (omega arith)))
  where
    a : ByteArray
    a = add_capacity (length (x ∷ buf)) b

    g : Grown (length (x ∷ buf)) b a
    g = add_capacity_lem (length (x ∷ buf)) b v (omega arith) fit

    regrow : {r : Result ByteArray} → Written (x ∷ buf) a r → Written (x ∷ buf) b r
    regrow w = record {
      final = w.final;
      returns = w.returns;
      valid = w.valid;
      new_content =
          w.new_content ∙ ap₂ (λ (p : ℕ) t. overwrite p (x ∷ buf) t) g.same_position g.same_content;
      new_position = omega (arith, w.new_position, g.same_position);
      new_size =
          w.new_size
          ∙ ap₂ (λ (n p : ℕ). if ltb n (p + suc (length buf)) then p + suc (length buf) else n)
              g.same_size g.same_position;
      same_base = w.same_base ∙ g.same_base;
      same_endian = w.same_endian ∙ g.same_endian;
    }
