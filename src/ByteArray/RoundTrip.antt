-- ===== src/ByteArray/RoundTrip.antt =====
-- server/bytearray.cc: `toString`, `read(buf, size, position)`, and reading back what was written.
use mathlib.Core.Path.{ap₂}
use native.Mathlib.Nat.{mod-lt}
use zjh_server.Base.{
  ℕ, ◌+◌, ◌-◌, ◌%◌, ◌^◌, ◌≤◌, ◌<◌, ◌≡◌, refl, sym, ap, ◌∙◌, inl, inr, List, arith, ◌==◌, length,
  take, drop, overwrite, slice, length-drop, take-length, take-append_le, drop_all, Bool-cases,
  le→ltb, ==_iff,
}
use zjh_server.Base.Words.{sub64, sub64_lem}
use zjh_server.Base.Overwrite.{slice-overwrite}
use zjh_server.ByteArray.{
  ByteArray, ok, ◌>>=◌, get_read_size, read_loop, read, read_at, write, set_position, to_string,
}
use zjh_server.ByteArray.ReadLoop.{HasRead, read_loop_lem}
use zjh_server.ByteArray.Valid.{IsValid, content, length-content}
use zjh_server.ByteArray.Reading.{get_read_size_lem, slice-content, WasRead, read_lem}
use zjh_server.ByteArray.Writing.{Written, write_lem}
use zjh_server.ByteArray.Placing.{Placed, Placed-content, set_position_lem}

-- `read(buf, size, position)` returns the data from the position of the buffer on, for any
-- argument with the same offset in a block and enough data.
pub read_at_lem :
    (size p : ℕ) (b : ByteArray)
    → IsValid b
    → p % b.base_size ≡ b.position % b.base_size
    → p + size ≤ b.size
    → b.position + size ≤ b.size
    → b.position < b.capacity
    → read_at size p b ≡ ok (slice b.position size (content b))
unfolding read_at
read_at_lem size p b v same fit here room =
    let left : sub64 b.size p ≡ b.size - p =
      sub64_lem b.size p (omega arith) (omega (arith, v.size_le, v.addressable)) in
    let enough : size ≤ sub64 b.size p = omega (arith, left) in
    rw (le→ltb _ _ enough, same) (finish looped)
  where
    looped :
        HasRead b.base_size v.base_pos
          (b.position % b.base_size)
          size
          b.before
          b.after
          (read_loop (b.position % b.base_size) size b.before b.after)
    looped =
        read_loop_lem b.base_size v.base_pos (b.position % b.base_size) size b.before b.after
          (mod-lt b.position v.base_pos) v.sized_before v.sized_after
          (omega (arith, v.at, v.whole, v.size_le)) (omega (arith, v.at, v.whole, room))

    finish :
        HasRead b.base_size v.base_pos
          (b.position % b.base_size)
          size
          b.before
          b.after
          (read_loop (b.position % b.base_size) size b.before b.after)
        → (read_loop (b.position % b.base_size) size b.before b.after >>= λ r. ok r.0)
          ≡ ok (slice b.position size (content b))
    finish (c, returns, flat, stops) = rw returns (ap ok (slice-content b size v here))

-- On a valid buffer `toString` returns the data from the position on.
pub to_string_lem : (b : ByteArray) → IsValid b → to_string b ≡ ok (drop b.position (content b))
unfolding to_string
to_string_lem b v = elim (Bool-cases (get_read_size b == 0)) [
  | inl e ↦
      let none_left : get_read_size b ≡ 0 = (==_iff _ _).0 e in
      rw e (
        ap ok (
          sym (
            drop_all b.position (content b)
              (omega (arith, length-content v, none_left, get_read_size_lem v)))))
  | inr e ↦
      let some_left : 0 < get_read_size b = ground arith in
      let left = get_read_size_lem v in
      let all : b.position + get_read_size b ≡ b.size = omega (arith, left, v.position_le) in
      rw e (
        read_at_lem (get_read_size b) b.position b v refl (omega (arith, all)) (omega (arith, all))
          (omega (arith, all, some_left, v.size_le))
        ∙ ap ok (
            take-length (get_read_size b) (drop b.position (content b))
              (omega (arith, left, length-drop b.position (content b), length-content v))))
]

-- What is written to a valid buffer, at least one byte, is read back after setting the
-- position to where it was written.
pub write_read_back :
    (buf : List ℕ) (b : ByteArray)
    → IsValid b
    → b.position + length buf + b.base_size ≤ 2 ^ 64
    → 0 < length buf
    → (a : ByteArray) × ((write buf b >>= λ w.
          set_position b.position w >>= λ s. read (length buf) s)
        ≡ ok (buf, a))
      × IsValid a
      × (content a ≡ overwrite b.position buf (content b))
      × (a.position ≡ b.position + length buf)
write_read_back buf b v fit pb = (
  r.final,
  rw w.returns (rw s.returns (r.returns ∙ ap (λ t. ok (t, r.final)) sliced)),
  r.valid,
  r.same_content ∙ stored,
  r.new_position ∙ ap (λ (n : ℕ). n + length buf) s.new_position,
)
  where
    w : Written buf b (write buf b)
    w = write_lem buf b v fit

    covered : b.position + length buf ≤ w.final.size
    covered = ground (arith, w.new_size)

    s : Placed b.position w.final (set_position b.position w.final)
    s = set_position_lem b.position w.final w.valid (omega (arith, covered, w.valid.size_le))

    back : (content s.final ≡ content w.final) × (s.final.size ≡ w.final.size)
    back = Placed-content b.position w.final s (omega (arith, covered))

    stored : content s.final ≡ overwrite b.position buf (content b)
    stored = back.0 ∙ w.new_content

    r : WasRead (length buf) s.final (read (length buf) s.final)
    r =
        read_lem (length buf) s.final s.valid (omega (arith, covered, back.1, s.new_position))
          (omega (arith, covered, back.1, s.new_position, s.valid.size_le, pb))

    sliced : slice s.final.position (length buf) (content s.final) ≡ buf
    sliced =
        ap₂ (λ (p : ℕ) t. slice p (length buf) t) s.new_position stored
        ∙ ap (take (length buf)) (
            slice-overwrite b.position buf (content b)
              (omega (arith, length-content v, v.position_le)))
        ∙ take-append_le (length buf) buf (drop (b.position + length buf) (content b)) (omega arith)
        ∙ take-length (length buf) buf refl
