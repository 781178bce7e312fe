-- ===== src/ByteArray/Gathering.antt =====
-- server/bytearray.cc: what the collected buffers hold.
use zjh_server.Base.{
  ℕ, ◌+◌, ◌-◌, ◌%◌, ◌^◌, ◌≤◌, ◌<◌, ◌≡◌, refl, sym, ◌∙◌, inl, inr, List, [], ◌∷◌, ◌++◌, arith, ltb,
  leb, length, slice, length-append, false, Option, none, some, Bool-cases, get_elem?, le→ltb,
  leb→le, leb→lt, pos→==,
}
use mathlib.Core.List.{append_assoc, append-nil}
use native.Mathlib.Nat.{mod-lt}
use zjh_server.Base.Overwrite.{slice-append_left, slice-append_split}
use zjh_server.ByteArray.{ByteArray, Node, Result, ok, get_read_size, add_capacity}
use zjh_server.ByteArray.Chain.{bytes, Sized}
use zjh_server.ByteArray.Valid.{IsValid, content, Grown, add_capacity_lem}
use zjh_server.ByteArray.Reading.{slice-content, get_read_size_lem}
use zjh_server.ByteArray.Buffers.{Iovec, buffers_loop, at_most, get_read_buffers, get_write_buffers}

abbrev pub part : Option Node → Iovec → List ℕ
part none v = []
part (some n) v = slice v.offset v.len n

-- The bytes that a vector of buffers names in a chain.
abbrev pub gather : List Node → List Iovec → List ℕ
gather nodes [] = []
gather nodes (v ∷ vs) = part (get_elem? nodes v.block) v ++ gather nodes vs

get_elem?-append :
    (before : List Node) (n : Node) (after : List Node)
    → get_elem? (before ++ n ∷ after) (length before) ≡ some n
get_elem?-append [] n after = refl
get_elem?-append (x ∷ before) n after = get_elem?-append before n after

-- What collecting `len` bytes promises.
abbrev pub Gathers : ℕ → ℕ → List Node → List Node → Result (List Iovec) → Type 0
Gathers npos len all nodes r =
    (iovs : List Iovec) × (r ≡ ok iovs) × (gather all iovs ≡ slice npos len (bytes nodes))

buffers_loop_lem :
    (s npos len index : ℕ) (all before nodes : List Node)
    → index ≡ length before
    → all ≡ before ++ nodes
    → npos < s
    → Sized s nodes
    → 0 < len
    → npos + len ≤ length (bytes nodes)
    → Gathers npos len all nodes (buffers_loop npos len index nodes)
unfolding buffers_loop
buffers_loop_lem s npos len index all before [] i a h z p fit = ground arith
buffers_loop_lem s npos len index all before (n ∷ after) i a h z p fit =
    let inside : ltb (length n) npos ≡ false = le→ltb (length n) npos (omega (arith, z.0)) in
    let found : get_elem? all index ≡ some n = rw (a, i) (get_elem?-append before n after) in
    elim (Bool-cases (leb len (length n - npos))) [
      | inl e ↦
          let fits = leb→le len (length n - npos) e in
          (
            record { block = index; offset = npos; len = len } ∷ [],
            rw (inside, e) refl,
            rw found (
                append-nil (slice npos len n)
                ∙ sym (slice-append_left npos len n (bytes after) (omega (arith, fits, z.0)))),
          )
      | inr e ↦
          let ncap = length n - npos in
          let crosses = leb→lt len ncap e in
          let (iovs, f, g) =
            buffers_loop_lem s 0 (len - ncap) (index + 1) all (before ++ n ∷ []) after
              (omega (arith, i, length-append before (n ∷ [])))
              (a ∙ sym (append_assoc before (n ∷ []) after)) (omega arith) z.1
              (omega (arith, crosses)) (omega (arith, fit, z.0, length-append n (bytes after))) in
          (
            record { block = index; offset = npos; len = ncap } ∷ iovs,
            rw (inside, e, f) refl,
            rw (found, g)
                (sym (
                  slice-append_split npos ncap len n (bytes after) (omega (arith, z.0))
                    (omega (arith, crosses)))),
          )
    ]

-- On a valid buffer with data left and for at least one byte, `getReadBuffers` appends
-- buffers that hold, one after the other, the next bytes of the data, as many as asked for or
-- all that are left, and answers how many.
pub get_read_buffers_lem :
    (buffers : List Iovec) (len : ℕ) (b : ByteArray)
    → IsValid b
    → 0 < len
    → b.position < b.size
    → (iovs : List Iovec) × (get_read_buffers buffers len b
        ≡ ok (buffers ++ iovs, at_most len (get_read_size b)))
      × (gather (b.before ++ b.after) iovs
          ≡ slice b.position (at_most len (get_read_size b)) (content b))
unfolding get_read_buffers
get_read_buffers_lem buffers len b v p left =
    let rest : get_read_size b ≡ b.size - b.position = get_read_size_lem v in
    let size = at_most len (get_read_size b) in
    let size_pos : 0 < size = ground arith in
    let size_le : b.position + size ≤ b.size = ground arith in
    let (iovs, e, g) =
      buffers_loop_lem b.base_size (b.position % b.base_size) size (length b.before)
        (b.before ++ b.after) b.before b.after refl refl (mod-lt b.position v.base_pos)
        v.sized_after size_pos (omega (arith, v.at, v.whole, v.size_le, size_le)) in
    (iovs, rw (pos→== size size_pos, e) refl, g ∙ slice-content b size v size_le)

-- On a valid buffer that stays addressable and for at least one byte, `getWriteBuffers` makes
-- room like `addCapacity` and appends buffers that are that many bytes of the chain from the
-- position on.
pub get_write_buffers_lem :
    (buffers : List Iovec) (len : ℕ) (b : ByteArray)
    → IsValid b
    → 0 < len
    → b.position + len + b.base_size ≤ 2 ^ 64
    → (a : ByteArray) × (iovs : List Iovec) × (get_write_buffers buffers len b
        ≡ ok (a, (buffers ++ iovs, len)))
      × Grown len b a
      × (gather (a.before ++ a.after) iovs ≡ slice (a.position % a.base_size) len (bytes a.after))
unfolding get_write_buffers
get_write_buffers_lem buffers len b v p fit =
    let a = add_capacity len b in
    let g = add_capacity_lem len b v p fit in
    let va = g.valid in
    let (iovs, e, h) =
      buffers_loop_lem a.base_size (a.position % a.base_size) len (length a.before)
        (a.before ++ a.after) a.before a.after refl refl (mod-lt a.position va.base_pos)
        va.sized_after p (omega (arith, va.at, va.whole, g.room)) in
    (a, iovs, rw (pos→== len p, e) refl, g, h)
