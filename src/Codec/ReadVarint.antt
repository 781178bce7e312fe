-- ===== src/Codec/ReadVarint.antt =====
-- server/bytearray.cc: the loop of `readUint32` and `readUint64` against that of the writes.
use Prim.Native.Nat.{bit_and, bit_or}
use mathlib.Core.Path.{subst}
use native.Mathlib.Nat.{mod-eq_of_lt}
use native.Mathlib.Numerals.{towards_suc}
use zjh_server.Base.{
  ℕ, zero, suc, ◌+◌, ◌*◌, ◌/◌, ◌%◌, ◌^◌, ◌≤◌, ◌<◌, ◌≡◌, ap, ◌∙◌, inl, inr, List, ◌∷◌, ◌++◌, arith,
  length, drop, some, lt→ltb, le→ltb,
}
use zjh_server.Base.Bits.{or_above}
use zjh_server.ByteArray.{ByteArray, Endian, ok, ◌>>=◌, set_position}
use zjh_server.ByteArray.Valid.{IsValid, content}
use zjh_server.ByteArray.Remaining.{remaining, Yields, write_then_read}
use zjh_server.Codec.{
  read_fuint8, varint_bytes, read_varint, write_uint32, write_uint64, read_uint32, read_uint64,
}
use zjh_server.Codec.Varint.{
  read_fuint8-Yields, varint_bytes_cases, regroup, bits_below, low_bits, write_varint-Written,
}

module _ (host : Endian) (w : ℕ) where
  -- One round of the read loop, on a byte that ends the varint or on one that does not.
  last_round :
      (rounds i acc v : ℕ) (rest : List ℕ) (b : ByteArray)
      → IsValid b
      → remaining b ≡ v ∷ rest
      → v < 128
      → acc < 2 ^ i
      → acc + v * 2 ^ i < 2 ^ w
      → Yields (acc + v * 2 ^ i) rest b.endian (read_varint host w (suc rounds) i acc b)
  unfolding read_varint
  last_round rounds i acc v rest b h r ends small below = record {
    final = y.final;
    returns = rw y.returns (rw (lt→ltb v 128 ends) (ap (λ (t : ℕ). ok (t, y.final)) value));
    valid = y.valid;
    left = y.left;
    same_endian = y.same_endian;
  }
    where
      y : Yields v rest b.endian (read_fuint8 host b)
      y = read_fuint8-Yields host v rest b h r

      value : bit_or acc (v * 2 ^ i % 2 ^ w) ≡ acc + v * 2 ^ i
      value = ap (bit_or acc) (mod-eq_of_lt (omega (arith, below))) ∙ or_above i acc v small

  next_round :
      (rounds i acc v : ℕ) (tail rest : List ℕ) (b : ByteArray)
      → IsValid b
      → remaining b ≡ ((v % 128 + 128) ∷ tail) ++ rest
      → acc < 2 ^ i
      → acc + v * 2 ^ i < 2 ^ w
      → ((a : ByteArray)
          → IsValid a
          → remaining a ≡ tail ++ rest
          → Yields
              (acc + v * 2 ^ i)
              rest
              a.endian
              (read_varint host w rounds (i + 7) (acc + v % 128 * 2 ^ i) a))
      → Yields (acc + v * 2 ^ i) rest b.endian (read_varint host w (suc rounds) i acc b)
  unfolding read_varint
  next_round rounds i acc v tail rest b h r small below go = record {
    final = z.final;
    returns = rw y.returns (
        rw (le→ltb (v % 128 + 128) 128 (omega arith))
          (ap (λ (t : ℕ). read_varint host w rounds (i + 7) t y.final) value ∙ z.returns));
    valid = z.valid;
    left = z.left;
    same_endian = z.same_endian ∙ y.same_endian;
  }
    where
      y : Yields (v % 128 + 128) (tail ++ rest) b.endian (read_fuint8 host b)
      y = read_fuint8-Yields host (v % 128 + 128) (tail ++ rest) b h r

      z :
          Yields
            (acc + v * 2 ^ i)
            rest
            y.final.endian
            (read_varint host w rounds (i + 7) (acc + v % 128 * 2 ^ i) y.final)
      z = go y.final y.valid y.left

      part : v % 128 * 2 ^ i ≤ v * 2 ^ i
      part = grind arith

      value : bit_or acc (bit_and (v % 128 + 128) 0x7f * 2 ^ i % 2 ^ w) ≡ acc + v % 128 * 2 ^ i
      value =
          ap (λ (t : ℕ). bit_or acc (t * 2 ^ i % 2 ^ w)) (low_bits v)
          ∙ ap (bit_or acc) (mod-eq_of_lt (omega (arith, below, part)))
          ∙ or_above i acc (v % 128) small

  -- The loop of the read undoes that of the write, above the bits that it already has.
  pub read_varint-Yields :
      (room rounds i acc v : ℕ) (bs rest : List ℕ) (b : ByteArray)
      → IsValid b
      → varint_bytes room v ≡ some bs
      → remaining b ≡ bs ++ rest
      → length bs ≤ rounds
      → acc < 2 ^ i
      → acc + v * 2 ^ i < 2 ^ w
      → Yields (acc + v * 2 ^ i) rest b.endian (read_varint host w rounds i acc b)
  read_varint-Yields zero rounds i acc v bs rest b h e r fits small below =
      unfold varint_bytes in cc
  read_varint-Yields (suc room) zero i acc v bs rest b h e r fits small below =
      elim (varint_bytes_cases room v bs e) [
        | inl (ends, one) ↦ absurd (omega (arith, ap length one, fits))
        | inr (more, (tail, split, n)) ↦ absurd (omega (arith, ap length split, fits))
      ]
  read_varint-Yields (suc room) (suc rounds) i acc v bs rest b h e r fits small below =
      elim (varint_bytes_cases room v bs e) [
        | inl (ends, one) ↦
            last_round rounds i acc v rest b h (r ∙ ap (λ t. t ++ rest) one) ends small below
        | inr (more, (tail, split, n)) ↦
            let scale : 2 ^ (i + 7) ≡ 128 * 2 ^ i = simp towards_suc (omega arith) in
            let parts : acc + v % 128 * 2 ^ i + v / 128 * 2 ^ (i + 7) ≡ acc + v * 2 ^ i =
              regroup (2 ^ i) (2 ^ (i + 7)) acc v scale in
            next_round rounds i acc v tail rest b h (r ∙ ap (λ t. t ++ rest) split) small below
              (λ a valid left.
                subst
                  (λ (t : ℕ).
                    Yields t rest a.endian
                      (read_varint host w rounds (i + 7) (acc + v % 128 * 2 ^ i) a))
                  parts
                  (read_varint-Yields room rounds (i + 7) (acc + v % 128 * 2 ^ i) (v / 128) tail
                    rest a valid n left (omega (arith, ap length split, fits))
                    (bits_below (2 ^ i) (2 ^ (i + 7)) acc v scale small)
                    (omega (arith, parts, below))))
      ]

-- Any 32-bit value written as a varint takes at most 5 bytes and is read back, and what stood
-- behind it is left.
pub uint32_round_trip :
    (host : Endian) (v : ℕ) (b : ByteArray)
    → IsValid b
    → v < 2 ^ 32
    → b.position + 5 + b.base_size ≤ 2 ^ 64
    → (bs : List ℕ) × (length bs ≤ 5)
      × Yields v
          (drop (b.position + length bs) (content b))
          b.endian
          ((write_uint32 v b >>= set_position b.position) >>= read_uint32 host)
unfolding write_uint32 read_uint32
uint32_round_trip host v b h small fit =
    let (bs, out, fits, w) = write_varint-Written 5 v b h (omega arith) (omega arith) fit in
    let same : 0 + v * 2 ^ 0 ≡ v = omega arith in
    (
      bs,
      fits,
      write_then_read v bs b (read_varint host 32 5 0 0) h w (λ rest s valid left e.
          subst (λ (t : ℕ). Yields t rest s.endian (read_varint host 32 5 0 0 s)) same
            (read_varint-Yields host 32 5 5 0 0 v bs rest s valid out left fits (omega arith)
              (omega arith))),
    )

-- Any 64-bit value written as a varint takes at most 10 bytes and is read back.
pub uint64_round_trip :
    (host : Endian) (v : ℕ) (b : ByteArray)
    → IsValid b
    → v < 2 ^ 64
    → b.position + 10 + b.base_size ≤ 2 ^ 64
    → (bs : List ℕ) × (length bs ≤ 10)
      × Yields v
          (drop (b.position + length bs) (content b))
          b.endian
          ((write_uint64 v b >>= set_position b.position) >>= read_uint64 host)
unfolding write_uint64 read_uint64
uint64_round_trip host v b h small fit =
    let (bs, out, fits, w) = write_varint-Written 10 v b h (omega arith) (omega arith) fit in
    let same : 0 + v * 2 ^ 0 ≡ v = omega arith in
    (
      bs,
      fits,
      write_then_read v bs b (read_varint host 64 10 0 0) h w (λ rest s valid left e.
          subst (λ (t : ℕ). Yields t rest s.endian (read_varint host 64 10 0 0 s)) same
            (read_varint-Yields host 64 10 10 0 0 v bs rest s valid out left fits (omega arith)
              (omega arith))),
    )
