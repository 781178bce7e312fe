-- ===== src/Codec/Varint.antt =====
-- server/bytearray.cc: the loop of `writeUint32` and `writeUint64`, and `readFuint8`.
use Prim.Native.Nat.{bit_and, bit_or}
use native.Mathlib.Nat.{pow-suc, div-add-mod', mul-le-mul_right}
use zjh_server.Base.{
  ℕ, zero, suc, ◌+◌, ◌*◌, ◌/◌, ◌%◌, ◌^◌, ◌≤◌, ◌<◌, ◌≡◌, refl, ap, ◌∙◌, ◌⊎◌, inl, inr, List, [], ◌∷◌,
  arith, leb, length, some, Bool-cases, Option-cases, leb→le, leb→lt,
}
use zjh_server.Base.Words.{u8}
use zjh_server.Base.Bits.{or_above, and_mask}
use zjh_server.ByteArray.{ByteArray, Endian, little, big, ok, read}
use zjh_server.ByteArray.Valid.{IsValid}
use zjh_server.ByteArray.Writing.{Written, write_lem}
use zjh_server.ByteArray.Remaining.{remaining, Yields, read_remaining}
use zjh_server.Codec.{from_memory, from_le, read_fuint8, varint_bytes, write_varint}

pub read_fuint8-Yields :
    (host : Endian) (x : ℕ) (rest : List ℕ) (b : ByteArray)
    → IsValid b
    → remaining b ≡ x ∷ rest
    → Yields x rest b.endian (read_fuint8 host b)
unfolding read_fuint8
read_fuint8-Yields host x rest b v e = record {
  final = y.final;
  returns = rw y.returns (ap (λ (t : ℕ). ok (t, y.final)) (one host));
  valid = y.valid;
  left = y.left;
  same_endian = y.same_endian;
}
  where
    y : Yields (x ∷ []) rest b.endian (read 1 b)
    y = read_remaining (x ∷ []) rest b v e (omega arith)

    one : (host : Endian) → from_memory host (x ∷ []) ≡ x
    one little = unfold from_memory from_le in omega arith
    one big = unfold from_memory from_le in omega arith

-- A value below `128 ^ room` fits the temporary: one byte for each seven bits, at least one.
pub varint_bytes_fit :
    (room v : ℕ)
    → v < 128 ^ room
    → 0 < room
    → (bs : List ℕ) × (varint_bytes room v ≡ some bs) × (0 < length bs) × (length bs ≤ room)
unfolding varint_bytes
varint_bytes_fit zero v h p = absurd (omega arith)
varint_bytes_fit (suc room) v h p = elim (Bool-cases (leb 0x80 v)) [
  | inl e ↦
      let big : 128 ≤ v = leb→le _ _ e in
      let small : v / 128 < 128 ^ room = omega (arith, pow-suc 128 room) in
      let (bs, returns, some_byte, fits) =
        varint_bytes_fit room (v / 128) small (room_pos room (omega (arith, small, big))) in
      (
        u8 (bit_or (bit_and v 0x7f) 0x80) ∷ bs,
        rw (e, returns) refl,
        omega arith,
        omega (arith, fits),
      )
  | inr e ↦ (u8 v ∷ [], rw e refl, omega arith, omega arith)
]
  where
    room_pos : (k : ℕ) → 1 < 128 ^ k → 0 < k
    room_pos zero h = absurd (omega arith)
    room_pos (suc k) h = omega arith

low_byte : (v : ℕ) → u8 (bit_or (bit_and v 0x7f) 0x80) ≡ v % 128 + 128
low_byte v =
    ap (λ (t : ℕ). bit_or t 0x80 % 256) (and_mask 7 v)
    ∙ omega (arith, or_above 7 (v % 128) 1 (omega arith))

pub low_bits : (v : ℕ) → bit_and (v % 128 + 128) 0x7f ≡ v % 128
low_bits v = omega (arith, and_mask 7 (v % 128 + 128))

-- What the write loop put out, by its first byte.
pub varint_bytes_cases :
    (room v : ℕ) (bs : List ℕ)
    → varint_bytes (suc room) v ≡ some bs
    → ((v < 128) × (bs ≡ v ∷ []))
      ⊎ ((128 ≤ v)
          × ((tail : List ℕ) × (bs ≡ (v % 128 + 128) ∷ tail)
              × (varint_bytes room (v / 128) ≡ some tail)))
unfolding varint_bytes
varint_bytes_cases room v bs e = elim (Bool-cases (leb 0x80 v)) [
  | inl t ↦ elim (Option-cases (varint_bytes room (v / 128))) [
    | inl n ↦ absurd (ground arith)
    | inr (tail, n) ↦ inr (leb→le _ _ t, (tail, ground (arith, low_byte v), n))
  ]
  | inr t ↦
      let small : v < 128 = leb→lt _ _ t in
      let same : v % 256 ≡ v = omega arith in inl (small, ground arith)
]

pub regroup : (p q acc v : ℕ) → q ≡ 128 * p → acc + v % 128 * p + v / 128 * q ≡ acc + v * p
regroup p q acc v scale =
    omega (arith, ap (λ (t : ℕ). t * p) (div-add-mod' v 128), ap (λ (t : ℕ). v / 128 * t) scale)

pub bits_below : (p q acc v : ℕ) → q ≡ 128 * p → acc < p → acc + v % 128 * p < q
bits_below p q acc v scale small =
    let digit : v % 128 * p ≤ 127 * p = mul-le-mul_right p (omega arith) in omega arith

pub write_varint-Written :
    (room v : ℕ) (b : ByteArray)
    → IsValid b
    → v < 128 ^ room
    → 0 < room
    → b.position + room + b.base_size ≤ 2 ^ 64
    → (bs : List ℕ) × (varint_bytes room v ≡ some bs)
      × (length bs ≤ room)
      × Written bs b (write_varint room v b)
unfolding write_varint
write_varint-Written room v b h small p fit =
    let (bs, returns, some_byte, fits) = varint_bytes_fit room v small p in
    (bs, returns, fits, rw (returns, write_varint) (write_lem bs b h (omega (arith, fits))))
