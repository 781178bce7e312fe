-- ===== src/Codec/Zigzag.antt =====
-- server/bytearray.cc: `EncodeZigzag32`, `DecodeZigzag32` and the 64-bit pair.
use Prim.Native.Nat.{bit_and, bit_xor}
use zjh_server.Base.{
  ℕ, ◌-◌, ◌*◌, ◌/◌, ◌%◌, ◌^◌, ◌≤◌, ◌<◌, ◌≡◌, ap, ◌∙◌, inl, inr, arith, ltb, if◌then◌else◌,
  Bool-cases, ltb→lt, ltb→le,
}
use zjh_server.Base.Bits.{xor-zero, xor_ones, and_mask}
use zjh_server.Codec.{encode_zigzag32, encode_zigzag64, decode_zigzag32, decode_zigzag64}

-- Zigzag at 32 bits maps n to 2n for n at least 0, and -n to 2n - 1 for n above 0.
pub encode_zigzag32_lem :
    (v : ℕ)
    → v < 2 ^ 32
    → encode_zigzag32 v ≡ (if ltb v (2 ^ 31) then 2 * v else 2 * (2 ^ 32 - v) - 1)
unfolding encode_zigzag32
encode_zigzag32_lem v h = ground arith

pub encode_zigzag64_lem :
    (v : ℕ)
    → v < 2 ^ 64
    → encode_zigzag64 v ≡ (if ltb v (2 ^ 63) then 2 * v else 2 * (2 ^ 64 - v) - 1)
unfolding encode_zigzag64
encode_zigzag64_lem v h = ground arith

decode_even32 : (v : ℕ) → v % 2 ≡ 0 → decode_zigzag32 v ≡ v / 2
unfolding decode_zigzag32
decode_even32 v e =
    let sign : (2 ^ 32 - bit_and v 1) % 2 ^ 32 ≡ 0 = omega (arith, and_mask 1 v) in
    ap (bit_xor (v / 2)) sign ∙ xor-zero (v / 2)

decode_odd32 : (v : ℕ) → v < 2 ^ 32 → v % 2 ≡ 1 → decode_zigzag32 v ≡ 2 ^ 32 - 1 - v / 2
unfolding decode_zigzag32
decode_odd32 v h e =
    let sign : (2 ^ 32 - bit_and v 1) % 2 ^ 32 ≡ 2 ^ 32 - 1 = omega (arith, and_mask 1 v) in
    ap (bit_xor (v / 2)) sign ∙ xor_ones 32 (v / 2) (omega arith)

-- Decoding undoes encoding on every 32-bit pattern.
pub decode-encode_zigzag32 : (v : ℕ) → v < 2 ^ 32 → decode_zigzag32 (encode_zigzag32 v) ≡ v
decode-encode_zigzag32 v h = elim (Bool-cases (ltb v (2 ^ 31))) [
  | inl e ↦
      let low : v < 2 ^ 31 = ltb→lt _ _ e in
      rw (encode_zigzag32_lem v h, e) (decode_even32 (2 * v) (omega arith) ∙ omega arith)
  | inr e ↦
      let high : 2 ^ 31 ≤ v = ltb→le _ _ e in
      rw (encode_zigzag32_lem v h, e)
        (decode_odd32 (2 * (2 ^ 32 - v) - 1) (omega arith) (omega arith) ∙ omega arith)
]

decode_even64 : (v : ℕ) → v % 2 ≡ 0 → decode_zigzag64 v ≡ v / 2
unfolding decode_zigzag64
decode_even64 v e =
    let sign : (2 ^ 64 - bit_and v 1) % 2 ^ 64 ≡ 0 = omega (arith, and_mask 1 v) in
    ap (bit_xor (v / 2)) sign ∙ xor-zero (v / 2)

decode_odd64 : (v : ℕ) → v < 2 ^ 64 → v % 2 ≡ 1 → decode_zigzag64 v ≡ 2 ^ 64 - 1 - v / 2
unfolding decode_zigzag64
decode_odd64 v h e =
    let sign : (2 ^ 64 - bit_and v 1) % 2 ^ 64 ≡ 2 ^ 64 - 1 = omega (arith, and_mask 1 v) in
    ap (bit_xor (v / 2)) sign ∙ xor_ones 64 (v / 2) (omega arith)

-- Decoding undoes encoding on every 64-bit pattern.
pub decode-encode_zigzag64 : (v : ℕ) → v < 2 ^ 64 → decode_zigzag64 (encode_zigzag64 v) ≡ v
decode-encode_zigzag64 v h = elim (Bool-cases (ltb v (2 ^ 63))) [
  | inl e ↦
      let low : v < 2 ^ 63 = ltb→lt _ _ e in
      rw (encode_zigzag64_lem v h, e) (decode_even64 (2 * v) (omega arith) ∙ omega arith)
  | inr e ↦
      let high : 2 ^ 63 ≤ v = ltb→le _ _ e in
      rw (encode_zigzag64_lem v h, e)
        (decode_odd64 (2 * (2 ^ 64 - v) - 1) (omega arith) (omega arith) ∙ omega arith)
]
