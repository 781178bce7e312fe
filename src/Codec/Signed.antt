-- ===== src/Codec/Signed.antt =====
-- server/bytearray.cc: `writeInt32`, `writeInt64` and their reads.
use mathlib.Core.Path.{subst}
use zjh_server.Base.{ℕ, ◌+◌, ◌^◌, ◌≤◌, ◌<◌, ◌≡◌, refl, sym, ◌∙◌, List, arith, length, drop}
use zjh_server.ByteArray.{ByteArray, Endian, Result, ok, out_of_range, fault, ◌>>=◌, set_position}
use zjh_server.ByteArray.Valid.{IsValid, content}
use zjh_server.ByteArray.Remaining.{Yields}
use zjh_server.Codec.{
  write_uint32, write_uint64, read_uint32, read_uint64, write_int32, write_int64, read_int32,
  read_int64, encode_zigzag32, encode_zigzag64, decode_zigzag32, decode_zigzag64,
}
use zjh_server.Codec.Zigzag.{
  encode_zigzag32_lem, encode_zigzag64_lem, decode-encode_zigzag32, decode-encode_zigzag64,
}
use zjh_server.Codec.ReadVarint.{uint32_round_trip, uint64_round_trip}

bind_assoc {ℓ κ μ} :
    {A : Type ℓ} {B : Type κ} {C : Type μ} (m : Result A) (f : A → Result B) (g : B → Result C)
    → ((m >>= f) >>= g) ≡ (m >>= λ a. f a >>= g)
bind_assoc (ok a) f g = refl
bind_assoc out_of_range f g = refl
bind_assoc fault f g = refl

-- A reader that decodes the value of another.
decoded :
    (f : ℕ → ℕ) (v : ℕ) (rest : List ℕ) (e : Endian) (m : Result ByteArray)
    (reader : ByteArray → Result (ℕ × ByteArray))
    → Yields v rest e (m >>= reader)
    → Yields (f v) rest e (m >>= λ s. reader s >>= λ r. ok (f r.0, r.1))
decoded f v rest e m reader y = record {
  final = y.final;
  returns = sym (bind_assoc m reader (λ r. ok (f r.0, r.1))) ∙ rw y.returns refl;
  valid = y.valid;
  left = y.left;
  same_endian = y.same_endian;
}

encode_zigzag32-lt : (v : ℕ) → v < 2 ^ 32 → encode_zigzag32 v < 2 ^ 32
encode_zigzag32-lt v h = ground (arith, encode_zigzag32_lem v h)

-- Any 32-bit signed pattern written as a zigzag varint takes at most 5 bytes and is read
-- back.
pub int32_round_trip :
    (host : Endian) (v : ℕ) (b : ByteArray)
    → IsValid b
    → v < 2 ^ 32
    → b.position + 5 + b.base_size ≤ 2 ^ 64
    → (bs : List ℕ) × (length bs ≤ 5)
      × Yields v
          (drop (b.position + length bs) (content b))
          b.endian
          ((write_int32 v b >>= set_position b.position) >>= read_int32 host)
unfolding write_int32 read_int32
int32_round_trip host v b h small fit =
    let (bs, fits, y) =
      uint32_round_trip host (encode_zigzag32 v) b h (encode_zigzag32-lt v small) fit in
    (
      bs,
      fits,
      subst
          (λ (t : ℕ). Yields t (drop (b.position + length bs) (content b)) b.endian (
            (write_uint32 (encode_zigzag32 v) b >>= set_position b.position) >>= λ s.
            read_uint32 host s >>= λ r. ok (decode_zigzag32 r.0, r.1)))
          (decode-encode_zigzag32 v small)
          (decoded decode_zigzag32 (encode_zigzag32 v) _ b.endian
            (write_uint32 (encode_zigzag32 v) b >>= set_position b.position) (read_uint32 host) y),
    )

encode_zigzag64-lt : (v : ℕ) → v < 2 ^ 64 → encode_zigzag64 v < 2 ^ 64
encode_zigzag64-lt v h = ground (arith, encode_zigzag64_lem v h)

-- Any 64-bit signed pattern written as a zigzag varint takes at most 10 bytes and is read back.
pub int64_round_trip :
    (host : Endian) (v : ℕ) (b : ByteArray)
    → IsValid b
    → v < 2 ^ 64
    → b.position + 10 + b.base_size ≤ 2 ^ 64
    → (bs : List ℕ) × (length bs ≤ 10)
      × Yields v
          (drop (b.position + length bs) (content b))
          b.endian
          ((write_int64 v b >>= set_position b.position) >>= read_int64 host)
unfolding write_int64 read_int64
int64_round_trip host v b h small fit =
    let (bs, fits, y) =
      uint64_round_trip host (encode_zigzag64 v) b h (encode_zigzag64-lt v small) fit in
    (
      bs,
      fits,
      subst
          (λ (t : ℕ). Yields t (drop (b.position + length bs) (content b)) b.endian (
            (write_uint64 (encode_zigzag64 v) b >>= set_position b.position) >>= λ s.
            read_uint64 host s >>= λ r. ok (decode_zigzag64 r.0, r.1)))
          (decode-encode_zigzag64 v small)
          (decoded decode_zigzag64 (encode_zigzag64 v) _ b.endian
            (write_uint64 (encode_zigzag64 v) b >>= set_position b.position) (read_uint64 host) y),
    )
