-- ===== src/Codec.antt =====
-- server/endian.h and the typed reads and writes of server/bytearray.cc. The byte order of the
-- machine (`WILL_BYTE_ORDER`) is the parameter `host`. Signed values and floats stand as the bit
-- patterns that the source copies, and a signed operation wraps around as on the machine.
pub mod Wire
pub mod Fixed
pub mod Zigzag
pub mod Varint
pub mod ReadVarint
pub mod Signed
pub mod Strings
pub mod Examples
use Prim.Native.Nat.{bit_and, bit_or, bit_xor}
use mathlib.Core.List.{reverse}
use mathlib.Core.Option
use zjh_server.Base.{
  ℕ, zero, suc, ◌+◌, ◌-◌, ◌*◌, ◌/◌, ◌%◌, ◌^◌, List, [], ◌∷◌, map, ltb, leb, if◌then◌else◌, length,
  Bool, true, false, Option, none, some,
}
use zjh_server.Base.Words.{u8, u16, u32, u64}
use zjh_server.ByteArray.{ByteArray, Result, ok, fault, ◌>>=◌, Endian, little, big, write, read}

-- The `n` bytes of a value, lowest first, and the value of such bytes.
unfoldable pub le_bytes : ℕ → ℕ → List ℕ
le_bytes zero v = []
le_bytes (suc n) v = v % 256 ∷ le_bytes n (v / 256)

unfoldable pub from_le : List ℕ → ℕ
from_le [] = 0
from_le (b ∷ bs) = b + 256 * from_le bs

-- An object of `n` bytes as it lies in the machine's memory.
unfoldable pub to_memory : Endian → ℕ → ℕ → List ℕ
to_memory little n v = le_bytes n v
to_memory big n v = reverse (le_bytes n v)

unfoldable pub from_memory : Endian → List ℕ → ℕ
from_memory little bs = from_le bs
from_memory big bs = from_le (reverse bs)

-- `bswap_16`, `bswap_32` and `bswap_64`.
unfoldable pub byteswap : ℕ → ℕ → ℕ
byteswap n v = from_le (reverse (le_bytes n v))

abbrev pub same_endian : Endian → Endian → Bool
same_endian little little = true
same_endian little big = false
same_endian big little = false
same_endian big big = true

-- `if(m_endian != WILL_BYTE_ORDER) value = byteswap(value);`
unfoldable pub ordered : Endian → Endian → ℕ → ℕ → ℕ
ordered host e n v = if same_endian e host then v else byteswap n v

module _ (host : Endian) where
  unfoldable pub write_fixed : ℕ → ℕ → ByteArray → Result ByteArray
  write_fixed n v b = write (to_memory host n (ordered host b.endian n v)) b

  unfoldable pub read_fixed : ℕ → ByteArray → Result (ℕ × ByteArray)
  read_fixed n b = read n b >>= λ r. ok (ordered host b.endian n (from_memory host r.0), r.1)

  unfoldable pub write_fint8 : ℕ → ByteArray → Result ByteArray
  write_fint8 v b = write (to_memory host 1 v) b

  unfoldable pub write_fuint8 : ℕ → ByteArray → Result ByteArray
  write_fuint8 v b = write (to_memory host 1 v) b

  unfoldable pub write_fint16 : ℕ → ByteArray → Result ByteArray
  write_fint16 = write_fixed 2

  unfoldable pub write_fuint16 : ℕ → ByteArray → Result ByteArray
  write_fuint16 = write_fixed 2

  unfoldable pub write_fint32 : ℕ → ByteArray → Result ByteArray
  write_fint32 = write_fixed 4

  unfoldable pub write_fuint32 : ℕ → ByteArray → Result ByteArray
  write_fuint32 = write_fixed 4

  unfoldable pub write_fint64 : ℕ → ByteArray → Result ByteArray
  write_fint64 = write_fixed 8

  unfoldable pub write_fuint64 : ℕ → ByteArray → Result ByteArray
  write_fuint64 = write_fixed 8

  -- The bits of the value, as `memcpy` takes them.
  unfoldable pub write_float : ℕ → ByteArray → Result ByteArray
  unfolding write_fuint32
  write_float bits = write_fuint32 bits

  unfoldable pub write_double : ℕ → ByteArray → Result ByteArray
  unfolding write_fuint64
  write_double bits = write_fuint64 bits

  unfoldable pub read_fint8 : ByteArray → Result (ℕ × ByteArray)
  read_fint8 b = read 1 b >>= λ r. ok (from_memory host r.0, r.1)

  unfoldable pub read_fuint8 : ByteArray → Result (ℕ × ByteArray)
  read_fuint8 b = read 1 b >>= λ r. ok (from_memory host r.0, r.1)

  unfoldable pub read_fint16 : ByteArray → Result (ℕ × ByteArray)
  read_fint16 = read_fixed 2

  unfoldable pub read_fuint16 : ByteArray → Result (ℕ × ByteArray)
  read_fuint16 = read_fixed 2

  unfoldable pub read_fint32 : ByteArray → Result (ℕ × ByteArray)
  read_fint32 = read_fixed 4

  unfoldable pub read_fuint32 : ByteArray → Result (ℕ × ByteArray)
  read_fuint32 = read_fixed 4

  unfoldable pub read_fint64 : ByteArray → Result (ℕ × ByteArray)
  read_fint64 = read_fixed 8

  unfoldable pub read_fuint64 : ByteArray → Result (ℕ × ByteArray)
  read_fuint64 = read_fixed 8

  unfoldable pub read_float : ByteArray → Result (ℕ × ByteArray)
  unfolding read_fuint32
  read_float b = read_fuint32 b

  unfoldable pub read_double : ByteArray → Result (ℕ × ByteArray)
  unfolding read_fuint64
  read_double b = read_fuint64 b

-- The bit pattern of `-v` at `w` bits.
abbrev negate : ℕ → ℕ → ℕ
negate w v = (2 ^ w - v) % 2 ^ w

unfoldable pub encode_zigzag32 : ℕ → ℕ
encode_zigzag32 v =
    if leb (2 ^ 31) v then (negate 32 v * 2 + 2 ^ 32 - 1) % 2 ^ 32 else v * 2 % 2 ^ 32

unfoldable pub encode_zigzag64 : ℕ → ℕ
encode_zigzag64 v =
    if leb (2 ^ 63) v then (negate 64 v * 2 + 2 ^ 64 - 1) % 2 ^ 64 else v * 2 % 2 ^ 64

unfoldable pub decode_zigzag32 : ℕ → ℕ
decode_zigzag32 v = bit_xor (v / 2) (negate 32 (bit_and v 1))

unfoldable pub decode_zigzag64 : ℕ → ℕ
decode_zigzag64 v = bit_xor (v / 2) (negate 64 (bit_and v 1))

-- The loop of `writeUint32` and `writeUint64` into `tmp`, which has `room` bytes left.
unfoldable pub varint_bytes : ℕ → ℕ → Option (List ℕ)
varint_bytes zero value = none
varint_bytes (suc room) value =
    let rest = varint_bytes room (value / 2 ^ 7) in
    if leb 0x80 value
    then Option.map (λ bs. u8 (bit_or (bit_and value 0x7f) 0x80) ∷ bs) rest
    else some (u8 value ∷ [])

-- A varint that overruns `tmp` is a fault.
unfoldable pub write_varint : ℕ → ℕ → ByteArray → Result ByteArray
write_varint room value b = elim (varint_bytes room value) [ none ↦ fault | some bs ↦ write bs b ]

unfoldable pub write_uint32 : ℕ → ByteArray → Result ByteArray
unfolding write_varint
write_uint32 = write_varint 5

unfoldable pub write_uint64 : ℕ → ByteArray → Result ByteArray
unfolding write_varint
write_uint64 = write_varint 10

unfoldable pub write_int32 : ℕ → ByteArray → Result ByteArray
unfolding write_uint32
write_int32 v = write_uint32 (encode_zigzag32 v)

unfoldable pub write_int64 : ℕ → ByteArray → Result ByteArray
unfolding write_uint64
write_int64 v = write_uint64 (encode_zigzag64 v)

-- The loop of `readUint32` (`w` = 32) and `readUint64` (64): `rounds` left, shift `i`.
unfoldable pub read_varint : Endian → ℕ → ℕ → ℕ → ℕ → ByteArray → Result (ℕ × ByteArray)
read_varint host w zero i result b = ok (result, b)
read_varint host w (suc rounds) i result b = read_fuint8 host b >>= λ r.
    let byte = r.0 in
    let more =
      read_varint host w rounds (i + 7) (bit_or result (bit_and byte 0x7f * 2 ^ i % 2 ^ w)) r.1 in
    if ltb byte 0x80 then ok (bit_or result (byte * 2 ^ i % 2 ^ w), r.1) else more

module _ (host : Endian) where
  unfoldable pub read_uint32 : ByteArray → Result (ℕ × ByteArray)
  read_uint32 = read_varint host 32 5 0 0

  unfoldable pub read_uint64 : ByteArray → Result (ℕ × ByteArray)
  read_uint64 = read_varint host 64 10 0 0

  unfoldable pub read_int32 : ByteArray → Result (ℕ × ByteArray)
  read_int32 b = read_uint32 b >>= λ r. ok (decode_zigzag32 r.0, r.1)

  unfoldable pub read_int64 : ByteArray → Result (ℕ × ByteArray)
  read_int64 b = read_uint64 b >>= λ r. ok (decode_zigzag64 r.0, r.1)

  unfoldable pub write_string_f16 : List ℕ → ByteArray → Result ByteArray
  write_string_f16 s b = write_fuint16 host (u16 (length s)) b >>= write s

  unfoldable pub write_string_f32 : List ℕ → ByteArray → Result ByteArray
  write_string_f32 s b = write_fuint32 host (u32 (length s)) b >>= write s

  unfoldable pub write_string_f64 : List ℕ → ByteArray → Result ByteArray
  write_string_f64 s b = write_fuint64 host (u64 (length s)) b >>= write s

  unfoldable pub write_string_vint : List ℕ → ByteArray → Result ByteArray
  write_string_vint s b = write_uint64 (u64 (length s)) b >>= write s

  unfoldable pub write_string_without_length : List ℕ → ByteArray → Result ByteArray
  write_string_without_length s b = write s b

  unfoldable pub read_string_f16 : ByteArray → Result (List ℕ × ByteArray)
  read_string_f16 b = read_fuint16 host b >>= λ r. read r.0 r.1

  unfoldable pub read_string_f32 : ByteArray → Result (List ℕ × ByteArray)
  read_string_f32 b = read_fuint32 host b >>= λ r. read r.0 r.1

  unfoldable pub read_string_f64 : ByteArray → Result (List ℕ × ByteArray)
  read_string_f64 b = read_fuint64 host b >>= λ r. read r.0 r.1

  unfoldable pub read_string_vint : ByteArray → Result (List ℕ × ByteArray)
  read_string_vint b = read_uint64 b >>= λ r. read r.0 r.1
