-- ===== src/Codec/Examples.antt =====
-- server/bytearray.cc: the theorems of the typed reads and writes on the buffer of six bytes.
use zjh_server.Base.{ℕ, ◌+◌, ◌%◌, ◌^◌, ◌≤◌, ◌≡◌, List, [], ◌∷◌, ◌++◌, arith, length, take, drop}
use zjh_server.ByteArray.{little, big, ◌>>=◌, set_position}
use zjh_server.ByteArray.Valid.{content}
use zjh_server.ByteArray.Remaining.{Yields}
use zjh_server.ByteArray.Examples.{six_bytes, six_bytes-IsValid}
use zjh_server.Codec.{
  write_fixed, read_fixed, write_uint32, read_uint32, write_int32, read_int32, write_string_f16,
  read_string_f16, write_string_f32, read_string_f32, encode_zigzag32, decode_zigzag32,
  encode_zigzag64, decode_zigzag64,
}
use zjh_server.Codec.Fixed.{fixed_round_trip}
use zjh_server.Codec.ReadVarint.{uint32_round_trip}
use zjh_server.Codec.Signed.{int32_round_trip}
use zjh_server.Codec.Strings.{string_f16_round_trip, string_f32_round_trip}
use zjh_server.Codec.Zigzag.{decode-encode_zigzag32, decode-encode_zigzag64}

fixed_example :
    Yields 258
      (drop 6 (content six_bytes))
      big
      ((write_fixed little 4 258 six_bytes >>= set_position 2) >>= read_fixed little 4)
fixed_example =
    fixed_round_trip little 4 258 six_bytes six_bytes-IsValid (omega arith) (omega arith)
      (omega arith)

uint32_example :
    (bs : List ℕ) × (length bs ≤ 5)
    × Yields 300
        (drop (2 + length bs) (content six_bytes))
        big
        ((write_uint32 300 six_bytes >>= set_position 2) >>= read_uint32 little)
uint32_example =
    uint32_round_trip little 300 six_bytes six_bytes-IsValid (omega arith) (omega arith)

int32_example :
    (bs : List ℕ) × (length bs ≤ 5)
    × Yields 4294967295
        (drop (2 + length bs) (content six_bytes))
        big
        ((write_int32 4294967295 six_bytes >>= set_position 2) >>= read_int32 little)
int32_example =
    int32_round_trip little 4294967295 six_bytes six_bytes-IsValid (omega arith) (omega arith)

abbrev text : List ℕ
text = 104 ∷ 105 ∷ 33 ∷ []

string_f16_example :
    Yields
      (take (length text % 2 ^ 16) text)
      (drop (length text % 2 ^ 16) text ++ drop (2 + (2 + length text)) (content six_bytes))
      big
      ((write_string_f16 little text six_bytes >>= set_position 2) >>= read_string_f16 little)
string_f16_example =
    string_f16_round_trip little text six_bytes six_bytes-IsValid (omega arith) (omega arith)

string_f32_example :
    Yields text
      (drop (2 + (4 + length text)) (content six_bytes))
      big
      ((write_string_f32 little text six_bytes >>= set_position 2) >>= read_string_f32 little)
string_f32_example =
    string_f32_round_trip little text six_bytes six_bytes-IsValid (omega arith) (omega arith)
      (omega arith)

zigzag32_example : decode_zigzag32 (encode_zigzag32 4294967293) ≡ 4294967293
zigzag32_example = decode-encode_zigzag32 4294967293 (omega arith)

zigzag64_example : decode_zigzag64 (encode_zigzag64 18446744073709551614) ≡ 18446744073709551614
zigzag64_example = decode-encode_zigzag64 18446744073709551614 (omega arith)
