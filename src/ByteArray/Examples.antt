-- ===== src/ByteArray/Examples.antt =====
-- server/bytearray.cc: the theorems on a buffer of two blocks of four bytes.
use zjh_server.ByteArray.Buffers.{Iovec, at_most, get_read_buffers}
use zjh_server.ByteArray.Gathering.{gather, get_read_buffers_lem}
use zjh_server.Base.{◌++◌, slice, ℕ, ◌≡◌, refl, List, [], ◌∷◌, arith, overwrite}
use zjh_server.ByteArray.{
  get_read_size, ByteArray, big, ok, out_of_range, fault, ◌>>=◌, add_capacity, write, read,
  set_position, clear,
}
use zjh_server.ByteArray.Valid.{IsValid, content, Grown, add_capacity_lem}
use zjh_server.ByteArray.Writing.{Written, write_lem}
use zjh_server.ByteArray.Reading.{WasRead, read_lem, read_out_of_range, read_null}
use zjh_server.ByteArray.Placing.{Placed, set_position_lem, clear_lem}
use zjh_server.ByteArray.RoundTrip.{write_read_back}

-- Six bytes of data, the position at the third.
abbrev pub six_bytes : ByteArray
six_bytes = record {
  base_size = 4;
  position = 2;
  capacity = 8;
  size = 6;
  endian = big;
  before = [];
  after = (10 ∷ 11 ∷ 12 ∷ 13 ∷ []) ∷ (14 ∷ 15 ∷ 0 ∷ 0 ∷ []) ∷ [];
}

pub six_bytes-IsValid : IsValid six_bytes
six_bytes-IsValid = record {
  base_pos = omega arith;
  sized_before = tt;
  sized_after = (refl, (refl, tt));
  whole = refl;
  at = refl;
  position_le = omega arith;
  size_le = omega arith;
  rooted = omega arith;
  addressable = omega arith;
}

-- The same with the position at the end of the chain.
abbrev full_bytes : ByteArray
full_bytes = record {
  base_size = 4;
  position = 4;
  capacity = 4;
  size = 4;
  endian = big;
  before = (10 ∷ 11 ∷ 12 ∷ 13 ∷ []) ∷ [];
  after = [];
}

full_bytes-IsValid : IsValid full_bytes
full_bytes-IsValid = record {
  base_pos = omega arith;
  sized_before = (refl, tt);
  sized_after = tt;
  whole = refl;
  at = refl;
  position_le = omega arith;
  size_le = omega arith;
  rooted = omega arith;
  addressable = omega arith;
}

abbrev five : List ℕ
five = 1 ∷ 2 ∷ 3 ∷ 4 ∷ 5 ∷ []

write_example : Written five six_bytes (write five six_bytes)
write_example = write_lem five six_bytes six_bytes-IsValid (omega arith)

write_read_example :
    (a : ByteArray) × ((write five six_bytes >>= λ w. set_position 2 w >>= λ s. read 5 s)
      ≡ ok (five, a))
    × IsValid a
    × (content a ≡ overwrite 2 five (content six_bytes))
    × (a.position ≡ 7)
write_read_example = write_read_back five six_bytes six_bytes-IsValid (omega arith) (omega arith)

read_example : WasRead 3 six_bytes (read 3 six_bytes)
read_example = read_lem 3 six_bytes six_bytes-IsValid (omega arith) (omega arith)

read_out_of_range_example : read 5 six_bytes ≡ out_of_range
read_out_of_range_example = read_out_of_range 5 six_bytes six_bytes-IsValid (omega arith)

read_null_example : read 0 full_bytes ≡ fault
read_null_example = read_null full_bytes full_bytes-IsValid refl

set_position_example : Placed 7 six_bytes (set_position 7 six_bytes)
set_position_example = set_position_lem 7 six_bytes six_bytes-IsValid (omega arith)

add_capacity_example : Grown 11 six_bytes (add_capacity 11 six_bytes)
add_capacity_example = add_capacity_lem 11 six_bytes six_bytes-IsValid (omega arith) (omega arith)

clear_example :
    (a : ByteArray) × (clear six_bytes ≡ ok a)
    × IsValid a
    × (content a ≡ [])
    × (a.position ≡ 0)
    × (a.capacity ≡ 4)
clear_example = clear_lem six_bytes six_bytes-IsValid

read_buffers_example :
    (iovs : List Iovec) × (get_read_buffers [] 3 six_bytes
      ≡ ok (iovs, at_most 3 (get_read_size six_bytes)))
    × (gather (six_bytes.before ++ six_bytes.after) iovs
        ≡ slice 2 (at_most 3 (get_read_size six_bytes)) (content six_bytes))
read_buffers_example =
    get_read_buffers_lem [] 3 six_bytes six_bytes-IsValid (omega arith) (omega arith)
