-- ===== src/Codec/Fixed.antt =====
-- server/bytearray.cc: `writeFint8` to `writeFuint64` and their reads.
use mathlib.Core.Path.{subst}
use zjh_server.Base.{ℕ, ◌+◌, ◌^◌, ◌≤◌, ◌<◌, ◌≡◌, sym, ap, ◌∙◌, List, ◌++◌, arith, length, drop}
use zjh_server.ByteArray.{ByteArray, Endian, ok, ◌>>=◌, read, set_position}
use zjh_server.ByteArray.Valid.{IsValid, content}
use zjh_server.ByteArray.Writing.{Written, write_lem}
use zjh_server.ByteArray.Remaining.{remaining, Yields, read_remaining, write_then_read}
use zjh_server.Codec.{write_fixed, read_fixed, ordered, from_memory}
use zjh_server.Codec.Wire.{wire, length-wire, to_memory-ordered, ordered-from_memory}

-- A fixed-width write puts the value's bytes in the buffer's byte order, whatever the machine's
-- is.
pub write_fixed-Written :
    (host : Endian) (n v : ℕ) (b : ByteArray)
    → IsValid b
    → b.position + n + b.base_size ≤ 2 ^ 64
    → Written (wire b.endian n v) b (write_fixed host n v b)
unfolding write_fixed
write_fixed-Written host n v b h fit =
    rw (to_memory-ordered host b.endian n v)
      (write_lem (wire b.endian n v) b h (omega (arith, length-wire b.endian n v)))

pub read_fixed-Yields :
    (host : Endian) (n v : ℕ) (rest : List ℕ) (b : ByteArray)
    → IsValid b
    → 0 < n
    → v < 256 ^ n
    → remaining b ≡ wire b.endian n v ++ rest
    → Yields v rest b.endian (read_fixed host n b)
unfolding read_fixed
read_fixed-Yields host n v rest b h p small e = finish (
    subst (λ (k : ℕ). Yields (wire b.endian n v) rest b.endian (read k b)) len
      (read_remaining (wire b.endian n v) rest b h e (omega (arith, len))))
  where
    len : length (wire b.endian n v) ≡ n
    len = length-wire b.endian n v

    finish :
        Yields (wire b.endian n v) rest b.endian (read n b)
        → Yields v rest b.endian
            (read n b >>= λ r. ok (ordered host b.endian n (from_memory host r.0), r.1))
    finish y = record {
      final = y.final;
      returns =
          rw y.returns
            (ap (λ (t : ℕ). ok (t, y.final)) (ordered-from_memory host b.endian n v small));
      valid = y.valid;
      left = y.left;
      same_endian = y.same_endian;
    }

-- A value that fits n bytes, n at least 1, written with fixed width is read back, on a
-- machine of either byte order.
pub fixed_round_trip :
    (host : Endian) (n v : ℕ) (b : ByteArray)
    → IsValid b
    → 0 < n
    → v < 256 ^ n
    → b.position + n + b.base_size ≤ 2 ^ 64
    → Yields v
        (drop (b.position + n) (content b))
        b.endian
        ((write_fixed host n v b >>= set_position b.position) >>= read_fixed host n)
fixed_round_trip host n v b h p small fit =
    subst
      (λ (k : ℕ).
        Yields v (drop (b.position + k) (content b)) b.endian
          ((write_fixed host n v b >>= set_position b.position) >>= read_fixed host n))
      (length-wire b.endian n v)
      (write_then_read v (wire b.endian n v) b (read_fixed host n) h
        (write_fixed-Written host n v b h fit)
        (λ rest s valid e same.
          read_fixed-Yields host n v rest s valid p small
            (e ∙ ap (λ x. wire x n v ++ rest) (sym same))))
