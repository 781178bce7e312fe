-- ===== src/Codec/Strings.antt =====
-- server/bytearray.cc: strings behind a length of 2, 4 or 8 bytes or a varint.
use mathlib.Core.Path.{subst, subst₂}
use mathlib.Core.List.{append_assoc, append-nil}
use zjh_server.Base.{
  ℕ, ◌+◌, ◌*◌, ◌%◌, ◌^◌, ◌≤◌, ◌<◌, ◌≡◌, refl, sym, ap, ◌∙◌, List, [], ◌++◌, arith, length, take,
  drop, length-append, length-take, take-append-drop, some,
}
use zjh_server.Base.Words.{u32, u64}
use zjh_server.ByteArray.{ByteArray, Endian, Result, ◌>>=◌, write, read, set_position}
use zjh_server.ByteArray.Valid.{IsValid, content}
use zjh_server.ByteArray.Writing.{Written}
use zjh_server.ByteArray.Appending.{Written-append}
use zjh_server.ByteArray.Remaining.{remaining, Yields, read_remaining, Rewound, rewind}
use zjh_server.Codec.{
  write_fixed, read_fixed, write_fuint16, write_fuint32, write_fuint64, read_fuint16, read_fuint32,
  read_fuint64, write_uint64, read_uint64, write_string_f16, write_string_f32, write_string_f64,
  write_string_vint, read_string_f16, read_string_f32, read_string_f64, read_string_vint,
  read_varint, write_varint, varint_bytes,
}
use zjh_server.Codec.Wire.{wire, length-wire}
use zjh_server.Codec.Fixed.{write_fixed-Written, read_fixed-Yields}
use zjh_server.Codec.Varint.{write_varint-Written}
use zjh_server.Codec.ReadVarint.{read_varint-Yields}

-- A header that yields the length `n`, then `n` bytes.
string-Yields :
    (n : ℕ) (head s rest : List ℕ) (b : ByteArray) (reader : ByteArray → Result (ℕ × ByteArray))
    → remaining b ≡ (head ++ s) ++ rest
    → length s ≡ n
    → 0 < n
    → (remaining b ≡ head ++ (s ++ rest) → Yields n (s ++ rest) b.endian (reader b))
    → Yields s rest b.endian (reader b >>= λ r. read r.0 r.1)
string-Yields n head s rest b reader e len pos header = record {
  final = z.final;
  returns = rw y.returns (ap (λ (k : ℕ). read k y.final) (sym len) ∙ z.returns);
  valid = z.valid;
  left = z.left;
  same_endian = z.same_endian ∙ y.same_endian;
}
  where
    y : Yields n (s ++ rest) b.endian (reader b)
    y = header (e ∙ append_assoc head s rest)

    z : Yields s rest y.final.endian (read (length s) y.final)
    z = read_remaining s rest y.final y.valid y.left (omega (arith, len, pos))

-- Writing `head ++ (s ++ t)`, where the header `head` reads as the length of `s`, going back and
-- reading gives `s`, and leaves `t` before what stood behind.
string_round_trip :
    (head s t : List ℕ) (b : ByteArray) (r : Result ByteArray)
    (reader : ByteArray → Result (ℕ × ByteArray))
    → IsValid b
    → 0 < length s
    → b.position + (length head + length (s ++ t)) + b.base_size ≤ 2 ^ 64
    → Written head b r
    → ((rest : List ℕ) (a : ByteArray)
        → IsValid a
        → a.endian ≡ b.endian
        → remaining a ≡ head ++ rest
        → Yields (length s) rest a.endian (reader a))
    → Yields s (t ++ drop (b.position + (length head + length (s ++ t))) (content b)) b.endian (
        ((r >>= write (s ++ t)) >>= set_position b.position) >>= λ a.
        reader a >>= λ q. read q.0 q.1)
string_round_trip head s t b r reader v ps fit w header = record {
  final = z.final;
  returns = rw back.returns z.returns;
  valid = z.valid;
  left = z.left;
  same_endian = z.same_endian ∙ back.same_endian;
}
  where
    back : Rewound (head ++ (s ++ t)) b (r >>= write (s ++ t))
    back = rewind (head ++ (s ++ t)) b v (Written-append head (s ++ t) b v fit w)

    rest : List ℕ
    rest = t ++ drop (b.position + (length head + length (s ++ t))) (content b)

    split : remaining back.final ≡ (head ++ s) ++ rest
    split =
        back.left
        ∙ ap (λ (k : ℕ). (head ++ (s ++ t)) ++ drop (b.position + k) (content b))
            (length-append head (s ++ t))
        ∙ regroup (drop (b.position + (length head + length (s ++ t))) (content b))
      where
        regroup : (c : List ℕ) → (head ++ (s ++ t)) ++ c ≡ (head ++ s) ++ (t ++ c)
        regroup c = simp append_assoc

    z : Yields s rest back.final.endian (reader back.final >>= λ q. read q.0 q.1)
    z =
        string-Yields (length s) head s rest back.final reader split refl ps
          (header (s ++ rest) back.final back.valid back.same_endian)

fixed_string :
    (host : Endian) (n m : ℕ) (s t : List ℕ) (b : ByteArray)
    → m ≡ length s
    → IsValid b
    → 0 < n
    → 0 < length s
    → length s < 256 ^ n
    → b.position + (n + length (s ++ t)) + b.base_size ≤ 2 ^ 64
    → Yields s (t ++ drop (b.position + (n + length (s ++ t))) (content b)) b.endian (
        ((write_fixed host n m b >>= write (s ++ t)) >>= set_position b.position) >>= λ a.
        read_fixed host n a >>= λ q. read q.0 q.1)
fixed_string host n m s t b e v pn ps small fit =
    subst
      (λ (k : ℕ). Yields s (t ++ drop (b.position + (k + length (s ++ t))) (content b)) b.endian (
        ((write_fixed host n m b >>= write (s ++ t)) >>= set_position b.position) >>= λ a.
        read_fixed host n a >>= λ q. read q.0 q.1))
      len
      (string_round_trip head s t b (write_fixed host n m b) (read_fixed host n) v ps
        (omega (arith, len))
        (subst (λ (k : ℕ). Written (wire b.endian n k) b (write_fixed host n m b)) e
          (write_fixed-Written host n m b v (omega arith)))
        (λ rest a valid same left.
          read_fixed-Yields host n (length s) rest a valid pn small
            (left ∙ ap (λ x. wire x n (length s) ++ rest) (sym same))))
  where
    head : List ℕ
    head = wire b.endian n (length s)

    len : length head ≡ n
    len = length-wire b.endian n (length s)

-- `writeStringF16` keeps the length modulo 2^16: where that is not 0, reading gives that much
-- of the string, and the rest of it is left before what stood behind.
pub string_f16_round_trip :
    (host : Endian) (s : List ℕ) (b : ByteArray)
    → IsValid b
    → 0 < length s % 2 ^ 16
    → b.position + (2 + length s) + b.base_size ≤ 2 ^ 64
    → Yields
        (take (length s % 2 ^ 16) s)
        (drop (length s % 2 ^ 16) s ++ drop (b.position + (2 + length s)) (content b))
        b.endian
        ((write_string_f16 host s b >>= set_position b.position) >>= read_string_f16 host)
unfolding write_string_f16 read_string_f16 write_fuint16 read_fuint16
string_f16_round_trip host s b v pos fit =
    subst
      (λ (u : List ℕ).
        Yields (take m s) (drop m s ++ drop (b.position + (2 + length u)) (content b)) b.endian (
          ((write_fixed host 2 m b >>= write u) >>= set_position b.position) >>= λ a.
          read_fixed host 2 a >>= λ q. read q.0 q.1))
      (take-append-drop m s)
      (fixed_string host 2 m (take m s) (drop m s) b (sym kept) v (omega arith)
        (omega (arith, kept, pos)) (omega (arith, kept))
        (omega (arith, ap length (take-append-drop m s))))
  where
    m : ℕ
    m = length s % 2 ^ 16

    kept : length (take m s) ≡ m
    kept = length-take m s (omega arith)

-- A non-empty string shorter than 2 ^ 32 bytes is read back whole.
pub string_f32_round_trip :
    (host : Endian) (s : List ℕ) (b : ByteArray)
    → IsValid b
    → 0 < length s
    → length s < 2 ^ 32
    → b.position + (4 + length s) + b.base_size ≤ 2 ^ 64
    → Yields s
        (drop (b.position + (4 + length s)) (content b))
        b.endian
        ((write_string_f32 host s b >>= set_position b.position) >>= read_string_f32 host)
unfolding write_string_f32 read_string_f32 write_fuint32 read_fuint32
string_f32_round_trip host s b v pos small fit =
    subst
      (λ (u : List ℕ). Yields s (drop (b.position + (4 + length u)) (content b)) b.endian (
        ((write_fixed host 4 (u32 (length s)) b >>= write u) >>= set_position b.position) >>= λ a.
        read_fixed host 4 a >>= λ q. read q.0 q.1))
      (append-nil s)
      (fixed_string host 4 (u32 (length s)) s [] b (omega arith) v (omega arith) pos (omega arith)
        (omega (arith, length-append s [])))

-- A non-empty string shorter than 2 ^ 64 bytes is read back whole.
pub string_f64_round_trip :
    (host : Endian) (s : List ℕ) (b : ByteArray)
    → IsValid b
    → 0 < length s
    → length s < 2 ^ 64
    → b.position + (8 + length s) + b.base_size ≤ 2 ^ 64
    → Yields s
        (drop (b.position + (8 + length s)) (content b))
        b.endian
        ((write_string_f64 host s b >>= set_position b.position) >>= read_string_f64 host)
unfolding write_string_f64 read_string_f64 write_fuint64 read_fuint64
string_f64_round_trip host s b v pos small fit =
    subst
      (λ (u : List ℕ). Yields s (drop (b.position + (8 + length u)) (content b)) b.endian (
        ((write_fixed host 8 (u64 (length s)) b >>= write u) >>= set_position b.position) >>= λ a.
        read_fixed host 8 a >>= λ q. read q.0 q.1))
      (append-nil s)
      (fixed_string host 8 (u64 (length s)) s [] b (omega arith) v (omega arith) pos (omega arith)
        (omega (arith, length-append s [])))

-- A non-empty string behind a varint length is read back whole.
pub string_vint_round_trip :
    (host : Endian) (s : List ℕ) (b : ByteArray)
    → IsValid b
    → 0 < length s
    → length s < 2 ^ 64
    → b.position + (10 + length s) + b.base_size ≤ 2 ^ 64
    → (head : List ℕ) × (varint_bytes 10 (length s) ≡ some head)
      × Yields s
          (drop (b.position + (length head + length s)) (content b))
          b.endian
          ((write_string_vint host s b >>= set_position b.position) >>= read_string_vint host)
unfolding write_string_vint read_string_vint write_uint64 read_uint64
string_vint_round_trip host s b v pos small fit =
    let same_length : length s ≡ u64 (length s) = omega arith in
    let (head, out, fits, w) =
      write_varint-Written 10 (length s) b v (omega arith) (omega arith) (omega arith) in
    let value : 0 + length s * 2 ^ 0 ≡ length s = omega arith in
    (
      head,
      out,
      subst₂
          (λ (k : ℕ) (u : List ℕ).
            Yields s (drop (b.position + (length head + length u)) (content b)) b.endian (
              ((write_varint 10 k b >>= write u) >>= set_position b.position) >>= λ a.
              read_varint host 64 10 0 0 a >>= λ q. read q.0 q.1))
          same_length (append-nil s)
          (string_round_trip head s [] b (write_varint 10 (length s) b) (read_varint host 64 10 0 0)
            v pos (omega (arith, fits, length-append s [])) w
            (λ rest a valid same left.
              subst (λ (k : ℕ). Yields k rest a.endian (read_varint host 64 10 0 0 a)) value
                (read_varint-Yields host 64 10 10 0 0 (length s) head rest a valid out left fits
                  (omega arith) (omega arith)))),
    )
