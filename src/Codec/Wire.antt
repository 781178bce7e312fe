-- ===== src/Codec/Wire.antt =====
-- server/endian.h: the bytes of a fixed-width value on the wire.
use mathlib.Core.Path.{ap₂}
use mathlib.Core.List.{reverse, reverse-cons, reverse-reverse}
use native.Mathlib.Nat.{pow-suc}
use zjh_server.Base.{
  ℕ, zero, suc, ◌+◌, ◌*◌, ◌/◌, ◌%◌, ◌^◌, ◌<◌, ◌≡◌, refl, sym, ap, ◌∙◌, List, [], ◌∷◌, ◌++◌, arith,
  length, length-append,
}
use zjh_server.ByteArray.{Endian, little, big}
use zjh_server.Codec.{le_bytes, from_le, to_memory, from_memory, byteswap, ordered}

abbrev pub AllBytes : List ℕ → Type 0
AllBytes [] = Unit {0}
AllBytes (x ∷ xs) = (x < 256) × AllBytes xs

-- The wire format: `n` bytes in the buffer's order, whatever the machine's order is.
pub wire : Endian → ℕ → ℕ → List ℕ
wire little n v = le_bytes n v
wire big n v = reverse (le_bytes n v)

length-le_bytes : (n v : ℕ) → length (le_bytes n v) ≡ n
unfolding le_bytes
length-le_bytes zero v = refl
length-le_bytes (suc n) v = ap suc (length-le_bytes n (v / 256))

length-reverse : (xs : List ℕ) → length (reverse xs) ≡ length xs
length-reverse [] = refl
length-reverse (x ∷ xs) =
    omega
      (arith, ap length (reverse-cons x xs), length-append (reverse xs) (x ∷ []), length-reverse xs)

le_bytes-AllBytes : (n v : ℕ) → AllBytes (le_bytes n v)
unfolding le_bytes
le_bytes-AllBytes zero v = tt
le_bytes-AllBytes (suc n) v = (omega arith, le_bytes-AllBytes n (v / 256))

AllBytes-append : (xs ys : List ℕ) → AllBytes xs → AllBytes ys → AllBytes (xs ++ ys)
AllBytes-append [] ys h k = k
AllBytes-append (x ∷ xs) ys h k = (h.0, AllBytes-append xs ys h.1 k)

reverse-AllBytes : (xs : List ℕ) → AllBytes xs → AllBytes (reverse xs)
reverse-AllBytes [] h = tt
reverse-AllBytes (x ∷ xs) h =
    rw (reverse-cons x xs)
      (AllBytes-append (reverse xs) (x ∷ []) (reverse-AllBytes xs h.1) (h.0, tt))

from_le-le_bytes : (n v : ℕ) → v < 256 ^ n → from_le (le_bytes n v) ≡ v
unfolding le_bytes from_le
from_le-le_bytes zero v h = omega arith
from_le-le_bytes (suc n) v h =
    omega (arith, from_le-le_bytes n (v / 256) (omega (arith, pow-suc 256 n)))

le_bytes-from_le : (bs : List ℕ) → AllBytes bs → le_bytes (length bs) (from_le bs) ≡ bs
unfolding le_bytes from_le
le_bytes-from_le [] h = refl
le_bytes-from_le (b ∷ bs) h =
    let low : (b + 256 * from_le bs) % 256 ≡ b = omega (arith, h.0) in
    let high : (b + 256 * from_le bs) / 256 ≡ from_le bs = omega (arith, h.0) in
    ap₂ (λ (x : ℕ) (t : List ℕ). x ∷ t) low
      (ap (le_bytes (length bs)) high ∙ le_bytes-from_le bs h.1)

le_bytes-byteswap : (n v : ℕ) → le_bytes n (byteswap n v) ≡ reverse (le_bytes n v)
unfolding byteswap
le_bytes-byteswap n v =
    let len : length (reverse (le_bytes n v)) ≡ n =
      length-reverse (le_bytes n v) ∙ length-le_bytes n v in
    ap (λ (k : ℕ). le_bytes k (from_le (reverse (le_bytes n v)))) (sym len)
    ∙ le_bytes-from_le (reverse (le_bytes n v))
        (reverse-AllBytes (le_bytes n v) (le_bytes-AllBytes n v))

pub length-wire : (e : Endian) (n v : ℕ) → length (wire e n v) ≡ n
unfolding wire
length-wire little n v = length-le_bytes n v
length-wire big n v = length-reverse (le_bytes n v) ∙ length-le_bytes n v

-- Swapping where the orders differ makes the memory image the wire format, on either machine.
pub to_memory-ordered :
    (host e : Endian) (n v : ℕ) → to_memory host n (ordered host e n v) ≡ wire e n v
unfolding to_memory ordered wire
to_memory-ordered little little n v = refl
to_memory-ordered little big n v = le_bytes-byteswap n v
to_memory-ordered big little n v =
    ap reverse (le_bytes-byteswap n v) ∙ reverse-reverse (le_bytes n v)
to_memory-ordered big big n v = refl

-- And reading the wire format back gives the value.
pub ordered-from_memory :
    (host e : Endian) (n v : ℕ) → v < 256 ^ n → ordered host e n (from_memory host (wire e n v)) ≡ v
unfolding from_memory ordered wire byteswap
ordered-from_memory little little n v h = from_le-le_bytes n v h
ordered-from_memory little big n v h =
    ap (λ t. from_le (reverse t)) (le_bytes-byteswap n v)
    ∙ ap from_le (reverse-reverse (le_bytes n v))
    ∙ from_le-le_bytes n v h
ordered-from_memory big little n v h =
    ap (λ t. from_le (reverse t)) (le_bytes-byteswap n v)
    ∙ ap from_le (reverse-reverse (le_bytes n v))
    ∙ from_le-le_bytes n v h
ordered-from_memory big big n v h =
    ap from_le (reverse-reverse (le_bytes n v)) ∙ from_le-le_bytes n v h

-- Swapping twice where the orders differ gives the value back.
pub ordered-ordered :
    (host : Endian) (n v : ℕ) → v < 256 ^ n → ordered host big n (ordered host big n v) ≡ v
unfolding ordered byteswap from_memory wire
ordered-ordered little n v h = ordered-from_memory little big n v h
ordered-ordered big n v h = refl
