-- ===== src/ByteArray/Appending.antt =====
-- server/bytearray.cc: two writes in a row are one.
use mathlib.Core.Path.{ap₂}
use mathlib.Core.List.{append_assoc}
use zjh_server.Base.{
  ℕ, ◌+◌, ◌^◌, ◌≤◌, ◌≡◌, refl, sym, ap, ◌∙◌, List, ◌++◌, arith, length, take, drop, overwrite,
  length-append, length-take, take-length, take-append_le, take-append_add, drop-append_add,
  drop-drop,
}
use zjh_server.ByteArray.{ByteArray, Result, ◌>>=◌, write}
use zjh_server.ByteArray.Valid.{IsValid, content, length-content}
use zjh_server.ByteArray.Writing.{Written, write_lem}

overwrite-overwrite :
    (p : ℕ) (xs ys c : List ℕ)
    → p ≤ length c
    → overwrite (p + length xs) ys (overwrite p xs c) ≡ overwrite p (xs ++ ys) c
overwrite-overwrite p xs ys c h =
    rw (front, back)
      (append_assoc (take p c) xs _
        ∙ ap (λ t. take p c ++ t)
            (sym (append_assoc xs ys _) ∙ ap (λ (k : ℕ). (xs ++ ys) ++ drop k c) total))
  where
    len : length (take p c) ≡ p
    len = length-take p c h

    front : take (p + length xs) (overwrite p xs c) ≡ take p c ++ xs
    front =
        take-append_add (p + length xs) (length xs) (take p c) (xs ++ drop (p + length xs) c)
          (omega (arith, len))
        ∙ ap (λ t. take p c ++ t)
            (take-append_le (length xs) xs (drop (p + length xs) c) (omega arith)
              ∙ take-length (length xs) xs refl)

    back : drop (p + length xs + length ys) (overwrite p xs c) ≡ drop (p + length xs + length ys) c
    back =
        drop-append_add (p + length xs + length ys) (length xs + length ys) (take p c)
          (xs ++ drop (p + length xs) c) (omega (arith, len))
        ∙ drop-append_add (length xs + length ys) (length ys) xs (drop (p + length xs) c)
            (omega arith)
        ∙ drop-drop (p + length xs) (length ys) (p + length xs + length ys) c refl

    total : p + length xs + length ys ≡ p + length (xs ++ ys)
    total = omega (arith, length-append xs ys)

pub Written-append :
    (xs ys : List ℕ) (b : ByteArray) {r : Result ByteArray}
    → IsValid b
    → b.position + (length xs + length ys) + b.base_size ≤ 2 ^ 64
    → Written xs b r
    → Written (xs ++ ys) b (r >>= write ys)
Written-append xs ys b {r} v fit w = record {
  final = z.final;
  returns = rw w.returns z.returns;
  valid = z.valid;
  new_content =
      z.new_content
      ∙ ap₂ (λ (p : ℕ) t. overwrite p ys t) w.new_position w.new_content
      ∙ overwrite-overwrite b.position xs ys (content b)
          (omega (arith, length-content v, v.position_le));
  new_position = omega (arith, z.new_position, w.new_position, length-append xs ys);
  new_size = ground (arith, z.new_size, w.new_size, w.new_position, length-append xs ys);
  same_base = z.same_base ∙ w.same_base;
  same_endian = z.same_endian ∙ w.same_endian;
}
  where
    z : Written ys w.final (write ys w.final)
    z = write_lem ys w.final w.valid (omega (arith, fit, w.new_position, w.same_base))
