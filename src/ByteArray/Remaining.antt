-- ===== src/ByteArray/Remaining.antt =====
-- server/bytearray.cc: what is left to read, and how typed reads consume it.
use mathlib.Core.Path.{ap₂}
use zjh_server.Base.{
  ℕ, ◌+◌, ◌≤◌, ◌<◌, ◌≡◌, refl, sym, ap, ◌∙◌, List, ◌++◌, arith, length, take, drop, length-append,
  length-drop, take-length, take-append_le, drop-append_add, drop-drop,
}
use zjh_server.Base.Overwrite.{slice-overwrite}
use zjh_server.ByteArray.{ByteArray, Endian, Result, ok, ◌>>=◌, read, set_position}
use zjh_server.ByteArray.Valid.{IsValid, content, length-content}
use zjh_server.ByteArray.Reading.{WasRead, read_lem}
use zjh_server.ByteArray.Writing.{Written}
use zjh_server.ByteArray.Placing.{Placed, Placed-content, set_position_lem}

-- The data from the position to the size.
abbrev pub remaining : ByteArray → List ℕ
remaining b = drop b.position (content b)

-- A read that yields `a` from the front of the data and leaves `rest`.
pub record Yields {ℓ} {A : Type ℓ} (a : A) (rest : List ℕ) (e : Endian) (r : Result (A × ByteArray))
    : Type ℓ where
  pub final : ByteArray
  pub returns : r ≡ ok (a, final)
  pub valid : IsValid final
  pub left : remaining final ≡ rest
  pub same_endian : final.endian ≡ e

pub read_remaining :
    (xs rest : List ℕ) (b : ByteArray)
    → IsValid b
    → remaining b ≡ xs ++ rest
    → 0 < length xs
    → Yields xs rest b.endian (read (length xs) b)
read_remaining xs rest b v e p = record {
  final = r.final;
  returns = r.returns ∙ ap (λ t. ok (t, r.final)) front;
  valid = r.valid;
  left =
      ap₂ (λ (n : ℕ) t. drop n t) r.new_position r.same_content
      ∙ sym (drop-drop b.position (length xs) (b.position + length xs) (content b) refl)
      ∙ ap (drop (length xs)) e
      ∙ drop-append_add (length xs) 0 xs rest (omega arith);
  same_endian = r.same_endian;
}
  where
    total : b.size ≡ b.position + (length xs + length rest)
    total = omega (
      arith,
      ap length e,
      length-drop b.position (content b),
      length-content v,
      length-append xs rest,
      v.position_le,
    )

    r : WasRead (length xs) b (read (length xs) b)
    r = read_lem (length xs) b v (omega (arith, total)) (omega (arith, total, p, v.size_le))

    front : take (length xs) (drop b.position (content b)) ≡ xs
    front =
        ap (take (length xs)) e
        ∙ take-append_le (length xs) xs rest (omega arith)
        ∙ take-length (length xs) xs refl

-- What was written is what remains after going back to where it was written.
pub record Rewound (buf : List ℕ) (b : ByteArray) (r : Result ByteArray) : Type 0 where
  pub final : ByteArray
  pub returns : (r >>= set_position b.position) ≡ ok final
  pub valid : IsValid final
  pub left : remaining final ≡ buf ++ drop (b.position + length buf) (content b)
  pub same_endian : final.endian ≡ b.endian

pub rewind :
    (buf : List ℕ) (b : ByteArray) {r : Result ByteArray}
    → IsValid b
    → Written buf b r
    → Rewound buf b r
rewind buf b v w = record {
  final = s.final;
  returns = rw w.returns s.returns;
  valid = s.valid;
  left =
      ap₂ (λ (n : ℕ) t. drop n t) s.new_position
        ((Placed-content b.position w.final s (omega (arith, covered))).0 ∙ w.new_content)
      ∙ slice-overwrite b.position buf (content b) (omega (arith, length-content v, v.position_le));
  same_endian = s.same_endian ∙ w.same_endian;
}
  where
    covered : b.position + length buf ≤ w.final.size
    covered = ground (arith, w.new_size)

    s : Placed b.position w.final (set_position b.position w.final)
    s = set_position_lem b.position w.final w.valid (omega (arith, covered, w.valid.size_le))

-- Writing, going back and reading, for a reader that decodes what was written.
pub write_then_read {ℓ} :
    {A : Type ℓ} (a : A) (buf : List ℕ) (b : ByteArray)
    (reader : ByteArray → Result (A × ByteArray)) {r : Result ByteArray}
    → IsValid b
    → Written buf b r
    → ((rest : List ℕ) (s : ByteArray)
        → IsValid s
        → remaining s ≡ buf ++ rest
        → s.endian ≡ b.endian
        → Yields a rest s.endian (reader s))
    → Yields a
        (drop (b.position + length buf) (content b))
        b.endian
        ((r >>= set_position b.position) >>= reader)
write_then_read a buf b reader {r} v w decodes = record {
  final = y.final;
  returns = rw back.returns y.returns;
  valid = y.valid;
  left = y.left;
  same_endian = y.same_endian ∙ back.same_endian;
}
  where
    back : Rewound buf b r
    back = rewind buf b v w

    y : Yields a (drop (b.position + length buf) (content b)) back.final.endian (reader back.final)
    y = decodes _ back.final back.valid back.left back.same_endian
