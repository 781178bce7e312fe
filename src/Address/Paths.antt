-- ===== src/Address/Paths.antt =====
-- server/address.cc: the path of a local address is the one it was made of.
use mathlib.Core.List.{append_assoc}
use zjh_server.Base.{
  ℕ, suc, ◌+◌, ◌-◌, ◌≤◌, ◌<◌, ◌≡◌, refl, ap, ◌∙◌, inl, inr, [], ◌∷◌, ◌++◌, arith, ◌==◌, length,
  take, replicate, length-append, take-length, take-append_le, false, some, Bool-cases, lt→ltb,
  le→ltb,
}
use zjh_server.Base.Text.{Text, codes, c_str}
use zjh_server.Base.Text.Decimal.{has_byte}
use zjh_server.Address.{UnixAddress, new_unix, get_path}

c_str-append : (xs rest : Text) → has_byte 0 xs ≡ false → c_str (xs ++ (0 ∷ rest)) ≡ xs
unfolding c_str has_byte
c_str-append [] rest h = refl
c_str-append (x ∷ xs) rest h = elim (Bool-cases (x == 0)) [
  | inl e ↦ absurd (ground (arith, h, e))
  | inr e ↦ rw e (ap (λ t. x ∷ t) (c_str-append xs rest (ground (arith, h, e))))
]

-- A path in the file system.
plain_path :
    (b : ℕ) (bs : Text)
    → has_byte 0 (b ∷ bs) ≡ false
    → length (b ∷ bs) < 108
    → (u : UnixAddress) × (new_unix (b ∷ bs) ≡ some u) × (get_path u ≡ b ∷ bs)
unfolding new_unix get_path has_byte
plain_path b bs h k = elim (Bool-cases (b == 0)) [
  | inl e ↦ absurd (ground (arith, h, e))
  | inr e ↦
      let size : ℕ = suc (length (b ∷ bs)) in
      let whole : take (length (b ∷ bs)) (bs ++ (0 ∷ [])) ≡ bs ++ (0 ∷ []) =
        take-length (length (b ∷ bs)) (bs ++ (0 ∷ [])) (omega (arith, length-append bs (0 ∷ []))) in
      rw (e, le→ltb 108 size (omega arith), whole)
        (
          record {
            sun_path = (b ∷ (bs ++ (0 ∷ []))) ++ replicate (108 - size) 0;
            length_of_address = size + 2;
          },
          refl,
          rw (e, lt→ltb 2 (size + 2) (omega arith))
              (ap (λ t. b ∷ t)
                (ap c_str (append_assoc bs (0 ∷ []) (replicate (108 - size) 0))
                  ∙ c_str-append bs (replicate (108 - size) 0) (ground (arith, h, e)))),
        )
]

-- A name that begins with a NUL byte.
abstract_path :
    (rest : Text)
    → suc (length rest) ≤ 108
    → (u : UnixAddress) × (new_unix (0 ∷ rest) ≡ some u) × (get_path u ≡ codes "\\0" ++ rest)
unfolding new_unix get_path
abstract_path rest k =
    let size : ℕ = suc (length rest) in
    let kept : take (length rest) (rest ++ (0 ∷ [])) ≡ rest =
      take-append_le (length rest) rest (0 ∷ []) (omega arith)
      ∙ take-length (length rest) rest refl in
    let back : size + 2 - 2 - 1 ≡ length rest = omega arith in
    rw (le→ltb 108 size (omega arith), kept)
      (
        record { sun_path = (0 ∷ rest) ++ replicate (108 - size) 0; length_of_address = size + 2 },
        refl,
        rw (lt→ltb 2 (size + 2) (omega arith), back)
            (ap (λ t. codes "\\0" ++ t)
              (take-append_le (length rest) rest (replicate (108 - size) 0) (omega arith)
                ∙ take-length (length rest) rest refl)),
      )

pub unix_path_lem :
    (b : ℕ) (bs rest : Text)
    → has_byte 0 (b ∷ bs) ≡ false
    → length (b ∷ bs) < 108
    → suc (length rest) ≤ 108
    → ((u : UnixAddress) × (new_unix (b ∷ bs) ≡ some u) × (get_path u ≡ b ∷ bs))
      × ((u : UnixAddress) × (new_unix (0 ∷ rest) ≡ some u) × (get_path u ≡ codes "\\0" ++ rest))
unix_path_lem b bs rest h k l = (plain_path b bs h k, abstract_path rest l)
