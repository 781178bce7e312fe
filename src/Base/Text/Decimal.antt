-- ===== src/Base/Text/Decimal.antt =====
-- Decimal numbers as `<<` prints them, and the reader that gets them back.
use zjh_server.Base.{
  ℕ, zero, suc, ◌+◌, ◌-◌, ◌*◌, ◌/◌, ◌%◌, ◌<◌, ◌≡◌, refl, ap, ◌∙◌, inl, inr, List, [], ◌∷◌, ◌++◌,
  arith, ltb, ◌==◌, if◌then◌else◌, leb, ◌&&◌, ◌||◌, false, Bool, Option, none, some, Bool-cases,
  ltb→lt, ltb→le, le→leb,
}

-- The digits of a number, before those that are given.
unfoldable digits_before : ℕ → ℕ → List ℕ → List ℕ
digits_before zero n ds = ds
digits_before (suc fuel) n ds =
    let ds2 = (b'0' + n % 10) ∷ ds in
    let rest = digits_before fuel (n / 10) ds2 in if ltb n 10 then ds2 else rest

-- A number has no more digits than one more than its value.
unfoldable pub to_decimal : ℕ → List ℕ
unfolding digits_before
to_decimal n = digits_before (suc n) n []

-- The value of a text that is digits alone, after those that give `acc`.
unfoldable pub from_decimal : ℕ → List ℕ → Option ℕ
from_decimal acc [] = some acc
from_decimal acc (d ∷ ds) =
    let rest = from_decimal (acc * 10 + (d - b'0')) ds in
    if leb b'0' d && leb d b'9' then rest else none

unfoldable pub has_byte : ℕ → List ℕ → Bool
has_byte b [] = false
has_byte b (x ∷ xs) = x == b || has_byte b xs

from_decimal_digit :
    (acc r n : ℕ) (ds : List ℕ)
    → r < 10
    → acc * 10 + r ≡ n
    → from_decimal acc ((b'0' + r) ∷ ds) ≡ from_decimal n ds
unfolding from_decimal
from_decimal_digit acc r n ds h e =
    rw (le→leb b'0' (b'0' + r) (omega arith), le→leb (b'0' + r) b'9' (omega arith))
      (let k : acc * 10 + (b'0' + r - b'0') ≡ n = omega (arith, e) in
        ap (λ (t : ℕ). from_decimal t ds) k)

from_decimal-digits_before :
    (fuel n : ℕ) (ds : List ℕ)
    → n < fuel
    → from_decimal 0 (digits_before fuel n ds) ≡ from_decimal n ds
unfolding digits_before
from_decimal-digits_before zero n ds h = absurd (omega arith)
from_decimal-digits_before (suc fuel) n ds h = elim (Bool-cases (ltb n 10)) [
  | inl l ↦ rw l (from_decimal_digit 0 (n % 10) n ds (omega arith) (omega (arith, ltb→lt n 10 l)))
  | inr l ↦ rw l (
      from_decimal-digits_before fuel (n / 10) ((b'0' + n % 10) ∷ ds) (omega (arith, ltb→le n 10 l))
      ∙ from_decimal_digit (n / 10) (n % 10) n ds (omega arith) (omega arith))
]

pub from_decimal-to_decimal : (n : ℕ) → from_decimal 0 (to_decimal n) ≡ some n
unfolding to_decimal from_decimal
from_decimal-to_decimal n = from_decimal-digits_before (suc n) n [] (omega arith)

has_byte-digits_before :
    (b fuel n : ℕ) (ds : List ℕ) → b < b'0' → has_byte b (digits_before fuel n ds) ≡ has_byte b ds
unfolding digits_before has_byte
has_byte-digits_before b zero n ds h = refl
has_byte-digits_before b (suc fuel) n ds h =
    ground (arith, has_byte-digits_before b fuel (n / 10) ((b'0' + n % 10) ∷ ds) h)

pub has_byte-to_decimal : (b n : ℕ) → b < b'0' → has_byte b (to_decimal n) ≡ false
unfolding to_decimal has_byte
has_byte-to_decimal b n h = has_byte-digits_before b (suc n) n [] h

pub has_byte-append :
    (b : ℕ) (xs ys : List ℕ) → has_byte b (xs ++ ys) ≡ (has_byte b xs || has_byte b ys)
unfolding has_byte
has_byte-append b [] ys = refl
has_byte-append b (x ∷ xs) ys = ground (arith, has_byte-append b xs ys)

is_digit : ℕ → Bool
is_digit c = leb b'0' c && leb c b'9'

-- The numbers in a text, any other byte being a border, after the digits that give `acc`.
unfoldable pub fields : ℕ → List ℕ → List ℕ
unfolding is_digit
fields acc [] = acc ∷ []
fields acc (c ∷ cs) =
    let rest = fields (if is_digit c then acc * 10 + (c - b'0') else 0) cs in
    if is_digit c then rest else acc ∷ rest

fields_digit :
    (acc r n : ℕ) (cs : List ℕ)
    → r < 10
    → acc * 10 + r ≡ n
    → fields acc ((b'0' + r) ∷ cs) ≡ fields n cs
unfolding fields is_digit
fields_digit acc r n cs h e =
    rw (le→leb b'0' (b'0' + r) (omega arith), le→leb (b'0' + r) b'9' (omega arith))
      (let k : acc * 10 + (b'0' + r - b'0') ≡ n = omega (arith, e) in ap (λ (t : ℕ). fields t cs) k)

fields-digits_before :
    (fuel n : ℕ) (ds rest : List ℕ)
    → n < fuel
    → fields 0 (digits_before fuel n ds ++ rest) ≡ fields n (ds ++ rest)
unfolding digits_before
fields-digits_before zero n ds rest h = absurd (omega arith)
fields-digits_before (suc fuel) n ds rest h = elim (Bool-cases (ltb n 10)) [
  | inl l ↦
      rw l (fields_digit 0 (n % 10) n (ds ++ rest) (omega arith) (omega (arith, ltb→lt n 10 l)))
  | inr l ↦ rw l (
      fields-digits_before fuel (n / 10) ((b'0' + n % 10) ∷ ds) rest (omega (arith, ltb→le n 10 l))
      ∙ fields_digit (n / 10) (n % 10) n (ds ++ rest) (omega arith) (omega arith))
]

pub fields-to_decimal : (n : ℕ) (rest : List ℕ) → fields 0 (to_decimal n ++ rest) ≡ fields n rest
unfolding to_decimal
fields-to_decimal n rest = fields-digits_before (suc n) n [] rest (omega arith)
