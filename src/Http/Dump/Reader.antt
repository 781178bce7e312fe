-- ===== src/Http/Dump/Reader.antt =====
-- A reader of messages that knows only their frame: lines that end with CR LF, the last one empty.
use mathlib.Core.List.{append_assoc, append-nil}
use zjh_server.Base.{
  ℕ, ◌≡◌, refl, ap, ◌∙◌, inl, inr, List, [], ◌∷◌, ◌++◌, ◌==◌, if◌then◌else◌, Bool, true, false,
  ◌&&◌, Option, none, some, arith, Bool-cases,
}
use zjh_server.Base.Text.{Text}
use zjh_server.Base.Text.Decimal.{has_byte, has_byte-append}

unfoldable pub is_blank : Text → Bool
is_blank [] = true
is_blank (b ∷ bs) = false

-- The line after one more byte, `cr` saying that a CR is held back.
unfoldable pub longer : Bool → Text → ℕ → Text
longer cr line b = line ++ ((if cr then 13 ∷ [] else []) ++ (if b == 13 then [] else b ∷ []))

-- The lines before the empty one, and what comes behind it.
unfoldable pub read_head : Bool → Text → List Text → Text → Option (List Text × Text)
unfolding is_blank longer
read_head cr line lines [] = none
read_head cr line lines (b ∷ bs) =
    let ends = cr && b == 10 in
    let rest =
      read_head (b == 13) (if ends then [] else longer cr line b)
        (if ends then lines ++ line ∷ [] else lines) bs in
    if ends && is_blank line then some (lines, bs) else rest

read_text :
    (t line rest : Text) (lines : List Text)
    → has_byte 13 t ≡ false
    → read_head false line lines (t ++ rest) ≡ read_head false (line ++ t) lines rest
unfolding read_head has_byte longer
read_text [] line rest lines h = rw append-nil refl
read_text (b ∷ bs) line rest lines h = elim (Bool-cases (b == 13)) [
  | inl e ↦ absurd (ground (arith, h, e))
  | inr e ↦ rw e (
      read_text bs (line ++ b ∷ []) rest lines (ground (arith, h, e))
      ∙ ap (λ t. read_head false t lines rest) (append_assoc line (b ∷ []) bs))
]

-- A line that is not empty and has no CR is read as it is.
pub read_line :
    (t rest : Text) (lines : List Text)
    → has_byte 13 t ≡ false
    → is_blank t ≡ false
    → read_head false [] lines (t ++ (13 ∷ 10 ∷ rest)) ≡ read_head false [] (lines ++ t ∷ []) rest
unfolding read_head is_blank longer
read_line [] rest lines h k = absurd (ground (arith, k))
read_line (b ∷ bs) rest lines h k =
    read_text (b ∷ bs) [] (13 ∷ 10 ∷ rest) lines h
    ∙ ap (λ t. read_head true t lines (10 ∷ rest)) (append-nil (b ∷ bs))

-- An empty line ends the head.
pub read_end :
    (rest : Text) (lines : List Text)
    → read_head false [] lines (13 ∷ 10 ∷ rest) ≡ some (lines, rest)
unfolding read_head
read_end rest lines = refl

pub clean_append :
    (b : ℕ) (xs ys : Text)
    → has_byte b xs ≡ false
    → has_byte b ys ≡ false
    → has_byte b (xs ++ ys) ≡ false
clean_append b xs ys h k = has_byte-append b xs ys ∙ rw (h, k) refl
