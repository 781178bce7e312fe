-- ===== src/Log/Pattern/Reading.antt =====
-- server/log.cc: a printer of patterns, and what the walk makes of what it prints.
use mathlib.Core.List.{append_assoc, append-nil}
use zjh_server.Base.{
  ℕ, ◌≡◌, refl, sym, ap, ◌∙◌, inl, inr, List, [], ◌∷◌, ◌++◌, ◌==◌, Bool, true, false, not, ◌&&◌,
  arith, Bool-cases,
}
use zjh_server.Base.Text.{Text}
use zjh_server.Base.Text.Decimal.{has_byte}
use zjh_server.Log.Pattern.{
  Piece, plain, mark, in_text, in_braces, PatternScan, flush, text_step, mark_step, brace_step,
  step, pieces, walk_end, walk,
}

-- A pattern as its writer means it: plain text, a directive, a date with its format.
pub data Token : Type 0 where
  literal : Text → Token
  directive : ℕ → Token
  date : Text → Token

unfoldable pub print : List Token → Text
print [] = []
print (literal t ∷ ts) = t ++ print ts
print (directive c ∷ ts) = b'%' ∷ c ∷ print ts
print (date f ∷ ts) = b'%' ∷ b'd' ∷ b'{' ∷ (f ++ (b'}' ∷ print ts))

unfoldable pub is_nil : Text → Bool
is_nil [] = true
is_nil (c ∷ cs) = false

-- The patterns that are printed without loss: plain texts are not empty, have no `%` and do not
-- meet, a directive is not `d`, a format has no closing brace.
unfoldable pub is_plain : Bool → List Token → Bool
unfolding is_nil has_byte
is_plain fresh [] = true
is_plain fresh (literal t ∷ ts) =
    fresh && (not (is_nil t) && (not (has_byte b'%' t) && is_plain false ts))
is_plain fresh (directive c ∷ ts) = not (c == b'd') && is_plain true ts
is_plain fresh (date f ∷ ts) = not (has_byte b'}' f) && is_plain true ts

unfoldable pub pieces_of : List Token → List Piece
pieces_of [] = []
pieces_of (literal t ∷ ts) = plain t ∷ pieces_of ts
pieces_of (directive c ∷ ts) = mark c ∷ pieces_of ts
pieces_of (date f ∷ ts) = mark b'd' ∷ pieces_of ts

-- The formats of all dates, one behind the other.
unfoldable pub formats_of : List Token → Text
formats_of [] = []
formats_of (literal t ∷ ts) = formats_of ts
formats_of (directive c ∷ ts) = formats_of ts
formats_of (date f ∷ ts) = f ++ formats_of ts

abbrev at_scan : List Piece → Text → Text → PatternScan
at_scan ps tmp df = record { patterns = ps; tmp = tmp; dateformat = df }

text_stays :
    (c : ℕ) (ps : List Piece) (tmp df : Text)
    → (c == b'%') ≡ false
    → text_step c (at_scan ps tmp df) ≡ (in_text, at_scan ps (tmp ++ c ∷ []) df)
unfolding text_step
text_stays c ps tmp df e = rw e refl

brace_stays :
    (c : ℕ) (ps : List Piece) (tmp df : Text)
    → (c == b'}') ≡ false
    → brace_step c (at_scan ps tmp df) ≡ (in_braces, at_scan ps tmp (df ++ c ∷ []))
unfolding brace_step
brace_stays c ps tmp df e = rw e refl

mark_ends :
    (c : ℕ) (ps : List Piece) (tmp df : Text)
    → (c == b'd') ≡ false
    → mark_step c (at_scan ps tmp df) ≡ (in_text, at_scan (ps ++ mark c ∷ []) tmp df)
unfolding mark_step
mark_ends c ps tmp df e = rw e refl

walk_text :
    (t rest tmp df : Text) (ps : List Piece)
    → has_byte b'%' t ≡ false
    → walk in_text (at_scan ps tmp df) (t ++ rest) ≡ walk in_text (at_scan ps (tmp ++ t) df) rest
unfolding walk step has_byte
walk_text [] rest tmp df ps h =
    ap (λ (u : Text). walk in_text (at_scan ps u df) rest) (sym (append-nil tmp))
walk_text (c ∷ cs) rest tmp df ps h = elim (Bool-cases (c == b'%')) [
  | inl e ↦ absurd (ground (arith, h, e))
  | inr e ↦
      ap (λ n. walk n.0 n.1 (cs ++ rest)) (text_stays c ps tmp df e)
      ∙ walk_text cs rest (tmp ++ c ∷ []) df ps (ground (arith, h, e))
      ∙ ap (λ (u : Text). walk in_text (at_scan ps u df) rest) (append_assoc tmp (c ∷ []) cs)
]

walk_braces :
    (f rest tmp df : Text) (ps : List Piece)
    → has_byte b'}' f ≡ false
    → walk in_braces (at_scan ps tmp df) (f ++ (b'}' ∷ rest))
      ≡ walk in_text (at_scan ps tmp (df ++ f)) rest
unfolding walk step brace_step has_byte
walk_braces [] rest tmp df ps h =
    ap (λ (u : Text). walk in_text (at_scan ps tmp u) rest) (sym (append-nil df))
walk_braces (c ∷ cs) rest tmp df ps h = elim (Bool-cases (c == b'}')) [
  | inl e ↦ absurd (ground (arith, h, e))
  | inr e ↦
      ap (λ n. walk n.0 n.1 (cs ++ (b'}' ∷ rest))) (brace_stays c ps tmp df e)
      ∙ walk_braces cs rest tmp (df ++ c ∷ []) ps (ground (arith, h, e))
      ∙ ap (λ (u : Text). walk in_text (at_scan ps tmp u) rest) (append_assoc df (c ∷ []) cs)
]

pub walk_tokens :
    (ts : List Token) (tmp df : Text) (ps : List Piece)
    → is_plain (is_nil tmp) ts ≡ true
    → walk in_text (at_scan ps tmp df) (print ts)
      ≡ pieces (flush ps tmp ++ pieces_of ts) (df ++ formats_of ts)
unfolding walk walk_end print is_plain is_nil flush step text_step mark_step pieces_of formats_of
walk_tokens [] tmp df ps h =
    ap (λ qs. pieces qs df) (sym (append-nil (flush ps tmp)))
    ∙ ap (λ u. pieces (flush ps tmp ++ []) u) (sym (append-nil df))
walk_tokens (literal [] ∷ ts) tmp df ps h = absurd (ground (arith, h))
walk_tokens (literal (x ∷ xs) ∷ ts) [] df ps h =
    walk_text (x ∷ xs) (print ts) [] df ps (ground (arith, h))
    ∙ walk_tokens ts (x ∷ xs) df ps (ground (arith, h))
    ∙ ap (λ qs. pieces qs (df ++ formats_of ts))
        (append_assoc ps (plain (x ∷ xs) ∷ []) (pieces_of ts))
walk_tokens (literal (x ∷ xs) ∷ ts) (c ∷ cs) df ps h = absurd (ground (arith, h))
walk_tokens (directive c ∷ ts) tmp df ps h = elim (Bool-cases (c == b'd')) [
  | inl e ↦ absurd (ground (arith, h, e))
  | inr e ↦
      ap (λ n. walk n.0 n.1 (print ts)) (mark_ends c (flush ps tmp) [] df e)
      ∙ walk_tokens ts [] df (flush ps tmp ++ mark c ∷ []) (ground (arith, h, e))
      ∙ ap (λ qs. pieces qs (df ++ formats_of ts))
          (append_assoc (flush ps tmp) (mark c ∷ []) (pieces_of ts))
]
walk_tokens (date f ∷ ts) tmp df ps h =
    walk_braces f (print ts) [] df (flush ps tmp ++ mark b'd' ∷ []) (ground (arith, h))
    ∙ walk_tokens ts [] (df ++ f) (flush ps tmp ++ mark b'd' ∷ []) (ground (arith, h))
    ∙ ap (λ qs. pieces qs ((df ++ f) ++ formats_of ts))
        (append_assoc (flush ps tmp) (mark b'd' ∷ []) (pieces_of ts))
    ∙ ap (λ u. pieces (flush ps tmp ++ mark b'd' ∷ pieces_of ts) u)
        (append_assoc df f (formats_of ts))
