-- ===== src/Http/Dump/Framing.antt =====
-- server/http/http.cc: the theorems on the frame of what `dump` writes.
use zjh_server.Base.{
  ◌≡◌, refl, sym, ap, ◌∙◌, inl, inr, List, [], ◌∷◌, ◌++◌, if◌then◌else◌, Bool, true, false, some,
  arith, Bool-cases, length,
}
use mathlib.Core.List.{append_assoc, append-nil}
use zjh_server.Base.Text.{Text, codes, same_text, caseless}
use zjh_server.Base.Text.Decimal.{has_byte, has_byte-to_decimal}
use zjh_server.Http.MapType.{MapType}
use zjh_server.Http.Dump.{header_lines, connection_line, length_line, ending}
use zjh_server.Http.Dump.Reader.{read_head, is_blank, read_line, read_end, clean_append}

unfoldable pub AllClean : MapType → Type 0
unfolding has_byte
AllClean [] = true ≡ true
AllClean (e ∷ es) = ((has_byte 13 e.0 ≡ false) × (has_byte 13 e.1 ≡ false)) × AllClean es

-- The lines of the headers that `dump` writes.
unfoldable pub lines_of : MapType → List Text
lines_of [] = []
lines_of (e ∷ es) =
    let rest = lines_of es in
    if same_text (caseless e.0) (caseless (codes "connection"))
    then rest
    else (e.0 ++ (codes ": " ++ e.1)) ∷ rest

-- The line of a body that is there.
unfoldable pub length_lines : Text → List Text
length_lines [] = []
length_lines (b ∷ bs) = length_line (b ∷ bs) ∷ []

is_blank_header : (k v : Text) → is_blank (k ++ (codes ": " ++ v)) ≡ false
unfolding is_blank
is_blank_header [] v = refl
is_blank_header (b ∷ bs) v = refl

pub read_headers :
    (m : MapType) (rest : Text) (lines : List Text)
    → AllClean m
    → read_head false [] lines (header_lines m ++ rest)
      ≡ read_head false [] (lines ++ lines_of m) rest
unfolding header_lines lines_of AllClean has_byte
read_headers [] rest lines c = ap (λ ls. read_head false [] ls rest) (sym (append-nil lines))
read_headers (e ∷ es) rest lines c =
    elim (Bool-cases (same_text (caseless e.0) (caseless (codes "connection")))) [
      | inl s ↦ rw s (read_headers es rest lines c.1)
      | inr s ↦
          let line : Text = e.0 ++ (codes ": " ++ e.1) in
          rw s (
            ap (λ t. read_head false [] lines t)
              (append_assoc line (13 ∷ 10 ∷ header_lines es) rest)
            ∙ read_line line (header_lines es ++ rest) lines
                (clean_append 13 e.0 (codes ": " ++ e.1) c.0.0
                  (clean_append 13 (codes ": ") e.1 refl c.0.1))
                (is_blank_header e.0 e.1)
            ∙ read_headers es rest (lines ++ line ∷ []) c.1
            ∙ ap (λ ls. read_head false [] ls rest) (append_assoc lines (line ∷ []) (lines_of es)))
    ]

length_line_clean : (body : Text) → has_byte 13 (length_line body) ≡ false
unfolding length_line has_byte
length_line_clean body = has_byte-to_decimal 13 (length body) (omega arith)

pub read_ending :
    (body rest : Text) (lines : List Text)
    → read_head false [] lines (ending body ++ rest)
      ≡ some (lines ++ length_lines body, body ++ rest)
unfolding ending length_lines length_line is_blank
read_ending [] rest lines =
    read_end rest lines ∙ ap (λ ls. some (ls, rest)) (sym (append-nil lines))
read_ending (b ∷ bs) rest lines =
    let line : Text = length_line (b ∷ bs) in
    ap (λ t. read_head false [] lines t) (append_assoc line (13 ∷ 10 ∷ 13 ∷ 10 ∷ b ∷ bs) rest)
    ∙ read_line line (13 ∷ 10 ∷ b ∷ (bs ++ rest)) lines (length_line_clean (b ∷ bs)) refl
    ∙ read_end (b ∷ (bs ++ rest)) (lines ++ line ∷ [])

pub read_connection :
    (close : Bool) (rest : Text) (lines : List Text)
    → read_head false [] lines (connection_line close ++ (13 ∷ 10 ∷ rest))
      ≡ read_head false [] (lines ++ connection_line close ∷ []) rest
unfolding connection_line has_byte is_blank
read_connection true rest lines = read_line (connection_line true) rest lines refl refl
read_connection false rest lines = read_line (connection_line false) rest lines refl refl
