-- ===== src/Log/Pattern/Rendering.antt =====
-- server/log.cc: what a formatter writes for a pattern, said of the tokens of the pattern.
use zjh_server.Base.{
  ℕ, ◌≡◌, refl, ap, ◌∙◌, inl, inr, List, [], ◌∷◌, ◌++◌, ◌==◌, if◌then◌else◌, Bool, true, false,
  Option, none, some, arith, Bool-cases,
}
use zjh_server.Base.Text.{Text, codes}
use zjh_server.Base.Text.Decimal.{to_decimal}
use zjh_server.Log.{LogEvent, level_to_string}
use zjh_server.Log.Pattern.{
  FormatItem, format_item, mark, mark_items, find_item, item_of, push_item, items_of, init,
  LogFormatter, new_formatter, format, new_date_time,
}
use zjh_server.Log.Pattern.Reading.{
  Token, literal, directive, date, print, is_plain, is_nil, pieces_of, formats_of, walk_tokens,
}

-- What the directives mean.
unfoldable pub meanings : LogEvent → List (ℕ × Text)
unfolding to_decimal level_to_string
meanings e =
    (b'm', e.content)
    ∷ (b'p', level_to_string e.level)
    ∷ (b'c', e.logger_name)
    ∷ (b'r', to_decimal e.elapse)
    ∷ (b'f', e.file)
    ∷ (b'l', to_decimal e.line)
    ∷ (b't', to_decimal e.thread_id)
    ∷ (b'F', to_decimal e.fiber_id)
    ∷ (b'N', e.thread_name)
    ∷ (b'%', codes "%")
    ∷ (b'T', 9 ∷ [])
    ∷ (b'n', 10 ∷ [])
    ∷ []

unfoldable pub meaning : ℕ → List (ℕ × Text) → Option Text
meaning c [] = none
meaning c (row ∷ rows) = let rest = meaning c rows in if row.0 == c then some row.1 else rest

abbrev pub default_format : Text → Text
default_format [] = codes "%Y-%m-%d %H:%M:%S"
default_format (c ∷ cs) = c ∷ cs

-- The text that a token stands for; dates are written in the format `fmt`.
unfoldable pub token_text : (Text → ℕ → Text) → Text → LogEvent → Token → Option Text
unfolding meaning meanings
token_text strftime fmt e (literal t) = some t
token_text strftime fmt e (date f) = some (strftime (default_format fmt) e.time)
token_text strftime fmt e (directive c) = meaning c (meanings e)

unfoldable pub write_text : Option Text → Text × Bool → Text × Bool
write_text none rest = ([], true)
write_text (some t) rest = (t ++ rest.0, rest.1)

-- The text of an event by the tokens up to the first directive without a meaning, and whether there
-- is one.
unfoldable pub render : (Text → ℕ → Text) → Text → List Token → LogEvent → Text × Bool
unfolding token_text write_text
render strftime fmt [] e = ([], false)
render strftime fmt (t ∷ ts) e = write_text (token_text strftime fmt e t) (render strftime fmt ts e)

texts_of : (Text → ℕ → Text) → LogEvent → List (ℕ × FormatItem) → List (ℕ × Text)
texts_of strftime e [] = []
texts_of strftime e (row ∷ rows) = (row.0, format_item strftime row.1 e) ∷ texts_of strftime e rows

text_of : (Text → ℕ → Text) → LogEvent → Option FormatItem → Option Text
text_of strftime e none = none
text_of strftime e (some i) = some (format_item strftime i e)

find-meaning :
    (strftime : Text → ℕ → Text) (e : LogEvent) (c : ℕ) (rows : List (ℕ × FormatItem))
    → text_of strftime e (find_item c rows) ≡ meaning c (texts_of strftime e rows)
unfolding text_of texts_of find_item meaning
find-meaning strftime e c [] = refl
find-meaning strftime e c (row ∷ rows) = elim (Bool-cases (row.0 == c)) [
  | inl h ↦ rw h refl
  | inr h ↦ rw h (find-meaning strftime e c rows)
]

mark_meaning :
    (strftime : Text → ℕ → Text) (e : LogEvent) (c : ℕ)
    → text_of strftime e (find_item c mark_items) ≡ meaning c (meanings e)
unfolding texts_of mark_items meanings format_item
mark_meaning strftime e c = find-meaning strftime e c mark_items

-- What the items of some pieces write, and whether they are not all known.
written : (Text → ℕ → Text) → LogEvent → List FormatItem × Bool → Text × Bool
unfolding format
written strftime e r = (format strftime r.0 e, r.1)

written-push_item :
    (strftime : Text → ℕ → Text) (e : LogEvent) (o : Option FormatItem) (r : List FormatItem × Bool)
    → written strftime e (push_item o r) ≡ write_text (text_of strftime e o) (written strftime e r)
unfolding written push_item write_text text_of format
written-push_item strftime e none r = refl
written-push_item strftime e (some i) r = refl

date_text :
    (strftime : Text → ℕ → Text) (e : LogEvent) (fmt : Text)
    → format_item strftime (new_date_time fmt) e ≡ strftime (default_format fmt) e.time
unfolding format_item new_date_time
date_text strftime e [] = refl
date_text strftime e (c ∷ cs) = refl

item_mark :
    (fmt : Text) (c : ℕ) → (c == b'd') ≡ false → item_of fmt (mark c) ≡ find_item c mark_items
unfolding item_of
item_mark fmt c h = rw h refl

written-items_of :
    (strftime : Text → ℕ → Text) (fmt : Text) (ts : List Token) (e : LogEvent) (fresh : Bool)
    → is_plain fresh ts ≡ true
    → written strftime e (items_of fmt (pieces_of ts)) ≡ render strftime fmt ts e
unfolding written items_of pieces_of render is_plain format
written-items_of strftime fmt [] e fresh h = refl
written-items_of strftime fmt (literal t ∷ ts) e fresh h =
    ap (λ r. write_text (some t) r) (written-items_of strftime fmt ts e false (ground (arith, h)))
written-items_of strftime fmt (date f ∷ ts) e fresh h =
    ap (λ t. write_text (some t) (written strftime e (items_of fmt (pieces_of ts))))
      (date_text strftime e fmt)
    ∙ ap (λ r. write_text (some (strftime (default_format fmt) e.time)) r)
        (written-items_of strftime fmt ts e true (ground (arith, h)))
written-items_of strftime fmt (directive c ∷ ts) e fresh h = elim (Bool-cases (c == b'd')) [
  | inl d ↦ absurd (ground (arith, h, d))
  | inr d ↦
      written-push_item strftime e (item_of fmt (mark c)) (items_of fmt (pieces_of ts))
      ∙ ap
          (λ o.
            write_text (text_of strftime e o) (written strftime e (items_of fmt (pieces_of ts))))
          (item_mark fmt c d)
      ∙ ap (λ o. write_text o (written strftime e (items_of fmt (pieces_of ts))))
          (mark_meaning strftime e c)
      ∙ ap (λ r. write_text (meaning c (meanings e)) r)
          (written-items_of strftime fmt ts e true (ground (arith, h, d)))
]

-- For a pattern of non-empty plain texts without `%` that do not meet, directives other than
-- `d`, and dates with a format in braces, the formatter writes an event token by token up to
-- the first directive without a meaning, each date in the formats of all dates put together,
-- and is in error exactly if there is such a directive.
pub new_formatter_lem :
    (strftime : Text → ℕ → Text) (ts : List Token) (e : LogEvent)
    → is_plain true ts ≡ true
    → (f : LogFormatter) × (new_formatter (print ts) ≡ some f)
      × (format strftime f.items e ≡ (render strftime (formats_of ts) ts e).0)
      × (f.error ≡ (render strftime (formats_of ts) ts e).1)
unfolding new_formatter written is_nil
new_formatter_lem strftime ts e h =
    let r = items_of (formats_of ts) (pieces_of ts) in
    let w = written-items_of strftime (formats_of ts) ts e true h in
    (
      record { pattern = print ts; items = r.0; error = r.1 },
      ap (init (print ts)) (walk_tokens ts [] [] [] h),
      ap (λ t. t.0) w,
      ap (λ t. t.1) w,
    )
