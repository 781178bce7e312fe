-- ===== src/Log/Pattern.antt =====
-- server/log.cc: LogFormatter, which reads a pattern into items and formats an event by them. The
-- walk over the pattern is a state machine on its characters; where the code reads behind the end
-- of the pattern, the model has a fault. `strftime` of the local time is a parameter.
pub mod Reading
pub mod Rendering
use zjh_server.Base.{
  ℕ, List, [], ◌∷◌, ◌++◌, ◌==◌, if◌then◌else◌, Bool, true, false, Option, none, some,
}
use zjh_server.Base.Text.{Text, codes}
use zjh_server.Base.Text.Decimal.{to_decimal}
use zjh_server.Log.{LogEvent, level_to_string}

pub data FormatItem : Type 0 where
  message_item : FormatItem
  level_item : FormatItem
  elapse_item : FormatItem
  logger_name_item : FormatItem
  thread_id_item : FormatItem
  fiber_id_item : FormatItem
  thread_name_item : FormatItem
  date_time_item : Text → FormatItem
  file_name_item : FormatItem
  line_item : FormatItem
  new_line_item : FormatItem
  string_item : Text → FormatItem
  tab_item : FormatItem
  percent_sign_item : FormatItem

-- The constructor of DateTimeFormatItem has a format of its own for an empty one.
unfoldable pub new_date_time : Text → FormatItem
new_date_time [] = date_time_item (codes "%Y-%m-%d %H:%M:%S")
new_date_time (c ∷ cs) = date_time_item (c ∷ cs)

unfoldable pub format_item : (Text → ℕ → Text) → FormatItem → LogEvent → Text
unfolding level_to_string to_decimal
format_item strftime message_item e = e.content
format_item strftime level_item e = level_to_string e.level
format_item strftime elapse_item e = to_decimal e.elapse
format_item strftime logger_name_item e = e.logger_name
format_item strftime thread_id_item e = to_decimal e.thread_id
format_item strftime fiber_id_item e = to_decimal e.fiber_id
format_item strftime thread_name_item e = e.thread_name
format_item strftime (date_time_item fmt) e = strftime fmt e.time
format_item strftime file_name_item e = e.file
format_item strftime line_item e = to_decimal e.line
format_item strftime new_line_item e = 10 ∷ []
format_item strftime (string_item s) e = s
format_item strftime tab_item e = 9 ∷ []
format_item strftime percent_sign_item e = codes "%"

-- A piece of a pattern: a plain string, of type 0, or the character behind a `%`, of type 1.
pub data Piece : Type 0 where
  plain : Text → Piece
  mark : ℕ → Piece

-- Where the walk stands: in a plain string, behind a `%`, behind `%d`, or in the braces of a date.
pub data Mode : Type 0 where
  in_text : Mode
  in_mark : Mode
  after_date : Mode
  in_braces : Mode

pub record PatternScan : Type 0 where
  pub patterns : List Piece
  pub tmp : Text
  pub dateformat : Text

-- `patterns` with what `tmp` holds, if anything.
unfoldable pub flush : List Piece → Text → List Piece
flush patterns [] = patterns
flush patterns (c ∷ cs) = patterns ++ plain (c ∷ cs) ∷ []

unfoldable pub text_step : ℕ → PatternScan → Mode × PatternScan
unfolding flush
text_step c s =
    let flushed : PatternScan = record s { patterns = flush s.patterns s.tmp; tmp = [] } in
    let longer : PatternScan = record s { tmp = s.tmp ++ c ∷ [] } in
    if c == b'%' then (in_mark, flushed) else (in_text, longer)

unfoldable pub mark_step : ℕ → PatternScan → Mode × PatternScan
mark_step c s =
    let marked : PatternScan = record s { patterns = s.patterns ++ mark c ∷ [] } in
    if c == b'd' then (after_date, marked) else (in_text, marked)

unfoldable pub brace_step : ℕ → PatternScan → Mode × PatternScan
brace_step c s =
    let longer : PatternScan = record s { dateformat = s.dateformat ++ c ∷ [] } in
    if c == b'}' then (in_text, s) else (in_braces, longer)

unfoldable pub step : Mode → ℕ → PatternScan → Mode × PatternScan
unfolding text_step mark_step brace_step
step in_text c s = text_step c s
step in_mark c s = mark_step c s
step after_date c s = if c == b'{' then (in_braces, s) else text_step c s
step in_braces c s = brace_step c s

pub data Walk : Type 0 where
  pieces : List Piece → Text → Walk
  not_closed : Walk
  out_of_range : Walk

-- The end of the pattern. Behind `%d` the code skips one character more and looks at the one that
-- follows the terminating NUL.
unfoldable pub walk_end : Mode → PatternScan → Walk
unfolding flush
walk_end in_text s = pieces (flush s.patterns s.tmp) s.dateformat
walk_end in_mark s = pieces (flush s.patterns s.tmp) s.dateformat
walk_end after_date s = out_of_range
walk_end in_braces s = not_closed

unfoldable pub walk : Mode → PatternScan → Text → Walk
unfolding step walk_end
walk m s [] = walk_end m s
walk m s (c ∷ cs) = let next = step m c s in walk next.0 next.1 cs

-- The items of `s_format_items`.
unfoldable pub mark_items : List (ℕ × FormatItem)
mark_items =
    (b'm', message_item)
    ∷ (b'p', level_item)
    ∷ (b'c', logger_name_item)
    ∷ (b'r', elapse_item)
    ∷ (b'f', file_name_item)
    ∷ (b'l', line_item)
    ∷ (b't', thread_id_item)
    ∷ (b'F', fiber_id_item)
    ∷ (b'N', thread_name_item)
    ∷ (b'%', percent_sign_item)
    ∷ (b'T', tab_item)
    ∷ (b'n', new_line_item)
    ∷ []

unfoldable pub find_item : ℕ → List (ℕ × FormatItem) → Option FormatItem
find_item c [] = none
find_item c (row ∷ rows) = let rest = find_item c rows in if row.0 == c then some row.1 else rest

-- The item of a piece; `none` for a mark that is not known.
unfoldable pub item_of : Text → Piece → Option FormatItem
unfolding new_date_time find_item mark_items
item_of dateformat (plain s) = some (string_item s)
item_of dateformat (mark c) =
    if c == b'd' then some (new_date_time dateformat) else find_item c mark_items

-- A piece that is not known ends the loop.
unfoldable pub push_item : Option FormatItem → List FormatItem × Bool → List FormatItem × Bool
push_item none rest = ([], true)
push_item (some i) rest = (i ∷ rest.0, rest.1)

-- The items up to the first mark that is not known, and whether there is one.
unfoldable pub items_of : Text → List Piece → List FormatItem × Bool
unfolding item_of push_item
items_of dateformat [] = ([], false)
items_of dateformat (p ∷ ps) = push_item (item_of dateformat p) (items_of dateformat ps)

pub record LogFormatter : Type 0 where
  pub pattern : Text
  pub items : List FormatItem
  pub error : Bool

-- What `init` makes of the pieces; `none` is the read out of range.
unfoldable pub init : Text → Walk → Option LogFormatter
unfolding items_of
init pattern out_of_range = none
init pattern not_closed = some (record { pattern = pattern; items = []; error = true })
init pattern (pieces ps dateformat) =
    let r = items_of dateformat ps in some (record { pattern = pattern; items = r.0; error = r.1 })

-- `LogFormatter(pattern)`.
unfoldable pub new_formatter : Text → Option LogFormatter
unfolding walk init
new_formatter pattern =
    init pattern (walk in_text (record { patterns = []; tmp = []; dateformat = [] }) pattern)

unfoldable pub format : (Text → ℕ → Text) → List FormatItem → LogEvent → Text
unfolding format_item
format strftime [] e = []
format strftime (i ∷ is) e = format_item strftime i e ++ format strftime is e
