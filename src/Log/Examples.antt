-- ===== src/Log/Examples.antt =====
-- server/log.cc: the theorems on concrete patterns and loggers.
use zjh_server.Base.{◌≡◌, ◌≢◌, ◌↔◌, ◌⊎◌, refl, ap, List, [], ◌∷◌, map, true, false, some, arith}
use zjh_server.Base.Text.{codes, same_text, to_lower}
use zjh_server.Log.{
  warn, info, notset, level_number, level_to_string, level_from_string, LogEvent, Logger,
  LoggerManager, new_logger_manager,
}
use zjh_server.Log.Pattern.{LogFormatter, new_formatter, format}
use zjh_server.Log.Pattern.Reading.{Token, literal, directive, date, print, is_plain, formats_of}
use zjh_server.Log.Pattern.Rendering.{render, new_formatter_lem}
use zjh_server.Log.Appending.{level_reading}

abbrev warning : LogEvent
warning = record {
  level = warn;
  content = codes "low";
  file = codes "a.cc";
  line = 7;
  elapse = 12;
  thread_id = 3;
  fiber_id = 4;
  time = 100;
  thread_name = codes "t";
  logger_name = codes "root";
}

-- Two dates, a level and a message, with a directive that has no meaning at the end.
abbrev tokens : List Token
tokens =
    date (codes "%H")
    ∷ literal (codes " [")
    ∷ directive b'p'
    ∷ date (codes "%M")
    ∷ directive b'm'
    ∷ directive b'z'
    ∷ []

tokens_are_plain : is_plain true tokens ≡ true
unfolding is_plain
tokens_are_plain = refl

new_formatter_example :
    (f : LogFormatter) × (new_formatter (print tokens) ≡ some f)
    × (format (λ fmt t. fmt) f.items warning
        ≡ (render (λ fmt t. fmt) (formats_of tokens) tokens warning).0)
    × (f.error ≡ (render (λ fmt t. fmt) (formats_of tokens) tokens warning).1)
new_formatter_example = new_formatter_lem (λ fmt t. fmt) tokens warning tokens_are_plain

abbrev some_logger : Logger
some_logger = record { name = codes "a"; level = info; appenders = 1 ∷ 2 ∷ 1 ∷ []; create_time = 5 }

warn_is_set : warn ≢ notset
unfolding level_number
warn_is_set e = absurd (omega (arith, number e))
  where
    number : warn ≡ notset → level_number warn ≡ level_number notset
    number e = ap level_number e

level_reading_example :
    (level_from_string (codes "Warn") ≡ warn)
    ↔ ((codes "Warn" ≡ level_to_string warn) ⊎ (codes "Warn" ≡ map to_lower (level_to_string warn)))
level_reading_example = level_reading warn (codes "Warn") warn_is_set

abbrev manager : LoggerManager
manager = new_logger_manager 9 0

other_name : same_text (codes "system") (codes "root") ≡ false
unfolding same_text
other_name = refl
