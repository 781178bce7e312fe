-- ===== src/Log.antt =====
-- server/log.h and log.cc: levels, events, loggers with their appenders, and the manager. An
-- appender or a logger is known by a number, as its pointer.
pub mod Pattern
pub mod Appending
pub mod Examples
use zjh_server.Base.{
  ℕ, ◌+◌, ◌%◌, ◌^◌, List, [], ◌∷◌, ◌++◌, ◌==◌, leb, if◌then◌else◌, Bool, true, false, Option, none,
  some, length,
}
use zjh_server.Base.Text.{Text, codes, same_text}

pub data Level : Type 0 where
  fatal : Level
  alert : Level
  crit : Level
  error : Level
  warn : Level
  notice : Level
  info : Level
  debug : Level
  notset : Level

unfoldable pub level_number : Level → ℕ
level_number fatal = 0
level_number alert = 100
level_number crit = 200
level_number error = 300
level_number warn = 400
level_number notice = 500
level_number info = 600
level_number debug = 700
level_number notset = 800

unfoldable pub level_to_string : Level → Text
level_to_string fatal = codes "FATAL"
level_to_string alert = codes "ALERT"
level_to_string crit = codes "CRIT"
level_to_string error = codes "ERROR"
level_to_string warn = codes "WARN"
level_to_string notice = codes "NOTICE"
level_to_string info = codes "INFO"
level_to_string debug = codes "DEBUG"
level_to_string notset = codes "NOTSET"

-- The texts that `FromString` compares with, in its order.
unfoldable pub level_texts : List (Level × Text)
level_texts =
    (fatal, codes "fatal")
    ∷ (alert, codes "alert")
    ∷ (crit, codes "crit")
    ∷ (error, codes "error")
    ∷ (warn, codes "warn")
    ∷ (notice, codes "notice")
    ∷ (info, codes "info")
    ∷ (debug, codes "debug")
    ∷ (fatal, codes "FATAL")
    ∷ (alert, codes "ALERT")
    ∷ (crit, codes "CRIT")
    ∷ (error, codes "ERROR")
    ∷ (warn, codes "WARN")
    ∷ (notice, codes "NOTICE")
    ∷ (info, codes "INFO")
    ∷ (debug, codes "DEBUG")
    ∷ []

unfoldable pub first_level : Text → List (Level × Text) → Level
unfolding same_text
first_level str [] = notset
first_level str (row ∷ rows) =
    let rest = first_level str rows in if same_text str row.1 then row.0 else rest

unfoldable pub level_from_string : Text → Level
unfolding first_level level_texts
level_from_string str = first_level str level_texts

pub record LogEvent : Type 0 where
  pub level : Level
  pub content : Text
  pub file : Text
  pub line : ℕ
  pub elapse : ℕ
  pub thread_id : ℕ
  pub fiber_id : ℕ
  pub time : ℕ
  pub thread_name : Text
  pub logger_name : Text

pub record Logger : Type 0 where
  pub name : Text
  pub level : Level
  pub appenders : List ℕ
  pub create_time : ℕ

unfoldable pub new_logger : Text → ℕ → Logger
new_logger name now = record { name = name; level = info; appenders = []; create_time = now }

unfoldable pub set_level : Level → Logger → Logger
set_level v l = record l { level = v }

unfoldable pub add_appender : ℕ → Logger → Logger
add_appender appender l = record l { appenders = l.appenders ++ appender ∷ [] }

-- The list without the first that is equal.
unfoldable pub erase_first : ℕ → List ℕ → List ℕ
erase_first appender [] = []
erase_first appender (a ∷ rest) =
    let others = erase_first appender rest in if a == appender then rest else a ∷ others

unfoldable pub del_appender : ℕ → Logger → Logger
unfolding erase_first
del_appender appender l = record l { appenders = erase_first appender l.appenders }

unfoldable pub clear_appenders : Logger → Logger
clear_appenders l = record l { appenders = [] }

-- The appenders whose `log` is called with the event, in order.
unfoldable pub log : LogEvent → Logger → List ℕ
unfolding level_number
log event l = if leb (level_number event.level) (level_number l.level) then l.appenders else []

-- The loggers by name; `heap` has the objects.
pub record LoggerManager : Type 0 where
  pub loggers : List (Text × ℕ)
  pub heap : List Logger
  pub root : ℕ

-- The root logger writes to the appender `stdout`.
unfoldable pub new_logger_manager : ℕ → ℕ → LoggerManager
unfolding new_logger add_appender
new_logger_manager stdout now = record {
  loggers = (codes "root", 0) ∷ [];
  heap = add_appender stdout (new_logger (codes "root") now) ∷ [];
  root = 0;
}

unfoldable pub find_logger : Text → List (Text × ℕ) → Option ℕ
unfolding same_text
find_logger name [] = none
find_logger name (e ∷ es) =
    let rest = find_logger name es in if same_text e.0 name then some e.1 else rest

-- The manager afterwards and the logger.
unfoldable pub get_logger : Text → ℕ → LoggerManager → LoggerManager × ℕ
unfolding find_logger new_logger
get_logger name now m = answer (find_logger name m.loggers)
  where
    answer : Option ℕ → LoggerManager × ℕ
    answer (some logger) = (m, logger)
    answer none = (
      record m {
        loggers = m.loggers ++ (name, length m.heap) ∷ [];
        heap = m.heap ++ new_logger name now ∷ [];
      },
      length m.heap,
    )

-- A file appender: whether the last opening failed, when it was, and the
-- texts that it has taken.
pub record FileLogAppender : Type 0 where
  pub filename : Text
  pub written : List Text
  pub last_time : ℕ
  pub reopen_error : Bool

-- `opened` says whether the file could be opened.
unfoldable pub reopen : Bool → FileLogAppender → FileLogAppender
reopen true a = record a { reopen_error = false }
reopen false a = record a { reopen_error = true }

unfoldable pub new_file_appender : Text → Bool → FileLogAppender
unfolding reopen
new_file_appender file opened =
    reopen opened (record { filename = file; written = []; last_time = 0; reopen_error = false })

-- `text` is what the formatter makes of the event.
unfoldable pub log_to_file : Bool → ℕ → Text → FileLogAppender → FileLogAppender
unfolding reopen
log_to_file opened now text a =
    let due = leb ((a.last_time + 3) % 2 ^ 64) now in
    let a2 : FileLogAppender = if due then record (reopen opened a) { last_time = now } else a in
    if a2.reopen_error then a2 else record a2 { written = a2.written ++ text ∷ [] }
