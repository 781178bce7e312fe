-- ===== src/Log/Appending.antt =====
-- server/log.cc: the theorems on the appenders of a logger, on the levels and on the manager.
use zjh_server.Base.{
  ℕ, suc, ◌+◌, ◌-◌, ◌≡◌, ◌≢◌, refl, sym, ap, ◌∙◌, ◌↔◌, ◌⊎◌, inl, inr, List, [], ◌∷◌, ◌++◌, map,
  ◌==◌, leb, if◌then◌else◌, true, false, none, some, arith, Bool-cases, Option-cases, length,
}
use zjh_server.Base.Text.{Text, same_text, same_text→≡, same_text_refl, to_lower}
use zjh_server.Log.{
  Level, fatal, alert, crit, error, warn, notice, info, debug, notset, level_to_string,
  level_from_string, level_texts, first_level, level_number, LogEvent, Logger, add_appender,
  erase_first, del_appender, log, LoggerManager, find_logger, get_logger,
}

-- How often a number is in a list.
unfoldable pub count : ℕ → List ℕ → ℕ
count a [] = 0
count a (b ∷ rest) = let others = count a rest in if b == a then suc others else others

count-append : (a : ℕ) (xs ys : List ℕ) → count a (xs ++ ys) ≡ count a xs + count a ys
unfolding count
count-append a [] ys = omega arith
count-append a (x ∷ xs) ys = ground (arith, count-append a xs ys)

count-erase_first :
    (a b : ℕ) (xs : List ℕ)
    → count a (erase_first b xs) ≡ (if a == b then count a xs - 1 else count a xs)
unfolding count erase_first
count-erase_first a b [] = ground arith
count-erase_first a b (x ∷ xs) = elim (Bool-cases (x == b)) [
  | inl e ↦ rw e (ground (arith, e))
  | inr e ↦ rw e (ground (arith, e, count-erase_first a b xs))
]

-- An event that the level lets through goes to an appender once more after `addAppender` and
-- once less, if at all, after `delAppender`, and as often as before to any other; other
-- events go to none.
pub logger_lem :
    (a b : ℕ) (e : LogEvent) (l : Logger)
    → (count a (log e (add_appender b l))
        ≡ count a (log e l)
          + (if a == b
              then (if leb (level_number e.level) (level_number l.level) then 1 else 0)
              else 0))
      × (count a (log e (del_appender b l))
          ≡ (if a == b then count a (log e l) - 1 else count a (log e l)))
unfolding log add_appender del_appender count
logger_lem a b e l = elim (Bool-cases (leb (level_number e.level) (level_number l.level))) [
  | inl h ↦
      rw h (ground (arith, count-append a l.appenders (b ∷ [])), count-erase_first a b l.appenders)
  | inr h ↦ rw h (ground arith, ground arith)
]

from_capitals : (l : Level) → level_from_string (level_to_string l) ≡ l
unfolding level_from_string level_to_string
from_capitals fatal = refl
from_capitals alert = refl
from_capitals crit = refl
from_capitals error = refl
from_capitals warn = refl
from_capitals notice = refl
from_capitals info = refl
from_capitals debug = refl
from_capitals notset = refl

from_small : (l : Level) → level_from_string (map to_lower (level_to_string l)) ≡ l
unfolding level_from_string level_to_string to_lower
from_small fatal = refl
from_small alert = refl
from_small crit = refl
from_small error = refl
from_small warn = refl
from_small notice = refl
from_small info = refl
from_small debug = refl
from_small notset = refl

IsName : Level × Text → Type 0
IsName row = (row.1 ≡ level_to_string row.0) ⊎ (row.1 ≡ map to_lower (level_to_string row.0))

AllNames : List (Level × Text) → Type 0
unfolding IsName
AllNames [] = true ≡ true
AllNames (row ∷ rows) = IsName row × AllNames rows

level_texts-AllNames : AllNames level_texts
unfolding AllNames IsName level_texts level_to_string to_lower
level_texts-AllNames = (
  inr refl,
  (
    inr refl,
    (
      inr refl,
      (
        inr refl,
        (
          inr refl,
          (
            inr refl,
            (
              inr refl,
              (
                inr refl,
                (
                  inl refl,
                  (
                    inl refl,
                    (inl refl, (inl refl, (inl refl, (inl refl, (inl refl, (inl refl, refl)))))),
                  ),
                ),
              ),
            ),
          ),
        ),
      ),
    ),
  ),
)

first_level_found :
    (s : Text) (rows : List (Level × Text)) (l : Level)
    → AllNames rows
    → l ≢ notset
    → first_level s rows ≡ l
    → (s ≡ level_to_string l) ⊎ (s ≡ map to_lower (level_to_string l))
unfolding first_level AllNames IsName
first_level_found s [] l names h e = absurd (h (sym e))
first_level_found s (row ∷ rows) l names h e = elim (Bool-cases (same_text s row.1)) [
  | inl t ↦
      let k : row.0 ≡ l = sym (rw t refl) ∙ e in
      let m : s ≡ row.1 = same_text→≡ s row.1 t in
      elim names.0 [
        | inl n ↦ inl (m ∙ n ∙ ap level_to_string k)
        | inr n ↦ inr (m ∙ n ∙ ap (λ v. map to_lower (level_to_string v)) k)
      ]
  | inr t ↦ first_level_found s rows l names.1 h (sym (rw t refl) ∙ e)
]

-- `FromString` gives a level other than NOTSET for exactly two texts: the one that `ToString`
-- gives and that one in small letters.
pub level_reading :
    (l : Level) (s : Text)
    → l ≢ notset
    → (level_from_string s ≡ l) ↔ ((s ≡ level_to_string l) ⊎ (s ≡ map to_lower (level_to_string l)))
unfolding level_from_string
level_reading l s h = (
  λ e. first_level_found s level_texts l level_texts-AllNames h e,
  λ e. elim e [
    | inl c ↦ ap level_from_string c ∙ from_capitals l
    | inr c ↦ ap level_from_string c ∙ from_small l
  ],
)

find_logger-append :
    (name : Text) (ptr : ℕ) (es : List (Text × ℕ))
    → find_logger name es ≡ none
    → (find_logger name (es ++ (name, ptr) ∷ []) ≡ some ptr)
unfolding find_logger
find_logger-append name ptr [] h = rw (same_text_refl name) refl
find_logger-append name ptr (e ∷ es) h = elim (Bool-cases (same_text e.0 name)) [
  | inl t ↦ absurd (ground (arith, h, t))
  | inr t ↦ rw t (find_logger-append name ptr es (ground (arith, h, t)))
]

find_logger-other :
    (name other : Text) (ptr : ℕ) (es : List (Text × ℕ))
    → same_text name other ≡ false
    → find_logger other (es ++ (name, ptr) ∷ []) ≡ find_logger other es
unfolding find_logger
find_logger-other name other ptr [] h = rw h refl
find_logger-other name other ptr (e ∷ es) h = elim (Bool-cases (same_text e.0 other)) [
  | inl t ↦ rw t refl
  | inr t ↦ rw t (find_logger-other name other ptr es h)
]

pub get_logger_lem :
    (name other : Text) (now later : ℕ) (m : LoggerManager)
    → same_text name other ≡ false
    → (get_logger name later (get_logger name now m).0 ≡ get_logger name now m)
      × (find_logger other (get_logger name now m).0.loggers ≡ find_logger other m.loggers)
unfolding get_logger
get_logger_lem name other now later m h = elim (Option-cases (find_logger name m.loggers)) [
  | inl n ↦
      rw (n, find_logger-append name (length m.heap) m.loggers n)
        (refl, find_logger-other name other (length m.heap) m.loggers h)
  | inr (ptr, n) ↦ rw (n, n) (refl, refl)
]
