-- ===== src/Log/Defines.antt =====
-- The definitions of the log configuration in src/log.cpp, and the listener that applies a change of
-- them; the message that it logs first is left out. A null pointer is `none`.
use cool.Base.{
  ℕ, ◌+◌, Bool, true, false, not, ◌&&◌, List, [], ◌∷◌, Option, none, some, ◌==◌, if◌then◌else◌,
  is_some,
}
use cool.Base.Text.{Text, text_eq}
use cool.Log.{LogFormatter, new_formatter}
use cool.Log.Loggers.{
  Target, to_file, to_stdout, Logs, ◌>>=◌, update, add_appender, clear_appenders, set_level,
  set_formatter, get_logger,
}

-- LogAppenderDefine: type 1 is a file, 2 is stdout.
pub record LogAppenderDefine : Type 0 where
  pub type : ℕ
  pub formatter : Text
  pub file : Text

pub record LogDefine : Type 0 where
  pub name : Text
  pub level : ℕ
  pub formatter : Text
  pub appenders : List LogAppenderDefine

abbrev pub same_appender : LogAppenderDefine → LogAppenderDefine → Bool
same_appender a b = a.type == b.type && (text_eq a.formatter b.formatter && text_eq a.file b.file)

unfoldable pub same_appenders : List LogAppenderDefine → List LogAppenderDefine → Bool
same_appenders [] [] = true
same_appenders [] (b ∷ bs) = false
same_appenders (a ∷ as_) [] = false
same_appenders (a ∷ as_) (b ∷ bs) = same_appender a b && same_appenders as_ bs

-- LogDefine::operator==.
unfoldable pub same_define : LogDefine → LogDefine → Bool
same_define a b =
    text_eq a.name b.name
    && (a.level == b.level
        && (text_eq a.formatter b.formatter && same_appenders a.appenders b.appenders))

-- std::set::find, whose order compares the names.
unfoldable pub find_define : Text → List LogDefine → Option LogDefine
find_define name [] = none
find_define name (d ∷ ds) = if text_eq d.name name then some d else find_define name ds

abbrev pub target_of : LogAppenderDefine → Option Target
target_of d =
    if d.type == 1 then some (to_file d.file) else (if d.type == 2 then some to_stdout else none)

-- An optional formatter of an appender of the configuration.
unfoldable pub own_formatter : Text → Option (Option LogFormatter)
own_formatter [] = some none
own_formatter (c ∷ s) = do f ← new_formatter (c ∷ s); some (some f)

-- The loop over i.appenders; an unknown type leaves a null pointer.
unfoldable pub add_appenders : Logs → ℕ → List LogAppenderDefine → Option Logs
add_appenders s a [] = some s
add_appenders s a (d ∷ ds) = do
  t ← target_of d
  f ← own_formatter d.formatter
  let made = record s {
    appenders = update s.appenders s.next (record { target = t; formatter = f });
    next = s.next + 1;
  }
  add_appenders (add_appender made a s.next) a ds

abbrev pub set_formatter_if : Logs → ℕ → Text → Option Logs
set_formatter_if s a [] = some s
set_formatter_if s a (c ∷ v) = set_formatter s a (c ∷ v)

-- The logger of a define that was added or edited; null for one that stayed the same.
unfoldable pub logger_for : Logs → List LogDefine → LogDefine → Option (Logs × ℕ)
logger_for s old d = elim (find_define d.name old) [
  | none ↦ some (get_logger s d.name)
  | some o ↦ if not (same_define d o) then some (get_logger s d.name) else none
]

-- The body of the loop over new_value.
unfoldable pub apply_define : Logs → List LogDefine → LogDefine → Option Logs
apply_define s old d = do
  (s1, a) ← logger_for s old d
  s2 ← set_formatter_if (clear_appenders (set_level s1 a d.level) a) a d.formatter
  add_appenders s2 a d.appenders

unfoldable pub apply_all : Logs → List LogDefine → List LogDefine → Option Logs
apply_all s old [] = some s
apply_all s old (d ∷ ds) = do s' ← apply_define s old d; apply_all s' old ds

-- The loop over old_value, which silences the loggers that are gone.
unfoldable pub silence_all : Logs → List LogDefine → List LogDefine → Logs
silence_all s new_ [] = s
silence_all s new_ (d ∷ ds) =
    let s' = get_logger s d.name in
    silence_all
      (if is_some (find_define d.name new_)
        then s
        else clear_appenders (set_level s'.0 s'.1 100) s'.1)
      new_ ds

-- The listener of LogIniter.
unfoldable pub on_change : Logs → List LogDefine → List LogDefine → Option Logs
on_change s old new_ = do s' ← apply_all s old new_; some (silence_all s' new_ old)
