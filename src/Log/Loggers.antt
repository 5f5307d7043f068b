-- ===== src/Log/Loggers.antt =====
-- Loggers, their appenders and the LoggerManager of src/log.h and src/log.cpp. A Logger and a LogAppender are objects that several holders share: they
-- live at addresses. A spin lock that its holder takes again, and a null pointer, are `none`.
use cool.Base.{
  ℕ, ◌+◌, not, List, [], ◌∷◌, ◌++◌, Option, none, some, leb, ◌==◌, if◌then◌else◌, is_some,
}
use cool.Base.Text.{Text, codes, text_eq}
use cool.Log.{LogEvent, LogFormatter, new_formatter, format_items}

infixl 5 ◌>>=◌
abbrev pub ◌>>=◌ : {A B : Type 0} → Option A → (A → Option B) → Option B
none >>= f = none
some a >>= f = f a

-- FileLogAppender with its file, or StdoutLogAppender.
pub data Target : Type 0 where
  to_file : Text → Target
  to_stdout : Target

pub record LogAppender : Type 0 where
  pub target : Target
  pub formatter : Option LogFormatter

pub record Logger : Type 0 where
  pub name : Text
  pub level : ℕ
  pub appenders : List ℕ
  pub formatter : Option LogFormatter

-- The objects, the map of LoggerManager and its root, and what was written where.
pub record Logs : Type 0 where
  pub loggers : ℕ → Logger
  pub appenders : ℕ → LogAppender
  pub next : ℕ
  pub names : List (Text × ℕ)
  pub root : ℕ
  pub written : List (Target × Text)

abbrev pub update : {A : Type 0} → (ℕ → A) → ℕ → A → ℕ → A
update f a v b = if b == a then v else f b

abbrev pub put_logger : Logs → ℕ → Logger → Logs
put_logger s a l = record s { loggers = update s.loggers a l }

-- Logger(name).
unfoldable pub new_logger : Text → Logger
new_logger name = record {
  name = name;
  level = 1;
  appenders = [];
  formatter = new_formatter (codes "%d{%Y-%m-%d %H:%M:%S} %t(%N):%F [%p] [%c] %f:%l %m %n");
}

-- Logger::add_appender.
unfoldable pub add_appender : Logs → ℕ → ℕ → Logs
add_appender s a p =
    let own = (s.appenders p).formatter in
    let filled = record (s.appenders p) {
      formatter = if is_some own then own else (s.loggers a).formatter;
    } in
    record s {
      appenders = update s.appenders p filled;
      loggers =
          update s.loggers a
            (record (s.loggers a) { appenders = (s.loggers a).appenders ++ p ∷ [] });
    }

-- The loop of Logger::del_appender.
unfoldable pub erase_first : ℕ → List ℕ → List ℕ
erase_first p [] = []
erase_first p (q ∷ qs) = if q == p then qs else q ∷ erase_first p qs

unfoldable pub del_appender : Logs → ℕ → ℕ → Logs
del_appender s a p =
    put_logger s a (record (s.loggers a) { appenders = erase_first p (s.loggers a).appenders })

unfoldable pub clear_appenders : Logs → ℕ → Logs
clear_appenders s a = put_logger s a (record (s.loggers a) { appenders = [] })

unfoldable pub set_level : Logs → ℕ → ℕ → Logs
set_level s a level = put_logger s a (record (s.loggers a) { level = level })

-- Logger::set_formatter(const std::string&): an invalid pattern changes nothing.
unfoldable pub set_formatter : Logs → ℕ → Text → Option Logs
set_formatter s a val = do
  f ← new_formatter val
  some (if f.error then s else put_logger s a (record (s.loggers a) { formatter = some f }))

-- LogAppender::log.
unfoldable pub append : (Text → ℕ → Text) → Logs → LogEvent → ℕ → Option Logs
append date s e p = do
  f ← (s.appenders p).formatter
  some (record s {
    written = s.written ++ ((s.appenders p).target, format_items date f.items e) ∷ [];
  })

unfoldable pub append_all : (Text → ℕ → Text) → Logs → LogEvent → List ℕ → Option Logs
append_all date s e [] = some s
append_all date s e (p ∷ ps) = do s' ← append date s e p; append_all date s' e ps

-- Logger::log of the root, which has no other to turn to: it calls itself under its own lock.
unfoldable pub log_root : (Text → ℕ → Text) → Logs → LogEvent → Option Logs
log_root date s e =
    if not (leb (s.loggers s.root).level e.level)
    then some s
    else elim (s.loggers s.root).appenders [ [] ↦ none | p ∷ ps ↦ append_all date s e (p ∷ ps) ]

-- Logger::log.
unfoldable pub log : (Text → ℕ → Text) → Logs → ℕ → LogEvent → Option Logs
log date s a e =
    if not (leb (s.loggers a).level e.level) then some s else elim (s.loggers a).appenders [
      | [] ↦ if a == s.root then none else log_root date s e
      | p ∷ ps ↦ append_all date s e (p ∷ ps)
    ]

unfoldable pub find_name : Text → List (Text × ℕ) → Option ℕ
find_name name [] = none
find_name name ((n, a) ∷ rest) = if text_eq n name then some a else find_name name rest

-- LoggerManager::get_logger; the map is the list of its entries, a new one in front.
unfoldable pub get_logger : Logs → Text → Logs × ℕ
get_logger s name = elim (find_name name s.names) [
  | some a ↦ (s, a)
  | none ↦ (
    record s {
      loggers = update s.loggers s.next (new_logger name);
      next = s.next + 1;
      names = (name, s.next) ∷ s.names;
    },
    s.next,
  )
]

unfoldable pub add_logger : Logs → Text → ℕ → Logs
add_logger s name a = record s { names = (name, a) ∷ s.names }

-- LoggerManager(): the root is the logger at 0, with one appender to stdout.
unfoldable pub new_manager : Logs
new_manager =
    let objects : Logs = record {
      loggers = λ _. new_logger (codes "root");
      appenders = λ _. record { target = to_stdout; formatter = none };
      next = 1;
      names = [];
      root = 0;
      written = [];
    } in
    add_logger (add_appender objects 0 0) (codes "root") 0
