-- ===== src/Log/Runs.antt =====
-- Patterns, loggers and configurations of src/log.cpp, and the theorems at them.
use cool.Log.Defines.{LogDefine}
use cool.Log.Casts.{from_nodes, to_nodes}
use cool.Log.Casts.RoundTrip.{
  readable_appender, readable_appenders, readable, by_name, from_nodes-to_nodes,
}
use cool.Base.{
  suc, Bool, true, ltb, ◌&&◌, ◌||◌, arith, ◌≡◌, refl, ◌++◌, false, List, [], ◌∷◌, map, some, length,
  ◌==◌, if◌then◌else◌,
}
use cool.Base.Text.{Text, codes}
use cool.Log.{LogEvent, LogFormatter, message, level_item, split_pattern}
use cool.Log.Pattern.{Segment, write_pattern, pieces, write_pattern-split_pattern}
use cool.Log.Loggers.{Logs, to_stdout, log}
use cool.Log.Delivery.{receivers, entry, log_lem}

abbrev two_items : List Segment
two_items =
    record { before = codes "at "; name = codes "d"; fmt = codes "%H:%M" }
    ∷ record { before = []; name = codes "m"; fmt = [] }
    ∷ []

write_pattern-split_pattern_example :
    split_pattern
      (suc (length (write_pattern two_items (codes "."))))
      (write_pattern two_items (codes "."))
      []
      []
      false
    ≡ some (pieces two_items (codes "."), false)
write_pattern-split_pattern_example =
    write_pattern-split_pattern two_items (codes ".")
      (
        ((refl, (refl, (refl, tt))), ((refl, tt), (refl, (refl, (refl, (refl, (refl, tt))))))),
        ((tt, ((refl, tt), tt)), tt),
      )
      (refl, tt)

abbrev plain : LogFormatter
plain = record { format_pattern = codes "%p"; items = level_item ∷ message ∷ []; error = false }

-- The root at address 0 writes to appender 0; logger 1 has none of its own.
abbrev logs : Logs
logs = record {
  loggers = λ a.
      if a == 0
      then record { name = codes "root"; level = 1; appenders = 0 ∷ []; formatter = some plain }
      else record { name = codes "system"; level = 2; appenders = []; formatter = some plain };
  appenders = λ _. record { target = to_stdout; formatter = some plain };
  next = 2;
  names = (codes "system", 1) ∷ ((codes "root", 0) ∷ []);
  root = 0;
  written = [];
}

abbrev event : LogEvent
event = record {
  file = [];
  line = 1;
  elapse = 0;
  thread_id = 0;
  thread_name = [];
  fiber_id = 0;
  time = 0;
  content = codes "hello";
  logger_name = codes "system";
  level = 3;
}

log_lem_example :
    log (λ f t. []) logs 1 event
    ≡ some (record logs {
      written = logs.written ++ map (entry (λ f t. []) logs event) (receivers logs 1 event);
    })
unfolding receivers
log_lem_example = log_lem (λ f t. []) logs 1 event (λ e. cc) (refl, tt)

abbrev root_define : LogDefine
root_define = record {
  name = codes "root";
  level = 4;
  formatter = codes "%m%n";
  appenders =
      record { type = 1; formatter = []; file = codes "root.log" }
      ∷ record { type = 2; formatter = []; file = [] }
      ∷ [];
}

-- A stdout appender with a formatter and a file, and an appender of no known type.
abbrev system_define : LogDefine
system_define = record {
  name = codes "system";
  level = 1;
  formatter = [];
  appenders =
      record { type = 2; formatter = codes "%m"; file = codes "out" }
      ∷ record { type = 0; formatter = []; file = [] }
      ∷ [];
}

abbrev system_read : LogDefine
system_read = record system_define {
  appenders = record { type = 2; formatter = []; file = [] } ∷ [];
}

-- The order of std::string.
abbrev text_lt : Text → Text → Bool
text_lt [] [] = false
text_lt [] (d ∷ t) = true
text_lt (c ∷ s) [] = false
text_lt (c ∷ s) (d ∷ t) = ltb c d || (c == d && text_lt s t)

from_nodes-to_nodes_example :
    from_nodes (by_name text_lt) (to_nodes (root_define ∷ system_define ∷ []))
    ≡ some (root_define ∷ system_read ∷ [])
unfolding readable readable_appenders readable_appender
from_nodes-to_nodes_example =
    from_nodes-to_nodes text_lt (root_define ∷ system_define ∷ []) (omega arith, (omega arith, tt))
      (((refl, refl), tt), (tt, tt))
