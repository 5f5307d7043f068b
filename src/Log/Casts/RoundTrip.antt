-- ===== src/Log/Casts/RoundTrip.antt =====
-- The log configuration survives being written and read (src/log.cpp).
use cool.Base.{
  ℕ, zero, suc, ◌<◌, ◌≡◌, refl, ap, inl, inr, Bool, Bool-cases, ◌==◌, if◌then◌else◌, map, ◌++◌,
  List, [], ◌∷◌, some, All, arith,
}
use cool.Base.Text.{Text, text_eq}
use cool.Log.{level_to_string, level_from_string}
use cool.Log.Defines.{LogAppenderDefine, LogDefine}
use cool.Config.Containers.{Pairs, Below, set_rebuilt}
use cool.Log.Casts.{
  text_or, read_file_appender, read_typed, read_appender, read_appenders, read_all, read_named,
  read_define, read_defines, from_nodes, member_of, write_appender, write_appenders, appenders_of,
  write_define, to_nodes,
}

-- What is left of an appender: a file appender whole, a stdout appender without formatter and file,
-- and nothing of another type.
unfoldable pub readable_appender : LogAppenderDefine → List LogAppenderDefine
readable_appender a =
    if a.type == 1
    then a ∷ []
    else (if a.type == 2 then record { type = 2; formatter = []; file = [] } ∷ [] else [])

unfoldable pub readable_appenders : List LogAppenderDefine → List LogAppenderDefine
readable_appenders [] = []
readable_appenders (a ∷ ds) = readable_appender a ++ readable_appenders ds

unfoldable pub readable : LogDefine → LogDefine
readable d = record d { appenders = readable_appenders d.appenders }

-- The order of the definitions: that of their names.
abbrev pub by_name : (Text → Text → Bool) → LogDefine → LogDefine → Bool
by_name lt c d = lt c.name d.name

text_or_lem : (s : Text) → text_or [] (member_of s) ≡ some s
unfolding text_or
text_or_lem [] = refl
text_or_lem (c ∷ s) = refl

read_appender-write_appender :
    (a : LogAppenderDefine) → read_appender (write_appender a) ≡ some (readable_appender a)
unfolding read_appender write_appender read_typed read_file_appender text_eq readable_appender
read_appender-write_appender a = elim (Bool-cases (a.type == 1)) [
  | inl t ↦ let e : a.type ≡ 1 = ground arith in rw (e, text_or_lem a.formatter) refl
  | inr t ↦ elim (Bool-cases (a.type == 2)) [
    | inl u ↦ let e : a.type ≡ 2 = ground arith in rw e refl
    | inr u ↦ rw (t, u) refl
  ]
]

read_appenders-write_appenders :
    (ds : List LogAppenderDefine)
    → read_appenders (write_appenders ds) ≡ some (readable_appenders ds)
unfolding read_appenders write_appenders readable_appenders
read_appenders-write_appenders [] = refl
read_appenders-write_appenders (a ∷ ds) =
    rw (read_appender-write_appender a, read_appenders-write_appenders ds) refl

read_all-appenders_of :
    (ds : List LogAppenderDefine) → read_all (appenders_of ds) ≡ some (readable_appenders ds)
unfolding read_all readable_appenders
read_all-appenders_of [] = refl
read_all-appenders_of (a ∷ ds) = read_appenders-write_appenders (a ∷ ds)

level_lem : (n : ℕ) → n < 6 → level_from_string (level_to_string n) ≡ n
unfolding level_from_string level_to_string text_eq
level_lem zero h = refl
level_lem (suc zero) h = refl
level_lem (suc (suc zero)) h = refl
level_lem (suc (suc (suc zero))) h = refl
level_lem (suc (suc (suc (suc zero)))) h = refl
level_lem (suc (suc (suc (suc (suc zero))))) h = refl
level_lem (suc (suc (suc (suc (suc (suc n)))))) h = absurd (omega arith)

-- A definition with one of the six levels.
abbrev pub HasLevel : LogDefine → Type 0
HasLevel d = d.level < 6

read_define-write_define :
    (d : LogDefine) → HasLevel d → read_define (write_define d) ≡ some (readable d ∷ [])
unfolding read_define write_define read_named text_or readable
read_define-write_define d h =
    rw (text_or_lem d.formatter, read_all-appenders_of d.appenders, level_lem d.level h) refl

read_defines-to_nodes :
    (ds : List LogDefine) → All HasLevel ds → read_defines (to_nodes ds) ≡ some (map readable ds)
unfolding read_defines to_nodes
read_defines-to_nodes [] h = refl
read_defines-to_nodes (d ∷ ds) h =
    rw (read_define-write_define d h.0, read_defines-to_nodes ds h.1) refl

-- Names that ascend still ascend.
Below-readable :
    (lt : Text → Text → Bool) (d : LogDefine) (ds : List LogDefine)
    → All (Below (by_name lt) d) ds
    → All (Below (by_name lt) (readable d)) (map readable ds)
unfolding readable
Below-readable lt d [] h = tt
Below-readable lt d (c ∷ ds) h = (h.0, Below-readable lt d ds h.1)

Pairs-readable :
    (lt : Text → Text → Bool) (ds : List LogDefine)
    → Pairs (Below (by_name lt)) ds
    → Pairs (Below (by_name lt)) (map readable ds)
Pairs-readable lt [] h = tt
Pairs-readable lt (d ∷ ds) h = (Below-readable lt d ds h.0, Pairs-readable lt ds h.1)

-- A set of log definitions whose names ascend and whose levels are among the six is read back from the
-- nodes that it is written to, with the same names, levels, formatters and file appenders; of a
-- stdout appender the formatter and the file are lost, and an appender of another type is left out.
pub from_nodes-to_nodes :
    (lt : Text → Text → Bool) (ds : List LogDefine)
    → All HasLevel ds
    → Pairs (Below (by_name lt)) ds
    → from_nodes (by_name lt) (to_nodes ds) ≡ some (map readable ds)
unfolding from_nodes
from_nodes-to_nodes lt ds h p =
    rw (read_defines-to_nodes ds h)
      (ap some (set_rebuilt (by_name lt) (map readable ds) (Pairs-readable lt ds p)))

-- The formatter of a stdout appender is lost.
pub stdout_formatter_lost :
    (c : ℕ) (s : Text)
    → read_appender (write_appender (record { type = 2; formatter = c ∷ s; file = [] }))
      ≡ some (record { type = 2; formatter = []; file = [] } ∷ [])
unfolding read_appender write_appender read_typed text_eq
stdout_formatter_lost c s = refl
