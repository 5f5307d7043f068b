-- ===== src/Log/Casts.antt =====
-- The conversions of the log configuration between YAML and LogDefine in src/log.cpp. A node is seen
-- by the members that the code asks for: one that is not defined, one with its text, or one of which
-- as<std::string> throws; `none` is that exception.
pub mod RoundTrip
use cool.Base.{ℕ, Bool, true, false, List, [], ◌∷◌, ◌++◌, Option, none, some, ◌==◌, if◌then◌else◌}
use cool.Base.Text.{Text, codes, text_eq}
use cool.Log.{level_to_string, level_from_string}
use cool.Log.Defines.{LogAppenderDefine, LogDefine}
use cool.Log.Loggers.{◌>>=◌}
use cool.Config.Containers.{insert_each, set_insert}

pub data Member : Type 0 where
  undefined : Member
  text : Text → Member
  no_text : Member

pub record AppenderNode : Type 0 where
  pub type : Member
  pub file : Member
  pub formatter : Member

-- `none` for appenders that are not defined.
pub record DefineNode : Type 0 where
  pub name : Member
  pub level : Member
  pub formatter : Member
  pub appenders : Option (List AppenderNode)

abbrev pub file_appender : Text
file_appender = codes "FileLogAppender"

abbrev pub stdout_appender : Text
stdout_appender = codes "StdoutLogAppender"

-- The text of a member, or the default where it is not defined.
unfoldable pub text_or : Text → Member → Option Text
text_or def undefined = some def
text_or def (text s) = some s
text_or def no_text = none

unfoldable pub read_file_appender : AppenderNode → Text → Option (List LogAppenderDefine)
read_file_appender a file = do
  formatter ← text_or [] a.formatter
  some (record { type = 1; formatter = formatter; file = file } ∷ [])

-- An appender of the type `type`; one with an error in it is left out.
unfoldable pub read_typed : AppenderNode → Text → Option (List LogAppenderDefine)
read_typed a type =
    if text_eq type file_appender
    then elim a.file [
      | undefined ↦ some []
      | text file ↦ read_file_appender a file
      | no_text ↦ none
    ]
    else (if text_eq type stdout_appender
        then some (record { type = 2; formatter = []; file = [] } ∷ [])
        else some [])

-- One round of the loop over the appenders.
unfoldable pub read_appender : AppenderNode → Option (List LogAppenderDefine)
read_appender a = elim a.type [
  | undefined ↦ some []
  | text type ↦ read_typed a type
  | no_text ↦ none
]

unfoldable pub read_appenders : List AppenderNode → Option (List LogAppenderDefine)
read_appenders [] = some []
read_appenders (a ∷ nodes) = do d ← read_appender a; ds ← read_appenders nodes; some (d ++ ds)

unfoldable pub read_all : Option (List AppenderNode) → Option (List LogAppenderDefine)
read_all none = some []
read_all (some nodes) = read_appenders nodes

-- One round of the loop over the definitions, with its name.
unfoldable pub read_named : DefineNode → Text → Option (List LogDefine)
read_named n name = do
  level ← text_or [] n.level
  formatter ← text_or [] n.formatter
  appenders ← read_all n.appenders
  some (
      record {
        name = name;
        level = level_from_string level;
        formatter = formatter;
        appenders = appenders;
      }
      ∷ [])

unfoldable pub read_define : DefineNode → Option (List LogDefine)
read_define n = elim n.name [ undefined ↦ some [] | text name ↦ read_named n name | no_text ↦ none ]

unfoldable pub read_defines : List DefineNode → Option (List LogDefine)
read_defines [] = some []
read_defines (n ∷ nodes) = do d ← read_define n; ds ← read_defines nodes; some (d ++ ds)

-- From a text to set<LogDefine>, from its nodes on; `lt` is the order of the names.
unfoldable pub from_nodes :
    (LogDefine → LogDefine → Bool) → List DefineNode → Option (List LogDefine)
from_nodes lt nodes = do ds ← read_defines nodes; some (insert_each (set_insert lt) [] ds)

-- A member that is written where the text is not empty.
abbrev pub member_of : Text → Member
member_of [] = undefined
member_of (c ∷ s) = text (c ∷ s)

unfoldable pub write_appender : LogAppenderDefine → AppenderNode
write_appender a = record {
  type =
      if a.type == 1
      then text file_appender
      else (if a.type == 2 then text stdout_appender else undefined);
  file = if a.type == 1 then text a.file else undefined;
  formatter = member_of a.formatter;
}

unfoldable pub write_appenders : List LogAppenderDefine → List AppenderNode
write_appenders [] = []
write_appenders (a ∷ ds) = write_appender a ∷ write_appenders ds

-- n["appenders"] is defined once something was pushed onto it.
abbrev pub appenders_of : List LogAppenderDefine → Option (List AppenderNode)
appenders_of [] = none
appenders_of (a ∷ ds) = some (write_appenders (a ∷ ds))

unfoldable pub write_define : LogDefine → DefineNode
write_define d = record {
  name = text d.name;
  level = text (level_to_string d.level);
  formatter = member_of d.formatter;
  appenders = appenders_of d.appenders;
}

-- From set<LogDefine> to the nodes that are printed.
unfoldable pub to_nodes : List LogDefine → List DefineNode
to_nodes [] = []
to_nodes (d ∷ ds) = write_define d ∷ to_nodes ds
