-- ===== src/Log.antt =====
-- src/log.h and src/log.cpp: levels, events and the patterns of LogFormatter. Strings are the lists
-- of their bytes. strftime over the local time is the argument `date`.
pub mod Loggers
pub mod Casts
pub mod Defines
pub mod Pattern
pub mod Escape
pub mod Config
pub mod Delivery
mod Runs
use cool.Base.{
  ℕ, zero, suc, ◌+◌, Bool, true, false, not, ◌&&◌, ◌||◌, List, [], ◌∷◌, ◌++◌, Option, none, some,
  length, leb, ◌==◌, if◌then◌else◌,
}
use cool.Base.Text.{Text, codes, text_eq, decimal}

-- LogLevel::Level; a level that is none of the five names prints as UNKNOWN.
unfoldable pub level_to_string : ℕ → Text
level_to_string level =
    if level == 1
    then codes "DEBUG"
    else (if level == 2
        then codes "INFO"
        else (if level == 3
            then codes "WARN"
            else (if level == 4
                then codes "ERROR"
                else (if level == 5 then codes "FATAL" else codes "UNKNOWN"))))

unfoldable pub level_from_string : Text → ℕ
level_from_string v =
    if text_eq v (codes "debug")
    then 1
    else (if text_eq v (codes "info")
        then 2
        else (if text_eq v (codes "warn")
            then 3
            else (if text_eq v (codes "error")
                then 4
                else (if text_eq v (codes "fatal")
                    then 5
                    else (if text_eq v (codes "DEBUG")
                        then 1
                        else (if text_eq v (codes "INFO")
                            then 2
                            else (if text_eq v (codes "WARN")
                                then 3
                                else (if text_eq v (codes "ERROR")
                                    then 4
                                    else (if text_eq v (codes "FATAL") then 5 else 0)))))))))

-- LogEvent, with the content of its stream and the name of its logger.
pub record LogEvent : Type 0 where
  pub file : Text
  pub line : ℕ
  pub elapse : ℕ
  pub thread_id : ℕ
  pub thread_name : Text
  pub fiber_id : ℕ
  pub time : ℕ
  pub content : Text
  pub logger_name : Text
  pub level : ℕ

-- The FormatItem classes.
pub data FormatItem : Type 0 where
  message level_item elapse_item logger_item thread_id_item new_line : FormatItem
  date_time : Text → FormatItem
  filename line_item tab fiber_id_item thread_name_item : FormatItem
  string : Text → FormatItem

-- What init collects in `vec`: a text, or an item with its name and format.
pub data Piece : Type 0 where
  text : Text → Piece
  item : Text → Text → Piece

-- How the inner loop of init ends: at an item and what is behind it, or at the end in a format.
pub data Scan : Type 0 where
  found : Text → Text → Text → Scan
  unterminated : Scan

-- isalpha in the C locale.
abbrev pub is_alpha : ℕ → Bool
is_alpha c = leb b'A' c && leb c b'Z' || leb b'a' c && leb c b'z'

-- The inner loop with fmt_status 1, behind the `{`.
unfoldable pub scan_format : Text → Text → Text → Scan
scan_format name fmt [] = unterminated
scan_format name fmt (c ∷ cs) =
    let rest = scan_format name (fmt ++ c ∷ []) cs in if c == b'}' then found name fmt cs else rest

-- The inner loop with fmt_status 0, behind the `%`.
unfoldable pub scan_name : Text → Text → Scan
scan_name name [] = found name [] []
scan_name name (c ∷ cs) =
    let rest = scan_name (name ++ c ∷ []) cs in
    if not (is_alpha c) && (not (c == b'{') && not (c == b'}'))
    then found name [] (c ∷ cs)
    else (if c == b'{' then scan_format name [] cs else rest)

-- A text that is not empty is pushed before an item and at the end.
abbrev pub flush : Text → List Piece → List Piece
flush [] vec = vec
flush (c ∷ s) vec = vec ++ text (c ∷ s) ∷ []

abbrev pub parse_error : Piece
parse_error = text (codes "<<parse_error>>")

abbrev pub starts_percent : Text → Bool
starts_percent [] = false
starts_percent (c ∷ cs) = c == b'%'

-- The outer loop of init at the rest of the pattern, for `fuel` rounds: `vec` and m_error.
unfoldable pub split_pattern : ℕ → Text → Text → List Piece → Bool → Option (List Piece × Bool)
split_pattern zero pattern_ nstr vec error = none
split_pattern (suc fuel) [] nstr vec error = some (flush nstr vec, error)
split_pattern (suc fuel) (c ∷ cs) nstr vec error =
    let plain = split_pattern fuel cs (nstr ++ c ∷ []) vec error in
    let escaped = split_pattern fuel cs (nstr ++ b'%' ∷ []) vec error in
    if not (c == b'%')
    then plain
    else (if starts_percent cs then escaped else elim (scan_name [] cs) [
      | found name fmt rest ↦
          split_pattern fuel rest [] (flush nstr vec ++ item name fmt ∷ []) error
      | unterminated ↦ split_pattern fuel cs nstr (vec ++ parse_error ∷ []) true
    ])

-- s_format_items.
unfoldable pub find_item : Text → Text → Option FormatItem
find_item name fmt =
    if text_eq name (codes "m")
    then some message
    else (if text_eq name (codes "p")
        then some level_item
        else (if text_eq name (codes "r")
            then some elapse_item
            else (if text_eq name (codes "c")
                then some logger_item
                else (if text_eq name (codes "t")
                    then some thread_id_item
                    else (if text_eq name (codes "n")
                        then some new_line
                        else (if text_eq name (codes "d")
                            then some (
                                date_time
                                  (elim fmt [ [] ↦ codes "%Y-%m-%d %H:%M:%S" | c ∷ s ↦ c ∷ s ]))
                            else (if text_eq name (codes "f")
                                then some filename
                                else (if text_eq name (codes "l")
                                    then some line_item
                                    else (if text_eq name (codes "T")
                                        then some tab
                                        else (if text_eq name (codes "F")
                                            then some fiber_id_item
                                            else (if text_eq name (codes "N")
                                                then some thread_name_item
                                                else none)))))))))))

abbrev pub error_format : Text → FormatItem
error_format name = string (codes "<<error_format %" ++ (name ++ codes ">>"))

-- The item of a piece, and whether it sets m_error.
unfoldable pub item_of : Piece → FormatItem × Bool
item_of (text s) = (string s, false)
item_of (item name fmt) = elim (find_item name fmt) [
  | none ↦ (error_format name, true)
  | some i ↦ (i, false)
]

-- The loop over vec.
unfoldable pub items_of : List Piece → Bool → List FormatItem × Bool
items_of [] error = ([], error)
items_of (p ∷ ps) error =
    let (i, e) = item_of p in let (is_, error') = items_of ps (error || e) in (i ∷ is_, error')

pub record LogFormatter : Type 0 where
  pub format_pattern : Text
  pub items : List FormatItem
  pub error : Bool

-- LogFormatter(pattern), which calls init; a pattern has a round for each byte, and one for its end.
unfoldable pub new_formatter : Text → Option LogFormatter
new_formatter pattern_ = elim (split_pattern (suc (length pattern_)) pattern_ [] [] false) [
  | none ↦ none
  | some (vec, error) ↦
      let (is_, error') = items_of vec error in
      some (record { format_pattern = pattern_; items = is_; error = error' })
]

-- FormatItem::format by its class.
unfoldable pub format_item : (Text → ℕ → Text) → FormatItem → LogEvent → Text
format_item date message e = e.content
format_item date level_item e = level_to_string e.level
format_item date elapse_item e = decimal e.elapse
format_item date logger_item e = e.logger_name
format_item date thread_id_item e = decimal e.thread_id
format_item date new_line e = b'\n' ∷ []
format_item date (date_time fmt) e = date fmt e.time
format_item date filename e = e.file
format_item date line_item e = decimal e.line
format_item date tab e = b'\t' ∷ []
format_item date fiber_id_item e = decimal e.fiber_id
format_item date thread_name_item e = e.thread_name
format_item date (string s) e = s

-- LogFormatter::format.
unfoldable pub format_items : (Text → ℕ → Text) → List FormatItem → LogEvent → Text
format_items date [] e = []
format_items date (i ∷ is_) e = format_item date i e ++ format_items date is_ e
