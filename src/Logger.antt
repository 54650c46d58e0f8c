-- ===== src/Logger.antt =====
-- dag/logger.h and dag/logger.cpp: levels, events, and the formatter with its pattern. A string is the
-- list of its bytes. How the stream prints a number and what `localtime_r` with `strftime` makes of a
-- time are arguments; the text of the latter is taken to fit into its buffer of 64 bytes.
pub mod Appender
pub mod Scanning
pub mod Meaning
pub mod Formatting
pub mod Patterns
pub mod Levels
pub mod Logging
pub mod Files
pub mod Manager
pub mod Tests
use dag.Common.{
  ℕ, Bool, true, false, ◌&&◌, Option, some, none, List, [], ◌∷◌, ◌++◌, ◌==◌, if◌then◌else◌, Outcome,
  ok, fault,
}

-- `LogLevel::Level`, with the value of each.
pub data Level : Type 0 where
  debug : Level
  info : Level
  error : Level
  fatal : Level
  unknown : Level

abbrev pub value : Level → ℕ
value debug = 0
value info = 1
value error = 2
value fatal = 3
value unknown = 4

abbrev pub to_string : Level → List ℕ
to_string debug = 68 ∷ 69 ∷ 66 ∷ 85 ∷ 71 ∷ []
to_string info = 73 ∷ 78 ∷ 70 ∷ 79 ∷ []
to_string error = 69 ∷ 82 ∷ 82 ∷ 79 ∷ 82 ∷ []
to_string fatal = 70 ∷ 65 ∷ 84 ∷ 65 ∷ 76 ∷ []
to_string unknown = 85 ∷ 78 ∷ 75 ∷ 78 ∷ 79 ∷ 87 ∷ 78 ∷ []

-- `==` of strings
abbrev pub same : List ℕ → List ℕ → Bool
same [] [] = true
same [] (y ∷ ys) = false
same (x ∷ xs) [] = false
same (x ∷ xs) (y ∷ ys) = (x == y) && same xs ys

unfoldable pub from_string : List ℕ → Level
from_string level =
    if same level (to_string debug)
    then debug
    else if same level (to_string info)
    then info
    else if same level (to_string error)
    then error
    else if same level (to_string fatal)
    then fatal
    else unknown

pub record LogEvent : Type 0 where
  pub level : Level
  pub logger_name : List ℕ
  pub message : List ℕ
  pub file : List ℕ
  pub func_name : List ℕ
  pub line : ℕ
  pub thread_name : List ℕ
  pub elapse : ℕ
  pub time : ℕ
  pub tid : ℕ
  pub fid : ℕ

-- The subclasses of `FormatItem`.
pub data FormatItem : Type 0 where
  message_item : FormatItem
  log_level_item : FormatItem
  logger_name_item : FormatItem
  date_item : List ℕ → FormatItem
  elapse_item : FormatItem
  file_item : FormatItem
  func_name_item : FormatItem
  line_item : FormatItem
  tid_item : FormatItem
  fid_item : FormatItem
  thread_name_item : FormatItem
  tab_item : FormatItem
  new_line_item : FormatItem
  string_item : List ℕ → FormatItem

-- "%Y-%m-%d %H:%M:%S"
abbrev pub default_date : List ℕ
default_date =
    37 ∷ 89 ∷ 45 ∷ 37 ∷ 109 ∷ 45 ∷ 37 ∷ 100 ∷ 32 ∷ 37 ∷ 72 ∷ 58 ∷ 37 ∷ 77 ∷ 58 ∷ 37 ∷ 83 ∷ []

-- The constructor of `DateFormatItem`.
abbrev pub new_date_item : List ℕ → FormatItem
new_date_item [] = date_item default_date
new_date_item (c ∷ cs) = date_item (c ∷ cs)

-- `s_format_items`, searched.
abbrev pub find_item : ℕ → Option FormatItem
find_item c =
    if c == 109
    then some message_item
    else if c == 112
    then some log_level_item
    else if c == 99
    then some logger_name_item
    else if c == 114
    then some elapse_item
    else if c == 102
    then some file_item
    else if c == 97
    then some func_name_item
    else if c == 108
    then some line_item
    else if c == 116
    then some tid_item
    else if c == 98
    then some fid_item
    else if c == 110
    then some thread_name_item
    else if c == 78
    then some new_line_item
    else if c == 84
    then some tab_item
    else none

pub record LogFormatter : Type 0 where
  pub is_error : Bool
  pub pattern : List ℕ
  pub items : List FormatItem

-- An element of `patterns`: a string with 0, or one character with 1.
pub data Pattern : Type 0 where
  plain : List ℕ → Pattern
  template : ℕ → Pattern

-- The local variables of the first loop of `init`, and where in it the loop is: in a plain string, after
-- `%`, after `%d`, or in the braces after it.
pub data Place : Type 0 where
  in_string : Place
  in_template : Place
  after_date : Place
  in_date : Place

pub record Scan : Type 0 where
  pub place : Place
  pub patterns : List Pattern
  pub tmp : List ℕ
  pub data_format : List ℕ

abbrev pub start : Scan
start = record { place = in_string; patterns = []; tmp = []; data_format = [] }

-- `patterns.emplace_back(0, tmp)` unless `tmp` is empty; `tmp.clear()`.
abbrev pub flush : Scan → Scan
flush s = elim s.tmp [
  | [] ↦ s
  | x ∷ xs ↦ record s { patterns = s.patterns ++ plain (x ∷ xs) ∷ []; tmp = [] }
]

abbrev pub in_string_step : ℕ → Scan → Scan
in_string_step c s =
    if c == 37
    then record (flush s) { place = in_template }
    else record s { place = in_string; tmp = s.tmp ++ c ∷ [] }

-- The loop at one character.
abbrev pub step : Place → ℕ → Scan → Scan
step in_string c s = in_string_step c s
step in_template c s = record s {
  place = if c == 100 then after_date else in_string;
  patterns = s.patterns ++ template c ∷ [];
}
step after_date c s = if c == 123 then record s { place = in_date } else in_string_step c s
step in_date c s =
    if c == 125
    then record s { place = in_string }
    else record s { data_format = s.data_format ++ c ∷ [] }

abbrev pub scan : List ℕ → Scan → Scan
scan [] s = s
scan (c ∷ cs) s = scan cs (step s.place c s)

-- The item of an element of `patterns`, and the second loop of `init`: whether it stops at an element that
-- has none, and the items.
abbrev pub item_of : List ℕ → Pattern → Option FormatItem
item_of data_format (plain s) = some (string_item s)
item_of data_format (template c) =
    if c == 100 then some (new_date_item data_format) else find_item c

unfoldable pub build : List ℕ → List Pattern → Bool × List FormatItem
build data_format [] = (false, [])
build data_format (p ∷ ps) = elim (item_of data_format p) [
  | none ↦ (true, [])
  | some i ↦ let (stopped, items) = build data_format ps in (stopped, i ∷ items)
]

-- `init` after its first loop. At the end of the pattern `pattern_[i]` is 0; after a `%d` that ends the
-- pattern the code has gone one beyond that.
unfoldable pub finish : List ℕ → Place → Scan → Outcome LogFormatter
finish pattern in_string s =
    let (stopped, items) = build s.data_format (flush s).patterns in
    ok (record { is_error = stopped; pattern = pattern; items = items })
finish pattern in_template s =
    let (stopped, items) = build s.data_format (flush s).patterns in
    ok (record { is_error = stopped; pattern = pattern; items = items })
finish pattern after_date s = fault
finish pattern in_date s = ok (record { is_error = true; pattern = pattern; items = [] })

-- The constructor of `LogFormatter`, which calls `init`.
unfoldable pub init : List ℕ → Outcome LogFormatter
init pattern = let s = scan pattern start in finish pattern s.place s

module _ (print_number : ℕ → List ℕ) (print_time : List ℕ → ℕ → List ℕ) where
  -- The override of `format` of each subclass.
  abbrev pub format_item : LogEvent → FormatItem → List ℕ
  format_item event message_item = event.message
  format_item event log_level_item = to_string event.level
  format_item event logger_name_item = event.logger_name
  format_item event (date_item pattern) = print_time pattern event.time
  format_item event elapse_item = print_number event.elapse
  format_item event file_item = event.file
  format_item event func_name_item = event.func_name
  format_item event line_item = print_number event.line
  format_item event tid_item = print_number event.tid
  format_item event fid_item = print_number event.fid
  format_item event thread_name_item = event.thread_name
  format_item event tab_item = 9 ∷ []
  format_item event new_line_item = 10 ∷ []
  format_item event (string_item content) = content

  -- The loop of `format`.
  abbrev pub format_items : LogEvent → List FormatItem → List ℕ
  format_items event [] = []
  format_items event (i ∷ is) = format_item event i ++ format_items event is

  unfoldable pub format : LogFormatter → LogEvent → List ℕ
  format f event = format_items event f.items
