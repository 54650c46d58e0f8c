-- ===== src/Logger/Meaning.antt =====
-- What the characters of a pattern stand for, written as a table.
use dag.Common.{
  ℕ, ◌≡◌, refl, ap, Bool-cases, inl, inr, Bool, true, false, Option, some, none, is_some, List, [],
  ◌∷◌, ◌==◌, if◌then◌else◌,
}
use dag.Logger.{
  LogEvent, FormatItem, to_string, find_item, format_item, new_date_item, message_item,
  log_level_item, logger_name_item, elapse_item, file_item, func_name_item, line_item, tid_item,
  fid_item, thread_name_item, new_line_item, tab_item,
}

-- The characters m p c r f a l t b n N T, which have a meaning.
abbrev pub known_codes : List ℕ
known_codes = 109 ∷ 112 ∷ 99 ∷ 114 ∷ 102 ∷ 97 ∷ 108 ∷ 116 ∷ 98 ∷ 110 ∷ 78 ∷ 84 ∷ []

abbrev pub is_known : ℕ → List ℕ → Bool
is_known c [] = false
is_known c (k ∷ ks) = if c == k then true else is_known c ks

-- The text of a character, where a table has it.
abbrev pub meaning : ℕ → List (ℕ × List ℕ) → List ℕ
meaning c [] = []
meaning c ((k, text) ∷ rest) = if c == k then text else meaning c rest

-- `find_item`, as a table.
abbrev entry : ℕ → List (ℕ × FormatItem) → Option FormatItem
entry c [] = none
entry c ((k, i) ∷ rest) = if c == k then some i else entry c rest

abbrev items : List (ℕ × FormatItem)
items =
    (109, message_item)
    ∷ (112, log_level_item)
    ∷ (99, logger_name_item)
    ∷ (114, elapse_item)
    ∷ (102, file_item)
    ∷ (97, func_name_item)
    ∷ (108, line_item)
    ∷ (116, tid_item)
    ∷ (98, fid_item)
    ∷ (110, thread_name_item)
    ∷ (78, new_line_item)
    ∷ (84, tab_item)
    ∷ []

find_item-entry : (c : ℕ) → find_item c ≡ entry c items
find_item-entry c = refl

abbrev codes : List (ℕ × FormatItem) → List ℕ
codes [] = []
codes ((k, i) ∷ rest) = k ∷ codes rest

entry-is_known :
    (c : ℕ) (table : List (ℕ × FormatItem)) → is_some (entry c table) ≡ is_known c (codes table)
entry-is_known c [] = refl
entry-is_known c ((k, i) ∷ rest) = elim (Bool-cases (c == k)) [
  | inl e ↦ rw (e, entry, is_known) refl
  | inr e ↦ rw (e, entry, is_known) (entry-is_known c rest)
]

pub find_item-is_known : (c : ℕ) → is_some (find_item c) ≡ is_known c known_codes
find_item-is_known c = entry-is_known c items

module _ (print_number : ℕ → List ℕ) (print_time : List ℕ → ℕ → List ℕ) where
  -- m message, p level, c logger, r milliseconds since the start, f file, a function, l line, t thread, b
  -- fiber, n thread's name, N end of line, T tabulator.
  abbrev pub meanings : LogEvent → List (ℕ × List ℕ)
  meanings event =
      (109, event.message)
      ∷ (112, to_string event.level)
      ∷ (99, event.logger_name)
      ∷ (114, print_number event.elapse)
      ∷ (102, event.file)
      ∷ (97, event.func_name)
      ∷ (108, print_number event.line)
      ∷ (116, print_number event.tid)
      ∷ (98, print_number event.fid)
      ∷ (110, event.thread_name)
      ∷ (78, 10 ∷ [])
      ∷ (84, 9 ∷ [])
      ∷ []

  -- A date by its format, and "%Y-%m-%d %H:%M:%S" where that is empty.
  abbrev pub date_text : List ℕ → LogEvent → List ℕ
  date_text [] event =
      print_time
        (37 ∷ 89 ∷ 45 ∷ 37 ∷ 109 ∷ 45 ∷ 37 ∷ 100 ∷ 32 ∷ 37 ∷ 72 ∷ 58 ∷ 37 ∷ 77 ∷ 58 ∷ 37 ∷ 83 ∷ [])
        event.time
  date_text (c ∷ cs) event = print_time (c ∷ cs) event.time

  pub format_item-date_text :
      (dates : List ℕ) (event : LogEvent)
      → format_item print_number print_time event (new_date_item dates) ≡ date_text dates event
  format_item-date_text [] event = refl
  format_item-date_text (c ∷ cs) event = refl

  abbrev text_of : LogEvent → Option FormatItem → List ℕ
  text_of event none = []
  text_of event (some i) = format_item print_number print_time event i

  abbrev texts_of : LogEvent → List (ℕ × FormatItem) → List (ℕ × List ℕ)
  texts_of event [] = []
  texts_of event ((k, i) ∷ rest) =
      (k, format_item print_number print_time event i) ∷ texts_of event rest

  entry-meaning :
      (event : LogEvent) (c : ℕ) (table : List (ℕ × FormatItem))
      → text_of event (entry c table) ≡ meaning c (texts_of event table)
  entry-meaning event c [] = refl
  entry-meaning event c ((k, i) ∷ rest) = elim (Bool-cases (c == k)) [
    | inl e ↦ rw (e, entry, meaning) refl
    | inr e ↦ rw (e, entry, meaning) (entry-meaning event c rest)
  ]

  find_item-meaning :
      (event : LogEvent) (c : ℕ) → text_of event (find_item c) ≡ meaning c (meanings event)
  find_item-meaning event c = entry-meaning event c items

  pub format_item-meaning :
      (event : LogEvent) (c : ℕ) (i : FormatItem)
      → find_item c ≡ some i
      → format_item print_number print_time event i ≡ meaning c (meanings event)
  format_item-meaning event c i e = cc (ap (text_of event) e, find_item-meaning event c)
