-- ===== src/Logger/Tests.antt =====
-- Runs of the logger at concrete inputs, and the theorems on it applied there.
use dag.Common.{
  arith, leb, ◌&&◌, ℕ, ◌+◌, ◌≡◌, refl, Bool, true, false, List, [], ◌∷◌, ◌++◌, some, ok,
  if◌then◌else◌, ◌==◌,
}
use dag.Logger.{
  same, LogEvent, LogFormatter, init, format, build, finish, string_item, value, info, error,
}
use dag.Logger.Appender.{
  Formatter, stdout_appender, file_appender, new_file_appender, log_file, reopen, Logger, log, Logs,
  LoggerManager, init_manager, find_logger, get_logger,
}
use dag.Logger.Scanning.{Part, text, code, date, print_parts}
use dag.Logger.Formatting.{expected, all_dates}
use dag.Logger.Patterns.{format-init, init-escape}
use dag.Logger.Logging.{logged, printed_each, member, log_lem}
use dag.Logger.Files.{texts, log_files, log_files_lem}
use dag.Logger.Manager.{IsValid, init_manager-IsValid, get_logger-IsValid}

-- " [%p] %d{%H}%N"
abbrev some_parts : List Part
some_parts =
    text (32 ∷ 91 ∷ []) ∷ code 112 ∷ text (93 ∷ 32 ∷ []) ∷ date (37 ∷ 72 ∷ []) ∷ code 78 ∷ []

abbrev print_digit : ℕ → List ℕ
print_digit n = (48 + n) ∷ []

abbrev print_hour : List ℕ → ℕ → List ℕ
print_hour pattern time = pattern ++ (48 + time) ∷ []

abbrev event_at : ℕ → LogEvent
event_at time = record {
  level = error;
  logger_name = [];
  message = 104 ∷ 105 ∷ [];
  file = [];
  func_name = [];
  line = 4;
  thread_name = [];
  elapse = 0;
  time = time;
  tid = 1;
  fid = 2;
}

-- A formatter made of that pattern, and what it makes of an event.
formatted :
    (f : LogFormatter) × (init (print_parts some_parts) ≡ ok f)
    × (format print_digit print_hour f (event_at 7)
        ≡ 32 ∷ 91 ∷ 69 ∷ 82 ∷ 82 ∷ 79 ∷ 82 ∷ 93 ∷ 32 ∷ 37 ∷ 72 ∷ 55 ∷ 10 ∷ [])
unfolding init format finish build
formatted = (_, refl, refl)

format-init_example :
    (f : LogFormatter) × (init (print_parts some_parts) ≡ ok f)
    × (f.is_error ≡ false)
    × ((event : LogEvent)
        → format print_digit print_hour f event
          ≡ expected print_digit print_hour (all_dates some_parts) event some_parts)
format-init_example = format-init print_digit print_hour some_parts refl refl

abbrev escaped : LogFormatter
escaped = record {
  is_error = true;
  pattern = 109 ∷ 37 ∷ 37 ∷ 110 ∷ [];
  items = string_item (109 ∷ []) ∷ [];
}

escaped_made : init (109 ∷ 37 ∷ 37 ∷ 110 ∷ []) ≡ ok escaped
unfolding init finish build
escaped_made = refl

init-escape_example : escaped.is_error ≡ true
init-escape_example = init-escape (text (109 ∷ []) ∷ []) (110 ∷ []) escaped refl escaped_made

abbrev message_only : Formatter
message_only event = event.message

abbrev some_logs : Logs
some_logs = record {
  appenders = λ id.
      if id == 1
      then file_appender (new_file_appender message_only true)
      else stdout_appender message_only;
  cout = [];
}

abbrev some_logger : Logger
some_logger = record { logger_name = []; logger_level = info; appenders = 1 ∷ 0 ∷ [] }

log_lem_example :
    ((id : ℕ)
      → (log some_logger (λ _. true) (event_at 7) some_logs).appenders id ≡ (
          if leb (value some_logger.logger_level) (value (event_at 7).level)
            && member id some_logger.appenders
          then logged (λ _. true) (event_at 7) id (some_logs.appenders id)
          else some_logs.appenders id))
    × ((log some_logger (λ _. true) (event_at 7) some_logs).cout ≡ (
        if leb (value some_logger.logger_level) (value (event_at 7).level)
        then some_logs.cout
          ++ printed_each (λ _. true) (event_at 7) some_logs.appenders some_logger.appenders
        else some_logs.cout))
log_lem_example = log_lem some_logger (λ _. true) (event_at 7) some_logs refl

abbrev some_events : List (Bool × LogEvent)
some_events = (true, event_at 7) ∷ (false, event_at 9) ∷ []

log_files_lem_example :
    (log_files
      (new_file_appender message_only true)
      (some_events ++ (true, event_at 20) ∷ (true, event_at 21) ∷ [])).filestream
    ≡ texts message_only (event_at 20 ∷ event_at 21 ∷ [])
unfolding new_file_appender reopen log_file
log_files_lem_example =
    log_files_lem message_only true some_events ((true, event_at 21) ∷ []) (event_at 20)
      (omega arith) (omega arith, tt)

get_logger-IsValid_example :
    (id : ℕ) × (n : LoggerManager) × (get_logger (init_manager 0) (65 ∷ []) ≡ (id, n))
    × IsValid n
    × ((n.store id).logger_name ≡ 65 ∷ [])
    × (get_logger n (65 ∷ []) ≡ (id, n))
    × ((other : List ℕ)
        → find_logger other n.loggers
          ≡ (if same (65 ∷ []) other then some id else find_logger other (init_manager 0).loggers))
get_logger-IsValid_example = get_logger-IsValid (init_manager 0) (65 ∷ []) (init_manager-IsValid 0)
