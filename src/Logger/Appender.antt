-- ===== src/Logger/Appender.antt =====
-- dag/logger.h and dag/logger.cpp: appenders, loggers and their manager. A shared pointer to an appender or
-- a logger is a number. Whether the system opens a file is an argument; opening it for output
-- empties it. Each call holds the appender's, the logger's or the manager's lock, and is one step. A
-- formatter is what it makes of an event.
use dag.Common.{
  ℕ, ◌+◌, Bool, false, not, Option, some, none, List, [], ◌∷◌, ◌++◌, ltb, leb, ◌==◌, if◌then◌else◌,
  update,
}
use dag.Logger.{Level, LogEvent, value, debug, info, same}

abbrev pub Formatter : Type 0
Formatter = LogEvent → List ℕ

pub record FileLogAppender : Type 0 where
  pub formatter : Formatter
  pub filestream : List ℕ
  pub reopen_error : Bool
  pub last_open_time : ℕ

pub data LogAppender : Type 0 where
  stdout_appender : Formatter → LogAppender
  file_appender : FileLogAppender → LogAppender

-- `reopen`, where `opened` is whether the file could be opened; the constructor, which calls it.
unfoldable pub reopen : FileLogAppender → Bool → Bool × FileLogAppender
reopen a opened = (
  opened,
  record a { filestream = if opened then [] else a.filestream; reopen_error = not opened },
)

unfoldable pub new_file_appender : Formatter → Bool → FileLogAppender
new_file_appender formatter opened =
    let a : FileLogAppender = record {
      formatter = formatter;
      filestream = [];
      reopen_error = false;
      last_open_time = 0;
    } in
    (reopen a opened).1

-- `FileLogAppender::log`
unfoldable pub log_file : FileLogAppender → Bool → LogEvent → FileLogAppender
log_file a opened event =
    let now = event.time in
    let a' =
      if ltb (a.last_open_time + 3) now
      then record (reopen a opened).1 { last_open_time = now }
      else a in
    if a'.reopen_error then a' else record a' { filestream = a'.filestream ++ a'.formatter event }

-- `LogAppender::setFormatter`
unfoldable pub set_formatter : LogAppender → Formatter → LogAppender
set_formatter (stdout_appender old) formatter = stdout_appender formatter
set_formatter (file_appender a) formatter = file_appender (record a { formatter = formatter })

-- What the process has of appenders and loggers, and what it wrote to the standard output.
pub record Logs : Type 0 where
  pub appenders : ℕ → LogAppender
  pub cout : List ℕ

-- `appender->log(event)`, by the class of the appender.
unfoldable pub log_as : Logs → Bool → LogEvent → ℕ → LogAppender → Logs
log_as logs opened event id (stdout_appender formatter) = record logs {
  cout = logs.cout ++ formatter event;
}
log_as logs opened event id (file_appender a) = record logs {
  appenders = update logs.appenders id (file_appender (log_file a opened event));
}

abbrev pub log_appender : Logs → Bool → LogEvent → ℕ → Logs
log_appender logs opened event id = log_as logs opened event id (logs.appenders id)

pub record Logger : Type 0 where
  pub logger_name : List ℕ
  pub logger_level : Level
  pub appenders : List ℕ

unfoldable pub add_appender : Logger → ℕ → Logger
add_appender l id = record l { appenders = l.appenders ++ id ∷ [] }

-- `appenders_.remove(appender)`
abbrev pub remove : ℕ → List ℕ → List ℕ
remove id [] = []
remove id (x ∷ xs) = let rest = remove id xs in if x == id then rest else x ∷ rest

unfoldable pub del_appender : Logger → ℕ → Logger
del_appender l id = record l { appenders = remove id l.appenders }

unfoldable pub clear_appender : Logger → Logger
clear_appender l = record l { appenders = [] }

unfoldable pub set_logger_level : Logger → Level → Logger
set_logger_level l level = record l { logger_level = level }

-- The loop of `Logger::log`.
abbrev pub log_each : (ℕ → Bool) → LogEvent → List ℕ → Logs → Logs
log_each opened event [] logs = logs
log_each opened event (id ∷ ids) logs =
    log_each opened event ids (log_appender logs (opened id) event id)

unfoldable pub log : Logger → (ℕ → Bool) → LogEvent → Logs → Logs
log l opened event logs =
    if leb (value l.logger_level) (value event.level)
    then log_each opened event l.appenders logs
    else logs

-- `loggers_` as a list of names and loggers, each name once.
pub record LoggerManager : Type 0 where
  pub root_logger : ℕ
  pub loggers : List (List ℕ × ℕ)
  pub store : ℕ → Logger
  pub allocated : ℕ

abbrev pub new_logger : List ℕ → Level → Logger
new_logger name level = record { logger_name = name; logger_level = level; appenders = [] }

-- "root"
abbrev pub root_name : List ℕ
root_name = 114 ∷ 111 ∷ 111 ∷ 116 ∷ []

-- The constructor; `stdout` is the appender that it makes.
unfoldable pub init_manager : ℕ → LoggerManager
init_manager stdout = record {
  root_logger = 0;
  loggers = (root_name, 0) ∷ [];
  store = λ _. add_appender (new_logger root_name debug) stdout;
  allocated = 1;
}

abbrev pub find_logger : List ℕ → List (List ℕ × ℕ) → Option ℕ
find_logger name [] = none
find_logger name ((key, id) ∷ rest) = if same key name then some id else find_logger name rest

unfoldable pub get_logger : LoggerManager → List ℕ → ℕ × LoggerManager
get_logger m name = elim (find_logger name m.loggers) [
  | some id ↦ (id, m)
  | none ↦
      let id = m.allocated in
      (
        id,
        record m {
          loggers = (name, id) ∷ m.loggers;
          store = update m.store id (new_logger name info);
          allocated = id + 1;
        },
      )
]
