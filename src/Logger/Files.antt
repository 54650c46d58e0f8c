-- ===== src/Logger/Files.antt =====
-- What stays in the file of a `FileLogAppender`.
use dag.Common.{
  ℕ, ◌+◌, ◌≤◌, ◌<◌, ◌≡◌, refl, ap, sym, ◌∙◌, subst, Bool, true, false, not, List, [], ◌∷◌, ◌++◌,
  lt→ltb, le→ltb, ltb, if◌then◌else◌, append_assoc, append-nil,
}
use dag.Logger.{LogEvent}
use dag.Logger.Appender.{Formatter, FileLogAppender, reopen, new_file_appender, log_file}

-- Events logged one after the other, each with whether the file could be opened at it.
abbrev pub log_files : FileLogAppender → List (Bool × LogEvent) → FileLogAppender
log_files a [] = a
log_files a ((opened, event) ∷ rest) = log_files (log_file a opened event) rest

abbrev pub texts : Formatter → List LogEvent → List ℕ
texts formatter [] = []
texts formatter (e ∷ es) = formatter e ++ texts formatter es

abbrev pub AllBefore : ℕ → List LogEvent → Type 0
AllBefore t [] = Unit
AllBefore t (e ∷ es) = (e.time ≤ t) × AllBefore t es

abbrev pub events_of : List (Bool × LogEvent) → List LogEvent
events_of [] = []
events_of ((opened, event) ∷ rest) = event ∷ events_of rest

-- What is in the file after an event: whether the last opening was more than three seconds before it, whether the
-- file could be opened, and whether it could not before.
abbrev pub file_text : Bool → Bool → Bool → List ℕ → List ℕ → List ℕ
file_text true true failed old new = new
file_text true false failed old new = old
file_text false opened true old new = old
file_text false opened false old new = old ++ new

abbrev pub is_late : FileLogAppender → LogEvent → Bool
is_late a event = ltb (a.last_open_time + 3) event.time

abbrev filed_by : Bool → FileLogAppender → Bool → LogEvent → FileLogAppender
filed_by late a opened event = record {
  formatter = a.formatter;
  filestream = file_text late opened a.reopen_error a.filestream (a.formatter event);
  reopen_error = if late then not opened else a.reopen_error;
  last_open_time = if late then event.time else a.last_open_time;
}

abbrev pub filed : FileLogAppender → Bool → LogEvent → FileLogAppender
filed a opened event = filed_by (is_late a event) a opened event

-- `log` from where the file was opened again or not.
abbrev write_open : FileLogAppender → LogEvent → FileLogAppender
write_open a event =
    if a.reopen_error then a else record a { filestream = a.filestream ++ a.formatter event }

write_open_lem :
    (formatter : Formatter) (stream : List ℕ) (failed : Bool) (time : ℕ) (opened : Bool)
    (event : LogEvent)
    → (let a : FileLogAppender = record {
      formatter = formatter;
      filestream = stream;
      reopen_error = failed;
      last_open_time = time;
    } in
        write_open a event ≡ filed_by false a opened event)
write_open_lem formatter stream true time opened event = refl
write_open_lem formatter stream false time opened event = refl

log_by :
    (late : Bool) (a : FileLogAppender) (opened : Bool) (event : LogEvent)
    → write_open
        (if late then record (reopen a opened).1 { last_open_time = event.time } else a)
        event
      ≡ filed_by late a opened event
unfolding reopen
log_by true a true event = refl
log_by true a false event = refl
log_by false a opened event =
    write_open_lem a.formatter a.filestream a.reopen_error a.last_open_time opened event

pub log_file_lem :
    (a : FileLogAppender) (opened : Bool) (event : LogEvent)
    → log_file a opened event ≡ filed a opened event
unfolding log_file
log_file_lem a opened event = log_by (is_late a event) a opened event

log_files-append :
    (a : FileLogAppender) (xs ys : List (Bool × LogEvent))
    → log_files a (xs ++ ys) ≡ log_files (log_files a xs) ys
log_files-append a [] ys = refl
log_files-append a ((opened, event) ∷ xs) ys = log_files-append (log_file a opened event) xs ys

formatter-log_files :
    (a : FileLogAppender) (events : List (Bool × LogEvent))
    → (log_files a events).formatter ≡ a.formatter
formatter-log_files a [] = refl
formatter-log_files a ((opened, event) ∷ rest) =
    formatter-log_files (log_file a opened event) rest
    ∙ ap (λ (b : FileLogAppender). b.formatter) (log_file_lem a opened event)

-- While the file is open and not opened again, each event is added.
log_files-open :
    (formatter : Formatter) (a : FileLogAppender) (events : List (Bool × LogEvent))
    → a.formatter ≡ formatter
    → a.reopen_error ≡ false
    → AllBefore (a.last_open_time + 3) (events_of events)
    → (log_files a events).filestream ≡ a.filestream ++ texts formatter (events_of events)
log_files-open formatter a [] f e h = sym (append-nil a.filestream)
log_files-open formatter a ((opened, event) ∷ rest) f e (h, hs) =
    let b = log_file a opened event in
    let early : is_late a event ≡ false = le→ltb (a.last_open_time + 3) event.time h in
    let same = log_file_lem a opened event in
    let opened_at : b.last_open_time ≡ a.last_open_time =
      ap (λ (c : FileLogAppender). c.last_open_time) same
      ∙ ap (λ l. if l then event.time else a.last_open_time) early in
    let no_error : b.reopen_error ≡ false =
      ap (λ (c : FileLogAppender). c.reopen_error) same
      ∙ ap (λ l. if l then not opened else a.reopen_error) early
      ∙ e in
    let written : b.filestream ≡ a.filestream ++ formatter event =
      ap (λ (c : FileLogAppender). c.filestream) same
      ∙ ap (λ l. file_text l opened a.reopen_error a.filestream (a.formatter event)) early
      ∙ ap (λ r. file_text false opened r a.filestream (a.formatter event)) e
      ∙ ap (λ (g : Formatter). a.filestream ++ g event) f in
    log_files-open formatter b rest (ap (λ (c : FileLogAppender). c.formatter) same ∙ f) no_error
      (subst (λ t. AllBefore (t + 3) (events_of rest)) (sym opened_at) hs)
    ∙ ap (λ l. l ++ texts formatter (events_of rest)) written
    ∙ append_assoc a.filestream (formatter event) (texts formatter (events_of rest))

-- Whatever a new file appender has logged, an event more than three seconds after the last opening of the file,
-- at which that can be opened, empties it: after it and any events of at most three seconds later the
-- file has just the texts of these events, in their order. What was written before is lost.
pub log_files_lem :
    (formatter : Formatter) (opened : Bool) (before after : List (Bool × LogEvent))
    (event : LogEvent)
    → (log_files (new_file_appender formatter opened) before).last_open_time + 3 < event.time
    → AllBefore (event.time + 3) (events_of after)
    → (log_files (new_file_appender formatter opened) (before ++ (true, event) ∷ after)).filestream
      ≡ texts formatter (event ∷ events_of after)
unfolding new_file_appender reopen
log_files_lem formatter opened before after event late h =
    let start = new_file_appender formatter opened in
    let a = log_files start before in
    let b = log_file a true event in
    let same = log_file_lem a true event in
    let is_due : is_late a event ≡ true = lt→ltb (a.last_open_time + 3) event.time late in
    let opened_at : b.last_open_time ≡ event.time =
      ap (λ (c : FileLogAppender). c.last_open_time) same
      ∙ ap (λ l. if l then event.time else a.last_open_time) is_due in
    let no_error : b.reopen_error ≡ false =
      ap (λ (c : FileLogAppender). c.reopen_error) same
      ∙ ap (λ l. if l then false else a.reopen_error) is_due in
    let by_formatter : a.formatter ≡ formatter = formatter-log_files start before in
    let written : b.filestream ≡ formatter event =
      ap (λ (c : FileLogAppender). c.filestream) same
      ∙ ap (λ l. file_text l true a.reopen_error a.filestream (a.formatter event)) is_due
      ∙ ap (λ (g : Formatter). g event) by_formatter in
    ap (λ (c : FileLogAppender). c.filestream)
      (log_files-append start before ((true, event) ∷ after))
    ∙ log_files-open formatter b after
        (ap (λ (c : FileLogAppender). c.formatter) same ∙ by_formatter) no_error
        (subst (λ t. AllBefore (t + 3) (events_of after)) (sym opened_at) h)
    ∙ ap (λ l. l ++ texts formatter (events_of after)) written
