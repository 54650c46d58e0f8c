-- ===== src/Logger/Logging.antt =====
-- What logging an event does to the appenders.
use dag.Common.{
  Bool-cases, leb, and_left, and_right, not-true, ℕ, ◌≡◌, ◌≢◌, refl, ap, sym, ◌∙◌, subst, Bool,
  true, false, not, ◌&&◌, List, [], ◌∷◌, ◌++◌, ◌==◌, leb, Bool-cases, inl, inr, ==_iff,
  if◌then◌else◌, if_both, if_split, append_assoc, append-nil, update_self, update_ne,
}
use dag.Logger.{LogEvent, value}
use dag.Logger.Files.{filed, log_file_lem}
use dag.Logger.Appender.{
  LogAppender, stdout_appender, file_appender, log_file, Logs, log_as, log_appender, Logger, remove,
  del_appender, log_each, log,
}

abbrev pub member : ℕ → List ℕ → Bool
member id [] = false
member id (x ∷ xs) = if x == id then true else member id xs

abbrev pub is_distinct : List ℕ → Bool
is_distinct [] = true
is_distinct (x ∷ xs) = not (member x xs) && is_distinct xs

not_member :
    (id x : ℕ) (xs : List ℕ) → member id (x ∷ xs) ≡ false → (x ≢ id) × (member id xs ≡ false)
not_member id x xs h = elim (if_split (λ b. b ≡ false) (x == id) h) [
  | inl (e, k) ↦ absurd (cc k)
  | inr (e, k) ↦ (λ d. cc (e, (==_iff x id).1 d), k)
]

module _ (opened : ℕ → Bool) (event : LogEvent) where
  -- What an event adds to an appender, and to the standard output.
  abbrev pub logged : ℕ → LogAppender → LogAppender
  logged id (stdout_appender formatter) = stdout_appender formatter
  logged id (file_appender a) = file_appender (filed a (opened id) event)

  abbrev pub printed : LogAppender → List ℕ
  printed (stdout_appender formatter) = formatter event
  printed (file_appender a) = []

  abbrev pub printed_each : (ℕ → LogAppender) → List ℕ → List ℕ
  printed_each appenders [] = []
  printed_each appenders (id ∷ ids) = printed (appenders id) ++ printed_each appenders ids

  log_as_self :
      (logs : Logs) (id : ℕ) (a : LogAppender)
      → logs.appenders id ≡ a
      → (log_as logs (opened id) event id a).appenders id ≡ logged id a
  unfolding log_as
  log_as_self logs id (stdout_appender formatter) e = e
  log_as_self logs id (file_appender a) e =
      update_self logs.appenders id (file_appender (log_file a (opened id) event))
      ∙ ap file_appender (log_file_lem a (opened id) event)

  log_as_other :
      (logs : Logs) (id other : ℕ) (a : LogAppender)
      → id ≢ other
      → (log_as logs (opened id) event id a).appenders other ≡ logs.appenders other
  unfolding log_as
  log_as_other logs id other (stdout_appender formatter) d = refl
  log_as_other logs id other (file_appender a) d =
      update_ne logs.appenders id (file_appender (log_file a (opened id) event)) other d

  cout-log_as :
      (logs : Logs) (id : ℕ) (a : LogAppender)
      → (log_as logs (opened id) event id a).cout ≡ logs.cout ++ printed a
  unfolding log_as
  cout-log_as logs id (stdout_appender formatter) = refl
  cout-log_as logs id (file_appender a) = sym (append-nil logs.cout)

  log_each_other :
      (ids : List ℕ) (logs : Logs) (id : ℕ)
      → member id ids ≡ false
      → (log_each opened event ids logs).appenders id ≡ logs.appenders id
  log_each_other [] logs id h = refl
  log_each_other (x ∷ xs) logs id h =
      let (d, k) = not_member id x xs h in
      log_each_other xs (log_appender logs (opened x) event x) id k
      ∙ log_as_other logs x id (logs.appenders x) d

  printed-log_as :
      (logs : Logs) (id other : ℕ) (a : LogAppender)
      → logs.appenders id ≡ a
      → printed ((log_as logs (opened id) event id a).appenders other)
        ≡ printed (logs.appenders other)
  unfolding log_as
  printed-log_as logs id other (stdout_appender formatter) e = refl
  printed-log_as logs id other (file_appender a) e = elim (Bool-cases (id == other)) [
    | inl d ↦ rw d (sym (ap printed (ap logs.appenders (sym ((==_iff id other).0 d)) ∙ e)))
    | inr d ↦ rw d refl
  ]

  printed_each_same :
      (ids : List ℕ) (f g : ℕ → LogAppender)
      → ((id : ℕ) → printed (f id) ≡ printed (g id))
      → printed_each f ids ≡ printed_each g ids
  printed_each_same [] f g h = refl
  printed_each_same (x ∷ xs) f g h =
      ap (λ l. l ++ printed_each f xs) (h x)
      ∙ ap (λ l. printed (g x) ++ l) (printed_each_same xs f g h)

  cout-log_each :
      (ids : List ℕ) (logs : Logs)
      → (log_each opened event ids logs).cout ≡ logs.cout ++ printed_each logs.appenders ids
  cout-log_each [] logs = sym (append-nil logs.cout)
  cout-log_each (x ∷ xs) logs =
      let next = log_appender logs (opened x) event x in
      cout-log_each xs next
      ∙ ap (λ l. next.cout ++ l)
          (printed_each_same xs next.appenders logs.appenders
            (λ id. printed-log_as logs x id (logs.appenders x) refl))
      ∙ ap (λ l. l ++ printed_each logs.appenders xs) (cout-log_as logs x (logs.appenders x))
      ∙ append_assoc logs.cout (printed (logs.appenders x)) (printed_each logs.appenders xs)

  log_each_once :
      (ids : List ℕ) (logs : Logs) (id : ℕ)
      → is_distinct ids ≡ true
      → (log_each opened event ids logs).appenders id
        ≡ (if member id ids then logged id (logs.appenders id) else logs.appenders id)
  log_each_once [] logs id h = refl
  log_each_once (x ∷ xs) logs id h =
      let next = log_appender logs (opened x) event x in
      elim (Bool-cases (x == id)) [
        | inl e ↦ rw e (
            let same_id = (==_iff x id).0 e in
            let absent : member x xs ≡ false =
              not-true (member x xs) (and_left (not (member x xs)) (is_distinct xs) h) in
            subst
              (λ (i : ℕ). (log_each opened event xs next).appenders i ≡ logged i (logs.appenders i))
              same_id
              (log_each_other xs next x absent ∙ log_as_self logs x (logs.appenders x) refl))
        | inr e ↦ rw e (
            let d : x ≢ id = λ k. cc (e, (==_iff x id).1 k) in
            subst
              (λ (a : LogAppender).
                (log_each opened event xs next).appenders id
                ≡ (if member id xs then logged id a else a))
              (log_as_other logs x id (logs.appenders x) d)
              (log_each_once xs next id (and_right (not (member x xs)) (is_distinct xs) h)))
      ]

-- An event below the logger's level changes nothing. Any other goes to each of the logger's appenders, which
-- are different ones, just once and to no other appender. Its text is added to the file of an appender, or is
-- alone in it where that is opened again, or is not written where it cannot be opened; and the text
-- for the standard output is written in the order of the appenders.
pub log_lem :
    (l : Logger) (opened : ℕ → Bool) (event : LogEvent) (logs : Logs)
    → is_distinct l.appenders ≡ true
    → ((id : ℕ)
        → (log l opened event logs).appenders id ≡ (
            if leb (value l.logger_level) (value event.level) && member id l.appenders
            then logged opened event id (logs.appenders id)
            else logs.appenders id))
      × ((log l opened event logs).cout ≡ (
          if leb (value l.logger_level) (value event.level)
          then logs.cout ++ printed_each opened event logs.appenders l.appenders
          else logs.cout))
unfolding log
log_lem l opened event logs h = elim (Bool-cases (leb (value l.logger_level) (value event.level))) [
  | inl e ↦ rw e (
    λ id. log_each_once opened event l.appenders logs id h,
    cout-log_each opened event l.appenders logs,
  )
  | inr e ↦ rw e (λ id. refl, refl)
]

member-remove : (id : ℕ) (ids : List ℕ) → member id (remove id ids) ≡ false
member-remove id [] = refl
member-remove id (x ∷ xs) = elim (Bool-cases (x == id)) [
  | inl e ↦ rw (e, remove) (member-remove id xs)
  | inr e ↦
      rw (e, remove)
        (ap (λ b. if b then true else member id (remove id xs)) e ∙ member-remove id xs)
]

-- After `delAppender` an event logged leaves that appender as it is.
pub log-del_appender :
    (l : Logger) (opened : ℕ → Bool) (event : LogEvent) (logs : Logs) (id : ℕ)
    → (log (del_appender l id) opened event logs).appenders id ≡ logs.appenders id
unfolding log del_appender
log-del_appender l opened event logs id =
    if_both (λ (n : Logs). n.appenders id ≡ logs.appenders id)
      (leb (value l.logger_level) (value event.level))
      (log_each_other opened event (remove id l.appenders) logs id (member-remove id l.appenders))
      refl
