-- ===== src/Logger/Manager.antt =====
-- What the manager keeps of its loggers.
use dag.Common.{
  if◌then◌else◌, ℕ, ◌+◌, ◌<◌, ◌≡◌, ◌≢◌, refl, ap, sym, ◌∙◌, subst, Option, some, none, List, ◌∷◌,
  Bool-cases, Option-cases, inl, inr, if_split, update, update_self, update_ne, arith,
}
use dag.Logger.{same, info}
use dag.Logger.Appender.{
  Logger, LoggerManager, new_logger, add_appender, init_manager, find_logger, get_logger, root_name,
}
use dag.Logger.Levels.{same_self, same→≡}

-- Each logger is kept under its own name, and the root logger is one of them.
abbrev pub IsValid : LoggerManager → Type 0
IsValid m =
    ((name : List ℕ) (id : ℕ)
      → find_logger name m.loggers ≡ some id
      → (id < m.allocated) × ((m.store id).logger_name ≡ name))
    × (find_logger root_name m.loggers ≡ some m.root_logger)

find_here :
    (name : List ℕ) (id : ℕ) (rest : List (List ℕ × ℕ))
    → find_logger name ((name, id) ∷ rest) ≡ some id
find_here name id rest = rw (same_self name) refl

find_other :
    (name other : List ℕ) (id : ℕ) (rest : List (List ℕ × ℕ))
    → name ≢ other
    → find_logger other ((name, id) ∷ rest) ≡ find_logger other rest
find_other name other id rest d = elim (Bool-cases (same name other)) [
  | inl e ↦ absurd (d (same→≡ name other e))
  | inr e ↦ rw e refl
]

found_other :
    (name other : List ℕ) (m : LoggerManager)
    → find_logger name m.loggers ≡ none
    → (id : ℕ) → find_logger other m.loggers ≡ some id
    → name ≢ other
found_other name other m none_found id found e =
    absurd (cc (sym none_found ∙ ap (λ k. find_logger k m.loggers) e ∙ found))

-- `n` is the manager after a logger of that name was made.
add_logger-IsValid :
    (m : LoggerManager) (name : List ℕ)
    → IsValid m
    → find_logger name m.loggers ≡ none
    → IsValid (record m {
      loggers = (name, m.allocated) ∷ m.loggers;
      store = update m.store m.allocated (new_logger name info);
      allocated = m.allocated + 1;
    })
add_logger-IsValid m name (kept, root) absent = (
  λ other id found. elim (if_split (λ (o : Option ℕ). o ≡ some id) (same name other) found) [
    | inl (e, k) ↦
        let same_id : m.allocated ≡ id = cc k in
        subst
          (λ (i : ℕ).
            (i < m.allocated + 1)
            × ((update m.store m.allocated (new_logger name info) i).logger_name ≡ other))
          same_id
          (
            omega arith,
            ap (λ (l : Logger). l.logger_name)
                  (update_self m.store m.allocated (new_logger name info))
                ∙ same→≡ name other e,
          )
    | inr (e, k) ↦
        let (below, named) = kept other id k in
        let d : m.allocated ≢ id = λ d. omega (arith, below, d) in
        (
          omega (arith, below),
          ap (λ (l : Logger). l.logger_name)
                (update_ne m.store m.allocated (new_logger name info) id d)
              ∙ named,
        )
  ],
  find_other name root_name m.allocated m.loggers
        (found_other name root_name m absent m.root_logger root)
      ∙ root,
)

kept_name :
    (name other : List ℕ) (m : LoggerManager) (id : ℕ)
    → find_logger name m.loggers ≡ some id
    → find_logger other m.loggers
      ≡ (if same name other then some id else find_logger other m.loggers)
kept_name name other m id found = elim (Bool-cases (same name other)) [
  | inl e ↦ rw e (ap (λ k. find_logger k m.loggers) (sym (same→≡ name other e)) ∙ found)
  | inr e ↦ rw e refl
]

-- With a valid manager, `getLogger` returns a logger of the name asked for, keeps the manager valid, and
-- returns the same logger at the next call with that name; under each other name it keeps what there was.
pub get_logger-IsValid :
    (m : LoggerManager) (name : List ℕ)
    → IsValid m
    → (id : ℕ) × (n : LoggerManager) × (get_logger m name ≡ (id, n))
      × IsValid n
      × ((n.store id).logger_name ≡ name)
      × (get_logger n name ≡ (id, n))
      × ((other : List ℕ)
          → find_logger other n.loggers
            ≡ (if same name other then some id else find_logger other m.loggers))
unfolding get_logger
get_logger-IsValid m name (kept, root) = elim (Option-cases (find_logger name m.loggers)) [
  | inl absent ↦
      let valid = add_logger-IsValid m name (kept, root) absent in
      let here = find_here name m.allocated m.loggers in
      (
        m.allocated,
        record m {
          loggers = (name, m.allocated) ∷ m.loggers;
          store = update m.store m.allocated (new_logger name info);
          allocated = m.allocated + 1;
        },
        rw (absent, get_logger) refl,
        valid,
        (valid.0 name m.allocated here).1,
        rw (here, get_logger) refl,
        λ other. refl,
      )
  | inr (id, found) ↦ (
    id,
    m,
    rw (found, get_logger) refl,
    (kept, root),
    (kept name id found).1,
    rw (found, get_logger) refl,
    λ other. kept_name name other m id found,
  )
]

pub init_manager-IsValid : (stdout : ℕ) → IsValid (init_manager stdout)
unfolding init_manager add_appender
init_manager-IsValid stdout = (
  λ name id found. elim (if_split (λ (o : Option ℕ). o ≡ some id) (same root_name name) found) [
    | inl (e, k) ↦ let zero_id : 0 ≡ id = cc k in (omega (arith, zero_id), same→≡ root_name name e)
    | inr (e, k) ↦ absurd (cc k)
  ],
  refl,
)
