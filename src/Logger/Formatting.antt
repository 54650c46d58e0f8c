-- ===== src/Logger/Formatting.antt =====
-- The text that a formatter makes of an event, by the parts of its pattern.
use dag.Common.{
  and_left, and_right, ℕ, ◌≡◌, refl, ap, ◌∙◌, sym, Bool, true, false, ◌&&◌, List, [], ◌∷◌, ◌++◌,
  append_assoc, append-nil, some, none, is_some, Option-cases, inl, inr, subst,
}
use dag.Logger.{
  Scan, Pattern, LogEvent, FormatItem, flush, plain, template, find_item, item_of, build,
  format_item, format_items, new_date_item, string_item,
}
use dag.Logger.Meaning.{
  known_codes, is_known, meaning, meanings, date_text, find_item-is_known, format_item-date_text,
  format_item-meaning,
}
use dag.Logger.Scanning.{
  flush_eq, flushed, not_date, Part, text, code, date, all_printable, is_printable, add_part,
  add_parts,
}

build-some :
    (data_format : List ℕ) (p : Pattern) (ps : List Pattern) (i : FormatItem)
    → item_of data_format p ≡ some i
    → build data_format (p ∷ ps) ≡ ((build data_format ps).0, i ∷ (build data_format ps).1)
unfolding build
build-some data_format p ps i e = rw (e, build) refl

build-none :
    (data_format : List ℕ) (p : Pattern) (ps : List Pattern)
    → item_of data_format p ≡ none
    → build data_format (p ∷ ps) ≡ (true, [])
unfolding build
build-none data_format p ps e = rw (e, build) refl

-- The last element, where none before it stops the loop.
build-append :
    (data_format : List ℕ) (ps : List Pattern) (items : List FormatItem) (p : Pattern)
    (i : FormatItem)
    → build data_format ps ≡ (false, items)
    → item_of data_format p ≡ some i
    → build data_format (ps ++ p ∷ []) ≡ (false, items ++ i ∷ [])
unfolding build
build-append data_format [] items p i h e =
    build-some data_format p [] i e ∙ ap (λ is. (false, is ++ i ∷ [])) (ap (λ r. r.1) h)
build-append data_format (x ∷ xs) items p i h e = elim (Option-cases (item_of data_format x)) [
  | inl n ↦ absurd (cc (h, build-none data_format x xs n))
  | inr (j, s) ↦
      let opened = sym (build-some data_format x xs j s) ∙ h in
      let rest =
        build-append data_format xs (build data_format xs).1 p i
          (ap (λ b. (b, (build data_format xs).1)) (ap (λ r. r.0) opened)) e in
      build-some data_format x (xs ++ p ∷ []) j s
      ∙ ap (λ r. (r.0, j ∷ r.1)) rest
      ∙ ap (λ is. (false, is ++ i ∷ [])) (ap (λ r. r.1) opened)
]

abbrev pub all_dates : List Part → List ℕ
all_dates [] = []
all_dates (text t ∷ ps) = all_dates ps
all_dates (code c ∷ ps) = all_dates ps
all_dates (date t ∷ ps) = t ++ all_dates ps

abbrev has_item : Part → Bool
has_item (text t) = true
has_item (code c) = is_known c known_codes
has_item (date t) = true

abbrev pub all_have_items : List Part → Bool
all_have_items [] = true
all_have_items (p ∷ ps) = has_item p && all_have_items ps

data_format-add_part :
    (p : Part) (ps : List Part) (s : Scan)
    → (add_part p s).data_format ++ all_dates ps ≡ s.data_format ++ all_dates (p ∷ ps)
data_format-add_part (text t) ps s = refl
data_format-add_part (code c) ps s =
    ap (λ d. d ++ all_dates ps) (ap (λ u. u.data_format) (flush_eq s))
data_format-add_part (date t) ps s = append_assoc s.data_format t (all_dates ps)

pub data_format-add_parts :
    (ps : List Part) (s : Scan) → (add_parts ps s).data_format ≡ s.data_format ++ all_dates ps
data_format-add_parts [] s = sym (append-nil s.data_format)
data_format-add_parts (p ∷ ps) s =
    data_format-add_parts ps (add_part p s) ∙ data_format-add_part p ps s

module _ (print_number : ℕ → List ℕ) (print_time : List ℕ → ℕ → List ℕ) where
  format_items-append :
      (event : LogEvent) (is js : List FormatItem)
      → format_items print_number print_time event (is ++ js)
        ≡ format_items print_number print_time event is
          ++ format_items print_number print_time event js
  format_items-append event [] js = refl
  format_items-append event (i ∷ is) js =
      ap (λ l. format_item print_number print_time event i ++ l) (format_items-append event is js)
      ∙ sym (
          append_assoc (format_item print_number print_time event i)
            (format_items print_number print_time event is)
            (format_items print_number print_time event js))

  -- What a part stands for: a text for itself, a character for its meaning, a date for the time by all the
  -- formats of the pattern together.
  abbrev pub expected_part : List ℕ → LogEvent → Part → List ℕ
  expected_part dates event (text t) = t
  expected_part dates event (code c) = meaning c (meanings print_number print_time event)
  expected_part dates event (date t) = date_text print_number print_time dates event

  abbrev pub expected : List ℕ → LogEvent → List Part → List ℕ
  expected dates event [] = []
  expected dates event (p ∷ ps) = expected_part dates event p ++ expected dates event ps

  expected-cons :
      (dates : List ℕ) (event : LogEvent) (p : Part) (ps : List Part) (l : List ℕ)
      → (l ++ expected_part dates event p) ++ expected dates event ps
        ≡ l ++ expected dates event (p ∷ ps)
  expected-cons dates event p ps l =
      append_assoc l (expected_part dates event p) (expected dates event ps)

  -- The patterns found so far make items, and these with the text after them give `out`.
  abbrev pub Rendered : List ℕ → List Pattern → List ℕ → (LogEvent → List ℕ) → Type 0
  Rendered dates patterns tmp out =
      (items : List FormatItem) × (build dates patterns ≡ (false, items))
      × ((event : LogEvent) → format_items print_number print_time event items ++ tmp ≡ out event)

  push-Rendered :
      (dates : List ℕ) (patterns : List Pattern) (out : LogEvent → List ℕ) (p : Pattern)
      (i : FormatItem)
      → Rendered dates patterns [] out
      → item_of dates p ≡ some i
      → Rendered dates
          (patterns ++ p ∷ [])
          []
          (λ event. out event ++ format_item print_number print_time event i)
  push-Rendered dates patterns out p i (items, e, h) k = (
    items ++ i ∷ [],
    build-append dates patterns items p i e k,
    λ event.
        append-nil (format_items print_number print_time event (items ++ i ∷ []))
        ∙ format_items-append event items (i ∷ [])
        ∙ ap (λ l. format_items print_number print_time event items ++ l)
            (append-nil (format_item print_number print_time event i))
        ∙ ap (λ l. l ++ format_item print_number print_time event i)
            (sym (append-nil (format_items print_number print_time event items)) ∙ h event),
  )

  flushed-Rendered :
      (dates : List ℕ) (patterns : List Pattern) (tmp : List ℕ) (out : LogEvent → List ℕ)
      → Rendered dates patterns tmp out
      → Rendered dates (flushed patterns tmp) [] out
  flushed-Rendered dates patterns [] out h = h
  flushed-Rendered dates patterns (x ∷ xs) out (items, e, h) = (
    items ++ string_item (x ∷ xs) ∷ [],
    build-append dates patterns items (plain (x ∷ xs)) (string_item (x ∷ xs)) e refl,
    λ event.
        append-nil (format_items print_number print_time event (items ++ string_item (x ∷ xs) ∷ []))
        ∙ format_items-append event items (string_item (x ∷ xs) ∷ [])
        ∙ ap (λ l. format_items print_number print_time event items ++ l) (append-nil (x ∷ xs))
        ∙ h event,
  )

  pub flush-Rendered :
      (dates : List ℕ) (s : Scan) (out : LogEvent → List ℕ)
      → Rendered dates s.patterns s.tmp out
      → Rendered dates (flush s).patterns [] out
  flush-Rendered dates s out h =
      subst (λ (u : Scan). Rendered dates u.patterns [] out) (sym (flush_eq s))
        (flushed-Rendered dates s.patterns s.tmp out h)

  template-Rendered :
      (dates : List ℕ) (s : Scan) (out : LogEvent → List ℕ) (c : ℕ) (i : FormatItem)
      → Rendered dates s.patterns s.tmp out
      → item_of dates (template c) ≡ some i
      → Rendered dates
          ((flush s).patterns ++ template c ∷ [])
          (flush s).tmp
          (λ event. out event ++ format_item print_number print_time event i)
  template-Rendered dates s out c i h k =
      subst
        (λ (u : Scan).
          Rendered dates (u.patterns ++ template c ∷ []) u.tmp
            (λ event. out event ++ format_item print_number print_time event i))
        (sym (flush_eq s))
        (push-Rendered dates (flushed s.patterns s.tmp) out (template c) i
          (flushed-Rendered dates s.patterns s.tmp out h) k)

  reworded :
      (dates : List ℕ) (patterns : List Pattern) (tmp : List ℕ) {out wanted : LogEvent → List ℕ}
      → ((event : LogEvent) → out event ≡ wanted event)
      → Rendered dates patterns tmp out
      → Rendered dates patterns tmp wanted
  reworded dates patterns tmp same (items, e, r) = (items, e, λ event. r event ∙ same event)

  add_part-Rendered :
      (dates : List ℕ) (p : Part) (s : Scan) (out : LogEvent → List ℕ)
      → is_printable p ≡ true
      → has_item p ≡ true
      → Rendered dates s.patterns s.tmp out
      → Rendered dates
          (add_part p s).patterns
          (add_part p s).tmp
          (λ event. out event ++ expected_part dates event p)
  add_part-Rendered dates (text t) s out h k (items, e, r) = (
    items,
    e,
    λ event.
        sym (append_assoc (format_items print_number print_time event items) s.tmp t)
        ∙ ap (λ l. l ++ t) (r event),
  )
  add_part-Rendered dates (code c) s out h k r = elim (Option-cases (find_item c)) [
    | inl n ↦ absurd (cc (sym k ∙ sym (find_item-is_known c) ∙ ap is_some n))
    | inr (i, e) ↦
        reworded dates _ _
          (λ event.
            ap (λ l. out event ++ l) (format_item-meaning print_number print_time event c i e))
          (template-Rendered dates s out c i r (rw (not_date c h) e))
  ]
  add_part-Rendered dates (date t) s out h k r =
      reworded dates _ _
        (λ event.
          ap (λ l. out event ++ l) (format_item-date_text print_number print_time dates event))
        (template-Rendered dates s out 100 (new_date_item dates) r refl)

  pub add_parts-Rendered :
      (dates : List ℕ) (ps : List Part) (s : Scan) (out : LogEvent → List ℕ)
      → all_printable ps ≡ true
      → all_have_items ps ≡ true
      → Rendered dates s.patterns s.tmp out
      → Rendered dates
          (add_parts ps s).patterns
          (add_parts ps s).tmp
          (λ event. out event ++ expected dates event ps)
  add_parts-Rendered dates [] s out h k (items, e, r) =
      (items, e, λ event. r event ∙ sym (append-nil (out event)))
  add_parts-Rendered dates (p ∷ ps) s out h k r =
      let here =
        add_part-Rendered dates p s out (and_left (is_printable p) (all_printable ps) h)
          (and_left (has_item p) (all_have_items ps) k) r in
      let (items, e, t) =
        add_parts-Rendered dates ps (add_part p s)
          (λ event. out event ++ expected_part dates event p)
          (and_right (is_printable p) (all_printable ps) h)
          (and_right (has_item p) (all_have_items ps) k) here in
      (items, e, λ event. t event ∙ expected-cons dates event p ps (out event))
