-- ===== src/Logger/Patterns.antt =====
-- Which patterns a formatter accepts, and what it then makes of an event.
use dag.Common.{
  ℕ, ◌≡◌, refl, ap, ◌∙◌, sym, Bool, true, false, List, [], ◌∷◌, ◌++◌, append_assoc, append-nil,
  subst, if_both, Option-cases, inl, inr, ◌==◌, Outcome, ok, fault,
}
use dag.Logger.{
  Scan, Pattern, Place, LogEvent, LogFormatter, FormatItem, start, flush, plain, template,
  in_string, in_template, after_date, in_date, item_of, build, finish, init, scan, step,
  in_string_step, format_items, format,
}
use dag.Logger.Scanning.{
  Part, print_parts, all_printable, add_parts, place-add_parts, scan-print_parts, scan-append,
  in_string_at, flush_eq, flushed, scanned,
}
use dag.Logger.Formatting.{
  expected, all_dates, all_have_items, flush-Rendered, data_format-add_parts, add_parts-Rendered,
}

finish_in_string :
    (pattern : List ℕ) (place : Place) (s : Scan) (items : List FormatItem)
    → place ≡ in_string
    → build s.data_format (flush s).patterns ≡ (false, items)
    → finish pattern place s ≡ ok (record { is_error = false; pattern = pattern; items = items })
unfolding finish
finish_in_string pattern place s items e h =
    subst
      (λ (p : Place).
        finish pattern p s ≡ ok (record { is_error = false; pattern = pattern; items = items }))
      (sym e) (rw h refl)

-- From a pattern that is written from texts without `%`, characters of m p c r f a l t b n N T, and dates
-- without `}`, the constructor makes a formatter without an error, and what that makes of an event is the
-- texts and what the characters and dates stand for by the table `meanings`, in this order. Each date is printed by the
-- formats of all the dates of the pattern, one after the other.
pub format-init :
    (print_number : ℕ → List ℕ) (print_time : List ℕ → ℕ → List ℕ) (ps : List Part)
    → all_printable ps ≡ true
    → all_have_items ps ≡ true
    → (f : LogFormatter) × (init (print_parts ps) ≡ ok f)
      × (f.is_error ≡ false)
      × ((event : LogEvent)
          → format print_number print_time f event
            ≡ expected print_number print_time (all_dates ps) event ps)
unfolding init format build
format-init print_number print_time ps h k =
    let s = add_parts ps start in
    let out : LogEvent → List ℕ =
      λ event. expected print_number print_time (all_dates ps) event ps in
    let (items, e, r) = flush-Rendered print_number print_time (all_dates ps) s out (
      add_parts-Rendered print_number print_time (all_dates ps) ps start (λ event. []) h k
        ([], refl, λ event. refl)) in
    let known = ap (λ d. build d (flush s).patterns) (data_format-add_parts ps start) ∙ e in
    (
      record { is_error = false; pattern = print_parts ps; items = items },
      ap (λ (u : Scan). finish (print_parts ps) u.place u) (scan-print_parts ps start refl h)
          ∙ finish_in_string (print_parts ps) s.place s items (place-add_parts ps start refl) known,
      refl,
      λ event. sym (append-nil (format_items print_number print_time event items)) ∙ r event,
    )

-- With `%d` at its end, a pattern of texts without `%`, other characters and dates without `}` makes the
-- constructor read beyond the end of the pattern.
pub init-date_at_end :
    (ps : List Part) → all_printable ps ≡ true → init (print_parts ps ++ 37 ∷ 100 ∷ []) ≡ fault
unfolding init finish
init-date_at_end ps h =
    let pattern = print_parts ps ++ 37 ∷ 100 ∷ [] in
    let s = add_parts ps start in
    let in_s = place-add_parts ps start refl in
    ap (λ (u : Scan). finish pattern u.place u)
      (scan-append (print_parts ps) (37 ∷ 100 ∷ []) start
        ∙ ap (scan (37 ∷ 100 ∷ [])) (scan-print_parts ps start refl h))
    ∙ in_string_at
        (λ (u : Scan). let v = scan (37 ∷ 100 ∷ []) u in finish pattern v.place v ≡ fault) s in_s
        refl

-- An element for `%%` among the patterns, for which there is no item.
abbrev Escaped : List Pattern → Type 0
Escaped patterns =
    (before : List Pattern) × (after : List Pattern) × (patterns ≡ before ++ template 37 ∷ after)

Escaped-append : (ps qs : List Pattern) → Escaped ps → Escaped (ps ++ qs)
Escaped-append ps qs (before, after, e) =
    (before, after ++ qs, ap (λ l. l ++ qs) e ∙ append_assoc before (template 37 ∷ after) qs)

Escaped-flushed : (ps : List Pattern) (tmp : List ℕ) → Escaped ps → Escaped (flushed ps tmp)
Escaped-flushed ps [] h = h
Escaped-flushed ps (x ∷ xs) h = Escaped-append ps (plain (x ∷ xs) ∷ []) h

Escaped-flush : (s : Scan) → Escaped s.patterns → Escaped (flush s).patterns
Escaped-flush s h =
    subst (λ (u : Scan). Escaped u.patterns) (sym (flush_eq s)) (Escaped-flushed s.patterns s.tmp h)

Escaped-string : (c : ℕ) (s : Scan) → Escaped s.patterns → Escaped (in_string_step c s).patterns
Escaped-string c s h = if_both (λ (u : Scan). Escaped u.patterns) (c == 37) (Escaped-flush s h) h

Escaped-step :
    (place : Place) (c : ℕ) (s : Scan) → Escaped s.patterns → Escaped (step place c s).patterns
Escaped-step in_string c s h = Escaped-string c s h
Escaped-step in_template c s h = Escaped-append s.patterns (template c ∷ []) h
Escaped-step after_date c s h =
    if_both (λ (u : Scan). Escaped u.patterns) (c == 123) h (Escaped-string c s h)
Escaped-step in_date c s h = if_both (λ (u : Scan). Escaped u.patterns) (c == 125) h h

Escaped-scan : (cs : List ℕ) (s : Scan) → Escaped s.patterns → Escaped (scan cs s).patterns
Escaped-scan [] s h = h
Escaped-scan (c ∷ cs) s h = Escaped-scan cs (step s.place c s) (Escaped-step s.place c s h)

stopped-build :
    (dates : List ℕ) (before after : List Pattern)
    → (build dates (before ++ template 37 ∷ after)).0 ≡ true
unfolding build
stopped-build dates [] after = refl
stopped-build dates (p ∷ ps) after = elim (Option-cases (item_of dates p)) [
  | inl n ↦ rw (n, build) refl
  | inr (i, e) ↦ rw (e, build) (stopped-build dates ps after)
]

abbrev is_error_of : Outcome LogFormatter → Bool
is_error_of o = elim o [ ok f ↦ f.is_error | _ ↦ true ]

is_error-build : (s : Scan) → Escaped s.patterns → (build s.data_format (flush s).patterns).0 ≡ true
is_error-build s h =
    let (before, after, e) = Escaped-flush s h in
    ap (λ ps. (build s.data_format ps).0) e ∙ stopped-build s.data_format before after

is_error-finish :
    (pattern : List ℕ) (place : Place) (s : Scan)
    → Escaped s.patterns
    → is_error_of (finish pattern place s) ≡ true
unfolding finish
is_error-finish pattern in_string s h = is_error-build s h
is_error-finish pattern in_template s h = is_error-build s h
is_error-finish pattern after_date s h = refl
is_error-finish pattern in_date s h = refl

-- `%%` behind texts without `%`, other characters and dates without `}` is not read as an escape: whatever
-- follows it, a formatter that the constructor makes of the pattern has an error.
pub init-escape :
    (ps : List Part) (rest : List ℕ) (f : LogFormatter)
    → all_printable ps ≡ true
    → init (print_parts ps ++ 37 ∷ 37 ∷ rest) ≡ ok f
    → f.is_error ≡ true
unfolding init
init-escape ps rest f h e =
    let pattern = print_parts ps ++ 37 ∷ 37 ∷ rest in
    let s = add_parts ps start in
    let scanned_all =
      scan-append (print_parts ps) (37 ∷ 37 ∷ rest) start
      ∙ ap (scan (37 ∷ 37 ∷ rest)) (scan-print_parts ps start refl h) in
    let u = scan (37 ∷ 37 ∷ rest) s in
    let escaped : Escaped u.patterns =
      in_string_at (λ (v : Scan). Escaped (scan (37 ∷ 37 ∷ rest) v).patterns) s
        (place-add_parts ps start refl)
        (let before = scanned s.patterns s.tmp s.data_format in
          Escaped-scan rest (scan (37 ∷ 37 ∷ []) before) ((flush before).patterns, [], refl)) in
    ap is_error_of (sym e)
    ∙ ap (λ (v : Scan). is_error_of (finish pattern v.place v)) scanned_all
    ∙ is_error-finish pattern u.place u escaped
