-- ===== src/Logger/Scanning.antt =====
-- What the first loop of `init` makes of a pattern that is written from its parts.
use dag.Common.{
  and_left, and_right, ℕ, ◌≡◌, refl, ap, ◌∙◌, sym, Bool, true, false, ◌&&◌, List, [], ◌∷◌, ◌++◌,
  ◌==◌, if◌then◌else◌, append_assoc, append-nil, Bool-cases, inl, inr, if_split, subst,
}
use dag.Logger.{
  Scan, Pattern, Place, flush, in_string_step, step, scan, plain, template, in_string, in_date,
}

-- The parts that a pattern is written from: a text, a character behind `%`, and `%d{...}`.
pub data Part : Type 0 where
  text : List ℕ → Part
  code : ℕ → Part
  date : List ℕ → Part

abbrev pub print_part : Part → List ℕ
print_part (text t) = t
print_part (code c) = 37 ∷ c ∷ []
print_part (date t) = 37 ∷ 100 ∷ 123 ∷ t ++ 125 ∷ []

abbrev pub print_parts : List Part → List ℕ
print_parts [] = []
print_parts (p ∷ ps) = print_part p ++ print_parts ps

abbrev pub lacks : ℕ → List ℕ → Bool
lacks c [] = true
lacks c (x ∷ xs) = if x == c then false else lacks c xs

-- What the pattern's syntax asks of a part: no `%` in a text, no `}` in a date, and a character that is not
-- that of a date.
abbrev pub is_printable : Part → Bool
is_printable (text t) = lacks 37 t
is_printable (code c) = if c == 100 then false else true
is_printable (date t) = lacks 125 t

abbrev pub all_printable : List Part → Bool
all_printable [] = true
all_printable (p ∷ ps) = is_printable p && all_printable ps

-- The loop in a string.
abbrev pub scanned : List Pattern → List ℕ → List ℕ → Scan
scanned patterns tmp data_format = record {
  place = in_string;
  patterns = patterns;
  tmp = tmp;
  data_format = data_format;
}

pub scan-append : (xs ys : List ℕ) (s : Scan) → scan (xs ++ ys) s ≡ scan ys (scan xs s)
scan-append [] ys s = refl
scan-append (x ∷ xs) ys s = scan-append xs ys (step s.place x s)

lacks-cons :
    (c x : ℕ) (xs : List ℕ) → lacks c (x ∷ xs) ≡ true → ((x == c) ≡ false) × (lacks c xs ≡ true)
lacks-cons c x xs h = elim (if_split (λ b. b ≡ true) (x == c) h) [
  | inl (e, k) ↦ absurd (cc k)
  | inr (e, k) ↦ (e, k)
]

module _ (patterns : List Pattern) where
  abbrev pub flushed : List ℕ → List Pattern
  flushed [] = patterns
  flushed (x ∷ xs) = patterns ++ plain (x ∷ xs) ∷ []

  flush_lem :
      (place : Place) (tmp data_format : List ℕ)
      → flush (record { place = place; patterns = patterns; tmp = tmp; data_format = data_format })
        ≡ record { place = place; patterns = flushed tmp; tmp = []; data_format = data_format }
  flush_lem place [] data_format = refl
  flush_lem place (x ∷ xs) data_format = refl

  step_text :
      (x : ℕ) (tmp data_format : List ℕ)
      → (x == 37) ≡ false
      → in_string_step x (scanned patterns tmp data_format)
        ≡ scanned patterns (tmp ++ x ∷ []) data_format
  step_text x tmp data_format e = rw e refl

  step_date :
      (x : ℕ) (tmp data_format : List ℕ)
      → (x == 125) ≡ false
      → step in_date x (record (scanned patterns tmp data_format) { place = in_date })
        ≡ record (scanned patterns tmp (data_format ++ x ∷ [])) { place = in_date }
  step_date x tmp data_format e = rw e refl

  scan_text :
      (t tmp data_format : List ℕ)
      → lacks 37 t ≡ true
      → scan t (scanned patterns tmp data_format) ≡ scanned patterns (tmp ++ t) data_format
  scan_text [] tmp data_format h = ap (λ l. scanned patterns l data_format) (sym (append-nil tmp))
  scan_text (x ∷ xs) tmp data_format h =
      let (e, k) = lacks-cons 37 x xs h in
      ap (scan xs) (step_text x tmp data_format e)
      ∙ scan_text xs (tmp ++ x ∷ []) data_format k
      ∙ ap (λ l. scanned patterns l data_format) (append_assoc tmp (x ∷ []) xs)

  scan_date :
      (t tmp data_format : List ℕ)
      → lacks 125 t ≡ true
      → scan (t ++ 125 ∷ []) (record (scanned patterns tmp data_format) { place = in_date })
        ≡ scanned patterns tmp (data_format ++ t)
  scan_date [] tmp data_format h = ap (scanned patterns tmp) (sym (append-nil data_format))
  scan_date (x ∷ xs) tmp data_format h =
      let (e, k) = lacks-cons 125 x xs h in
      ap (scan (xs ++ 125 ∷ [])) (step_date x tmp data_format e)
      ∙ scan_date xs tmp (data_format ++ x ∷ []) k
      ∙ ap (scanned patterns tmp) (append_assoc data_format (x ∷ []) xs)

-- What a part adds to the variables of the loop.
abbrev pub add_part : Part → Scan → Scan
add_part (text t) s = record s { tmp = s.tmp ++ t }
add_part (code c) s = record (flush s) { patterns = (flush s).patterns ++ template c ∷ [] }
add_part (date t) s = record (flush s) {
  patterns = (flush s).patterns ++ template 100 ∷ [];
  data_format = s.data_format ++ t;
}

abbrev pub add_parts : List Part → Scan → Scan
add_parts [] s = s
add_parts (p ∷ ps) s = add_parts ps (add_part p s)

pub not_date : (c : ℕ) → is_printable (code c) ≡ true → (c == 100) ≡ false
not_date c h = elim (Bool-cases (c == 100)) [
  | inl e ↦ elim (if_split (λ b. b ≡ true) (c == 100) h) [
    | inl (d, k) ↦ absurd (cc k)
    | inr (d, k) ↦ d
  ]
  | inr e ↦ e
]

scanned-print_part :
    (p : Part) (patterns : List Pattern) (tmp data_format : List ℕ)
    → is_printable p ≡ true
    → scan (print_part p) (scanned patterns tmp data_format)
      ≡ add_part p (scanned patterns tmp data_format)
scanned-print_part (text t) patterns tmp data_format h = scan_text patterns t tmp data_format h
scanned-print_part (code c) patterns [] data_format h = rw (not_date c h) refl
scanned-print_part (code c) patterns (x ∷ xs) data_format h = rw (not_date c h) refl
scanned-print_part (date t) patterns [] data_format h =
    scan_date (patterns ++ template 100 ∷ []) t [] data_format h
scanned-print_part (date t) patterns (x ∷ xs) data_format h =
    scan_date ((patterns ++ plain (x ∷ xs) ∷ []) ++ template 100 ∷ []) t [] data_format h

pub flush_eq : (s : Scan) → flush s ≡ record s { patterns = flushed s.patterns s.tmp; tmp = [] }
flush_eq s = flush_lem s.patterns s.place s.tmp s.data_format

place-flush : (s : Scan) → (flush s).place ≡ s.place
place-flush s = ap (λ u. u.place) (flush_eq s)

pub place-add_part : (p : Part) (s : Scan) → s.place ≡ in_string → (add_part p s).place ≡ in_string
place-add_part (text t) s e = e
place-add_part (code c) s e = place-flush s ∙ e
place-add_part (date t) s e = place-flush s ∙ e

pub place-add_parts :
    (ps : List Part) (s : Scan) → s.place ≡ in_string → (add_parts ps s).place ≡ in_string
place-add_parts [] s e = e
place-add_parts (p ∷ ps) s e = place-add_parts ps (add_part p s) (place-add_part p s e)

-- What holds of the loop in a string.
pub in_string_at {ℓ} :
    (P : Scan → Type ℓ) (s : Scan)
    → s.place ≡ in_string
    → P (scanned s.patterns s.tmp s.data_format)
    → P s
in_string_at P s e h = subst P (ap (λ (place : Place). record s { place = place }) (sym e)) h

scan-print_part :
    (p : Part) (s : Scan)
    → s.place ≡ in_string
    → is_printable p ≡ true
    → scan (print_part p) s ≡ add_part p s
scan-print_part p s e h =
    in_string_at (λ u. scan (print_part p) u ≡ add_part p u) s e
      (scanned-print_part p s.patterns s.tmp s.data_format h)

pub scan-print_parts :
    (ps : List Part) (s : Scan)
    → s.place ≡ in_string
    → all_printable ps ≡ true
    → scan (print_parts ps) s ≡ add_parts ps s
scan-print_parts [] s e h = refl
scan-print_parts (p ∷ ps) s e h =
    let here = and_left (is_printable p) (all_printable ps) h in
    scan-append (print_part p) (print_parts ps) s
    ∙ ap (scan (print_parts ps)) (scan-print_part p s e here)
    ∙ scan-print_parts ps (add_part p s) (place-add_part p s e)
        (and_right (is_printable p) (all_printable ps) h)
