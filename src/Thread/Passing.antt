-- ===== src/Thread/Passing.antt =====
-- The order in which the two threads pass the semaphore.
use dag.Common.{ℕ, ◌-◌, ◌^◌, ◌≡◌, refl, ap, ◌∙◌, Bool, true, false, some, ok}
use dag.Thread.{wait, signal, Starting, new_thread, Step, passes, signals, Steps, done, next}

-- The count that goes with what has been passed.
abbrev pub expected : Bool → Bool → ℕ
expected false false = 0
expected true false = 2 ^ 32 - 1
expected false true = 1
expected true true = 0

abbrev pub Counted : Starting → Type 0
Counted s = s.count ≡ expected s.constructed s.signalled

passes-Counted :
    (count c : ℕ) (signalled : Bool)
    → count ≡ expected false signalled
    → wait count ≡ some c
    → c ≡ expected true signalled
passes-Counted count c false h w = cc (ap wait h, w)
passes-Counted count c true h w = absurd (cc (ap wait h, w))

signals-Counted :
    (count c : ℕ) (constructed : Bool)
    → count ≡ expected constructed false
    → signal count ≡ ok c
    → c ≡ expected constructed true
signals-Counted count c false h w = cc (ap signal h, w)
signals-Counted count c true h w = cc (ap signal h, w)

Step-Counted : {s t : Starting} → Step s t → Counted s → Counted t
Step-Counted (passes {s} {c} f w) h =
    passes-Counted s.count c s.signalled (h ∙ ap (λ b. expected b s.signalled) f) w
Step-Counted (signals {s} {c} f w) h =
    signals-Counted s.count c s.constructed (h ∙ ap (expected s.constructed) f) w

Steps-Counted : {s t : Starting} → Steps s t → Counted s → Counted t
Steps-Counted done h = h
Steps-Counted (next a rest) h = Steps-Counted rest (Step-Counted a h)

Steps-none :
    {s t : Starting}
    → Steps s t
    → s.count ≡ 1
    → s.signalled ≡ true
    → s.constructed ≡ false
    → t.constructed ≡ false
Steps-none done h k c = c
Steps-none (next (passes f w) rest) h k c = absurd (cc (ap wait h, w))
Steps-none (next (signals f w) rest) h k c = absurd (cc (f, k))

-- Where the new thread signals before the constructor has passed its `wait`, the constructor never passes it,
-- whatever steps follow.
pub wait-signalled :
    (s t : Starting)
    → Steps new_thread s
    → s.signalled ≡ true
    → s.constructed ≡ false
    → Steps s t
    → t.constructed ≡ false
wait-signalled s t before k c after =
    Steps-none after
      (Steps-Counted before refl ∙ ap (λ b. expected b s.signalled) c ∙ ap (expected false) k) k c
