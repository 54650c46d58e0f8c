-- ===== src/Stream/Tests.antt =====
-- A stream over a list that gives or takes two bytes at a time, and the theorems applied to it.
use dag.Common.{
  ℕ, ◌≡◌, sym, ap, ◌∙◌, List, [], ◌∷◌, ◌++◌, min, length, take, drop, ok, arith, take-append-drop,
  length-take,
}
use dag.Stream.{Reply, got, Sent, took, Result, read_fix_size, write_fix_size}
use dag.Stream.FixSize.{
  Reads, Writes, Filled, Flushed, read_fix_size-Filled, write_fix_size-Flushed,
}

abbrev read_two : List ℕ → ℕ → Reply × List ℕ
read_two s n = (got (take (min 2 n) s), drop (min 2 n) s)

abbrev write_two : List ℕ → List ℕ → Sent × List ℕ
write_two s buf = (took (min 2 (length buf)), s ++ take (min 2 (length buf)) buf)

read_two-Reads : Reads read_two (λ s. s)
read_two-Reads = record {
  next = λ s n bs e.
      let same : take (min 2 n) s ≡ bs = cc e in
      sym (take-append-drop (min 2 n) s) ∙ ap (λ l. l ++ drop (min 2 n) s) same;
  most = λ s n bs e.
      let same : take (min 2 n) s ≡ bs = cc e in
      omega (arith, length-take (min 2 n) s, ap length same);
  none_taken = λ s n k e. absurd (cc e);
}

write_two-Writes : Writes write_two (λ s. s)
write_two-Writes = record {
  next = λ s buf n e. let same : min 2 (length buf) ≡ n = cc e in ap (λ k. s ++ take k buf) same;
  most = λ s buf n e. let same : min 2 (length buf) ≡ n = cc e in omega (arith, same);
  none_taken = λ s buf k e. absurd (cc e);
}

abbrev five_bytes : List ℕ
five_bytes = 1 ∷ 2 ∷ 3 ∷ 4 ∷ 5 ∷ []

read_fix_size-Filled_example :
    (r : Result × List ℕ × List ℕ) × (read_fix_size read_two 3 five_bytes 3 [] ≡ ok r)
    × Filled (λ s. s) 3 five_bytes 3 [] r
read_fix_size-Filled_example =
    read_fix_size-Filled read_two (λ s. s) read_two-Reads 3 five_bytes 3 [] (omega arith)
      (omega arith) (omega arith)

write_fix_size-Flushed_example :
    (r : Result × List ℕ × List ℕ) × (write_fix_size write_two 5 [] five_bytes ≡ ok r)
    × Flushed (λ s. s) 5 [] five_bytes r
write_fix_size-Flushed_example =
    write_fix_size-Flushed write_two (λ s. s) write_two-Writes 5 [] five_bytes (omega arith)
      (omega arith) (omega arith)
