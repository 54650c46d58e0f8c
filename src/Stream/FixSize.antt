-- ===== src/Stream/FixSize.antt =====
-- What `readFixSize` and `writeFixSize` do over a stream that keeps to what `read` and `write` promise.
use dag.Common.{
  ℕ, zero, suc, ◌-◌, ◌%◌, ◌^◌, lt→ltb, if◌then◌else◌, ◌≤◌, ◌<◌, ◌≡◌, ◌≢◌, refl, sym, ap, ◌∙◌, ◌⊎◌,
  inl, inr, true, false, List, [], ◌∷◌, ◌++◌, length, take, drop, ok, arith, ◌==◌, ==_iff,
  append-nil, append_assoc, length-append, take-append-drop, length-drop, Bool-cases,
}
use dag.Stream.{
  Reply, got, failed, Sent, took, refused, Result, returned, broken, as_int, read_loop,
  read_fix_size, write_loop, write_fix_size,
}

-- `read` gives the next bytes of what comes in, no more than asked for; with an error it takes none.
pub record Reads {S : Type 0} (read : S → ℕ → Reply × S) (incoming : S → List ℕ) : Type 0 where
  pub next :
      (s : S) (n : ℕ) (bs : List ℕ)
      → (read s n).0 ≡ got bs
      → incoming s ≡ bs ++ incoming (read s n).1
  pub most : (s : S) (n : ℕ) (bs : List ℕ) → (read s n).0 ≡ got bs → length bs ≤ n
  pub none_taken :
      (s : S) (n : ℕ) (e : ℕ) → (read s n).0 ≡ failed e → incoming (read s n).1 ≡ incoming s

Reply-cases : (r : Reply) → ((bs : List ℕ) × (r ≡ got bs)) ⊎ ((e : ℕ) × (r ≡ failed e))
Reply-cases (got bs) = inl (bs, refl)
Reply-cases (failed e) = inr (e, refl)

-- How a loop ends: with the result `size` and all `n` bytes asked for, or before that, with what came in so
-- far.
pub record Filled {S : Type 0} (incoming : S → List ℕ) (size : ℕ) (s : S) (n : ℕ) (out : List ℕ)
    (r : Result × List ℕ × S) : Type 0 where
  pub bytes :
      (bs : List ℕ) × (r.1 ≡ out ++ bs)
      × (incoming s ≡ bs ++ incoming r.2)
      × (((r.0 ≡ returned size) × (length bs ≡ n)) ⊎ ((r.0 ≢ returned size) × (length bs < n)))

as_int_lem : (size : ℕ) → size < 2 ^ 31 → as_int size ≡ returned size
as_int_lem size h = let small : size % 2 ^ 32 ≡ size = omega (arith, h) in ap returned small

not_size : (size : ℕ) → 0 < size → returned 0 ≢ returned size
not_size size h e = let z : 0 ≡ size = cc e in absurd (omega (arith, h, z))

zero_less : (n : ℕ) → (n == 0) ≡ false → 0 < n
zero_less zero z = absurd (cc z)
zero_less (suc n) z = omega arith

zero_test : (n : ℕ) → (suc n == 0) ≡ false
zero_test n = ground arith

module _ {S : Type 0} (read : S → ℕ → Reply × S) (incoming : S → List ℕ)
    (law : Reads read incoming) where
  read_loop-Filled :
      (size fuel : ℕ) (s : S) (n : ℕ) (out : List ℕ)
      → 0 < size
      → size < 2 ^ 31
      → n ≤ fuel
      → (r : Result × List ℕ × S) × (read_loop read size fuel s n out ≡ ok r)
        × Filled incoming size s n out r
  unfolding read_loop
  read_loop-Filled size zero s n out p0 p1 h =
      let e : n ≡ 0 = omega (arith, h) in
      (
        (as_int size, out, s),
        rw e refl,
        record { bytes = ([], sym (append-nil out), refl, inl (as_int_lem size p1, sym e)) },
      )
  read_loop-Filled size (suc fuel) s n out p0 p1 h = elim (Bool-cases (n == 0)) [
    | inl z ↦ (
      (as_int size, out, s),
      rw (read_loop, z) refl,
      record {
        bytes = ([], sym (append-nil out), refl, inl (as_int_lem size p1, sym ((==_iff n 0).0 z)));
      },
    )
    | inr z ↦ elim (Reply-cases (read s n).0) [
      | inr (e, q) ↦ (
        (broken e, out, (read s n).1),
        rw (read_loop, z, q) refl,
        record {
          bytes = (
            [],
            sym (append-nil out),
            sym (law.none_taken s n e q),
            inr ((λ p. absurd (cc p)), zero_less n z),
          );
        },
      )
      | inl ([], q) ↦ (
        (returned 0, out, (read s n).1),
        rw (read_loop, z, q) refl,
        record {
          bytes =
              ([], sym (append-nil out), law.next s n [] q, inr (not_size size p0, zero_less n z));
        },
      )
      | inl (b ∷ bs, q) ↦
          let m = law.most s n (b ∷ bs) q in
          let (r, run, f) =
            read_loop-Filled size fuel (read s n).1 (n - length (b ∷ bs)) (out ++ b ∷ bs) p0 p1
              (omega (arith, h)) in
          let (more, buffer, left, end) = f.bytes in
          (
            r,
            rw (read_loop, z, q, zero_test (length bs)) run,
            record {
              bytes = (
                (b ∷ bs) ++ more,
                buffer ∙ append_assoc out (b ∷ bs) more,
                law.next s n (b ∷ bs) q
                    ∙ ap ((b ∷ bs) ++◌) left
                    ∙ sym (append_assoc (b ∷ bs) more (incoming r.2)),
                elim end [
                  | inl (g, l) ↦ inl (g, omega (arith, l, m, length-append (b ∷ bs) more))
                  | inr (g, l) ↦ inr (g, omega (arith, l, m, length-append (b ∷ bs) more))
                ],
              );
            },
          )
    ]
  ]

  -- Over a stream whose `read` gives the next bytes, and no more than asked for, `readFixSize` of 1 to
  -- `2 ^ 31 - 1` bytes ends within as many rounds as bytes are asked for. It returns the length with exactly
  -- that many of the next bytes in the buffer, in order, or else another number with fewer, and no byte
  -- is lost.
  pub read_fix_size-Filled :
      (fuel : ℕ) (s : S) (n : ℕ) (out : List ℕ)
      → 0 < n
      → n < 2 ^ 31
      → n ≤ fuel
      → (r : Result × List ℕ × S) × (read_fix_size read fuel s n out ≡ ok r)
        × Filled incoming n s n out r
  unfolding read_fix_size
  read_fix_size-Filled fuel s n out p0 p1 h =
      let (r, run, f) = read_loop-Filled n fuel s n out p0 p1 h in
      (
        r,
        ap (λ b. read_loop read n fuel s (if b then n else 0) out)
              (lt→ltb n (2 ^ 63) (omega (arith, p1)))
            ∙ run,
        f,
      )

-- `write` takes a front part of the buffer, after all that was sent before; with an error it takes none.
pub record Writes {S : Type 0} (write : S → List ℕ → Sent × S) (sent : S → List ℕ) : Type 0 where
  pub next :
      (s : S) (buf : List ℕ) (n : ℕ)
      → (write s buf).0 ≡ took n
      → sent (write s buf).1 ≡ sent s ++ take n buf
  pub most : (s : S) (buf : List ℕ) (n : ℕ) → (write s buf).0 ≡ took n → n ≤ length buf
  pub none_taken :
      (s : S) (buf : List ℕ) (e : ℕ) → (write s buf).0 ≡ refused e → sent (write s buf).1 ≡ sent s

Sent-cases : (r : Sent) → ((n : ℕ) × (r ≡ took n)) ⊎ ((e : ℕ) × (r ≡ refused e))
Sent-cases (took n) = inl (n, refl)
Sent-cases (refused e) = inr (e, refl)

-- How a loop ends: what was sent and what is left make up the buffer, and nothing is left exactly if the
-- result is `size`.
pub record Flushed {S : Type 0} (sent : S → List ℕ) (size : ℕ) (s : S) (buf : List ℕ)
    (r : Result × List ℕ × S) : Type 0 where
  pub whole : sent r.2 ++ r.1 ≡ sent s ++ buf
  pub end : ((r.0 ≡ returned size) × (r.1 ≡ [])) ⊎ ((r.0 ≢ returned size) × (0 < length r.1))

length_nil : (buf : List ℕ) → (length buf == 0) ≡ true → buf ≡ []
length_nil [] z = refl
length_nil (b ∷ bs) z = absurd (cc (z, zero_test (length bs)))

module _ {S : Type 0} (write : S → List ℕ → Sent × S) (sent : S → List ℕ)
    (law : Writes write sent) where
  write_loop-Flushed :
      (size fuel : ℕ) (s : S) (buf : List ℕ)
      → 0 < size
      → size < 2 ^ 31
      → length buf ≤ fuel
      → (r : Result × List ℕ × S) × (write_loop write size fuel s buf ≡ ok r)
        × Flushed sent size s buf r
  unfolding write_loop
  write_loop-Flushed size zero s [] p0 p1 h =
      ((as_int size, [], s), refl, record { whole = refl; end = inl (as_int_lem size p1, refl) })
  write_loop-Flushed size zero s (b ∷ bs) p0 p1 h = absurd (omega (arith, h))
  write_loop-Flushed size (suc fuel) s buf p0 p1 h = elim (Bool-cases (length buf == 0)) [
    | inl z ↦ (
      (as_int size, buf, s),
      rw (write_loop, z) refl,
      record { whole = refl; end = inl (as_int_lem size p1, length_nil buf z) },
    )
    | inr z ↦ elim (Sent-cases (write s buf).0) [
      | inr (e, q) ↦ (
        (broken e, buf, (write s buf).1),
        rw (write_loop, z, q) refl,
        record {
          whole = ap (λ l. l ++ buf) (law.none_taken s buf e q);
          end = inr ((λ p. absurd (cc p)), zero_less (length buf) z);
        },
      )
      | inl (n, q) ↦
          let m = law.most s buf n q in
          elim (Bool-cases (n == 0)) [
            | inl y ↦ (
              (returned 0, buf, (write s buf).1),
              rw (write_loop, z, q, y) refl,
              record {
                whole =
                    ap (λ l. l ++ buf)
                      (law.next s buf n q
                        ∙ ap (λ k. sent s ++ take k buf) ((==_iff n 0).0 y)
                        ∙ append-nil (sent s));
                end = inr (not_size size p0, zero_less (length buf) z);
              },
            )
            | inr y ↦
                let pos = zero_less n y in
                let (r, run, f) =
                  write_loop-Flushed size fuel (write s buf).1 (drop n buf) p0 p1
                    (omega (arith, h, m, pos, length-drop n buf)) in
                (
                  r,
                  rw (write_loop, z, q, y) run,
                  record {
                    whole =
                        f.whole
                        ∙ ap (λ l. l ++ drop n buf) (law.next s buf n q)
                        ∙ append_assoc (sent s) (take n buf) (drop n buf)
                        ∙ ap (sent s ++◌) (take-append-drop n buf);
                    end = f.end;
                  },
                )
          ]
    ]
  ]

  -- Over a stream whose `write` takes a front part of what it is given, `writeFixSize` of 1 to `2 ^ 31 - 1`
  -- bytes ends within as many rounds as there are bytes. What was sent, followed by what is left, is the
  -- buffer in its order, and nothing is left exactly if the result is the length.
  pub write_fix_size-Flushed :
      (fuel : ℕ) (s : S) (buf : List ℕ)
      → 0 < length buf
      → length buf < 2 ^ 31
      → length buf ≤ fuel
      → (r : Result × List ℕ × S) × (write_fix_size write fuel s buf ≡ ok r)
        × Flushed sent (length buf) s buf r
  unfolding write_fix_size
  write_fix_size-Flushed fuel s buf p0 p1 h =
      let (r, run, f) = write_loop-Flushed (length buf) fuel s buf p0 p1 h in
      (r, rw (lt→ltb (length buf) (2 ^ 63) (omega (arith, p1))) run, f)
