-- ===== src/Stream.antt =====
-- dag/stream.h and dag/stream.cpp: the loops that read and write a fixed number of bytes. The virtual
-- `read` and `write` of a stream with the state `S` are arguments. The buffer of a loop is the list of
-- the bytes that were put into it, or are still to be taken from it.
pub mod FixSize
pub mod Tests
use dag.Common.{
  ℕ, zero, suc, ◌-◌, ◌%◌, ◌^◌, ◌==◌, ltb, if◌then◌else◌, Bool, true, false, List, [], ◌∷◌, ◌++◌,
  length, drop, Outcome, ok, stuck,
}

-- What `read` returns: the bytes, none for the result 0; or a negative number, given without its sign.
pub data Reply : Type 0 where
  got : List ℕ → Reply
  failed : ℕ → Reply

-- What `write` returns: how many bytes it took, or a negative number.
pub data Sent : Type 0 where
  took : ℕ → Sent
  refused : ℕ → Sent

-- What `readFixSize` and `writeFixSize` return: an `int`, by its 32 bits as an unsigned number, or the error of
-- `read` or `write`.
pub data Result : Type 0 where
  returned : ℕ → Result
  broken : ℕ → Result

-- `return length;`, and `return len;` for the 0 of `read` or `write`.
abbrev pub as_int : ℕ → Result
as_int length = returned (length % 2 ^ 32)

-- `int64_t left = length;`, where a number that is not positive stops the loop at once.
abbrev pub signed_left : ℕ → ℕ
signed_left length = if ltb length (2 ^ 63) then length else 0

-- The loop of `readFixSize` for `length` bytes: the result, the buffer, and the stream.
unfoldable pub read_loop :
    {S : Type 0} → (S → ℕ → Reply × S) → ℕ → ℕ → S → ℕ → List ℕ → Outcome (Result × List ℕ × S)
read_loop read size zero s left out = elim (left == 0) [
  | true ↦ ok (as_int size, out, s)
  | false ↦ stuck
]
read_loop read size (suc fuel) s left out = elim (left == 0) [
  | true ↦ ok (as_int size, out, s)
  | false ↦
      let r = read s left in
      elim r.0 [
        | failed e ↦ ok (broken e, out, r.1)
        | got bs ↦ elim (length bs == 0) [
          | true ↦ ok (returned 0, out, r.1)
          | false ↦ read_loop read size fuel r.1 (left - length bs) (out ++ bs)
        ]
      ]
]

unfoldable pub read_fix_size :
    {S : Type 0} → (S → ℕ → Reply × S) → ℕ → S → ℕ → List ℕ → Outcome (Result × List ℕ × S)
read_fix_size read fuel s size out = read_loop read size fuel s (signed_left size) out

-- The loop of `writeFixSize` for `length` bytes: the result, what is still to be written, and the stream.
unfoldable pub write_loop :
    {S : Type 0} → (S → List ℕ → Sent × S) → ℕ → ℕ → S → List ℕ → Outcome (Result × List ℕ × S)
write_loop write size zero s buf = elim (length buf == 0) [
  | true ↦ ok (as_int size, buf, s)
  | false ↦ stuck
]
write_loop write size (suc fuel) s buf = elim (length buf == 0) [
  | true ↦ ok (as_int size, buf, s)
  | false ↦
      let r = write s buf in
      elim r.0 [
        | refused e ↦ ok (broken e, buf, r.1)
        | took n ↦ elim (n == 0) [
          | true ↦ ok (returned 0, buf, r.1)
          | false ↦ write_loop write size fuel r.1 (drop n buf)
        ]
      ]
]

-- A buffer of `2 ^ 63` bytes or more is not touched.
unfoldable pub write_fix_size :
    {S : Type 0} → (S → List ℕ → Sent × S) → ℕ → S → List ℕ → Outcome (Result × List ℕ × S)
write_fix_size write fuel s buf =
    if ltb (length buf) (2 ^ 63)
    then write_loop write (length buf) fuel s buf
    else ok (as_int (length buf), buf, s)
