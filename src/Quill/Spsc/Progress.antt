-- ===== src/Quill/Spsc/Progress.antt =====
-- A message that fits into the queue can be written when the reader has read all others.
use Prim.Native.Nat.{◌≤◌, ◌<◌}
use mathlib.Core.Bool.{true≢false}
use logger_benchmarks.Prelude.{
  Bool, true, false, leb, ◌||◌, ◌==◌, Bytes, [], length, ◌≡◌, refl, sym, ◌∙◌, arith, inl, inr,
  if_cases,
}
use logger_benchmarks.Quill.Spsc.Defs.{Queue, commit_read, sub_pos}
use logger_benchmarks.Quill.Spsc.Invariant.{IsValid}
use logger_benchmarks.Quill.Spsc.Producer.{write, write-IsValid}
use logger_benchmarks.Quill.Spsc.Consumer.{commit_read-IsValid}

-- A reader that has read all it has seen gives every byte back.
commit_read-drained :
    (q : Queue)
    → (q.writer_pos_cache == q.reader_pos) ≡ true
    → ((commit_read q).atomic_reader_pos ≡ (commit_read q).reader_pos)
      × ((commit_read q).capacity ≡ q.capacity)
unfolding commit_read
commit_read-drained q met =
    if_cases (λ r. (r.atomic_reader_pos ≡ r.reader_pos) × (r.capacity ≡ q.capacity))
      (leb q.bytes_per_batch (sub_pos q.reader_pos q.atomic_reader_pos)
        || (q.writer_pos_cache == q.reader_pos))
      _ q (λ _. (refl, refl))
      (λ neither. absurd (
        true_or (leb q.bytes_per_batch (sub_pos q.reader_pos q.atomic_reader_pos))
          (q.writer_pos_cache == q.reader_pos) met neither))
  where
    true_or : (a b : Bool) → b ≡ true → (a || b) ≡ false → ⊥
    true_or true b h h' = true≢false h'
    true_or false b h h' = true≢false (sym h ∙ h')

-- When the reader has read all messages and none is pending, then after commit_read the write of a
-- message of at least one byte and at most the capacity succeeds.
pub drained-write :
    {q : Queue}
    → IsValid q [] [] []
    → (m : Bytes) → 0 < length m
    → length m ≤ q.capacity
    → (write (commit_read q) m).1 ≡ true
drained-write {q = q} v m some_bytes fits =
    let meet : q.writer_pos_cache ≡ q.reader_pos = omega (arith, v.seen_at, v.reader_at) in
    let met : (q.writer_pos_cache == q.reader_pos) ≡ true = ground arith in
    let (given_back, same) = commit_read-drained q met in
    let v' = commit_read-IsValid v in
    elim (write-IsValid v' m some_bytes) [
      | inl (written, _) ↦ written
      | inr (refused, _, full) ↦ absurd (
          omega (
            arith, given_back, same, v'.released_at, v'.reader_at, v'.released_le, v'.cached_le,
            v'.within, v'.bounded, full, fits,
          ))
    ]
