-- ===== src/Examples/Queue.antt =====
-- The theorems on the queue of quill, on its buffer of events and on its store of the last ones, at
-- concrete inputs.
use logger_benchmarks.Prelude.{
  ℕ, ◌⨾◌, Bytes, List, length, sym, [], ◌∷◌, ◌≡◌, refl, arith, true, ◌⊎◌, codes, ◌≤◌, ◌<◌, ◌*◌, ◌+◌,
  ◌^◌,
}
use logger_benchmarks.Quill.Errors.{value, quill_error}
use logger_benchmarks.Quill.Powers.{
  IsPower, IsRounded, next_power_of_two, is_power_of_two, bit_and, double_until,
  next_power_of_two-IsRounded,
}
use logger_benchmarks.Quill.Spsc.Slots.{slice}
use logger_benchmarks.Quill.Spsc.Defs.{
  Queue, fresh_queue, make, total_size, metadata_size, cache_line_aligned, prepare_read,
  commit_write, commit_read, finish_read, finish_write, finish_and_commit_write,
}
use logger_benchmarks.Quill.Spsc.Invariant.{IsValid, make-IsValid, fresh-IsValid}
use logger_benchmarks.Quill.Spsc.Producer.{write, Writes, write-IsValid}
use logger_benchmarks.Quill.Spsc.Consumer.{Reads, prepare_read-IsValid, commits-IsValid}
use logger_benchmarks.Quill.Spsc.Runs.{
  Framing, Op, write_message, commit_messages, read_message, refuse_message, give_back, start,
  IsFifo, after_all,
}
use logger_benchmarks.Quill.Spsc.Progress.{drained-write}
use logger_benchmarks.Quill.Spsc.Fifo.{after_all-IsFifo}

next_power_of_two-IsRounded_example : IsRounded 100 (next_power_of_two 100)
next_power_of_two-IsRounded_example = next_power_of_two-IsRounded 100 (omega arith)

-- 100 is rounded up to 128, and 0 to 1.
rounded_test : next_power_of_two 100 ≡ 128
unfolding next_power_of_two is_power_of_two bit_and double_until
rounded_test = refl

abbrev five_percent : ℕ → ℕ
five_percent capacity = capacity * 5

make-IsValid_example :
    ((100 ≤ 2 ^ 62)
      × (q : Queue) × (make five_percent 100 ≡ value q)
      × IsValid q [] [] []
      × (100 ≤ q.capacity)
      × (total_size q.capacity ≡ 2 * q.capacity + metadata_size + cache_line_aligned))
    ⊎ ((2 ^ 62 < 100)
        × (make five_percent 100 ≡ quill_error (codes "BoundedSPSCQueue capacity is too large")))
make-IsValid_example = make-IsValid five_percent 100

abbrev of_four : IsPower 4
of_four = record { exponent = 2; small = omega arith; is_power = refl }

-- A message at position 3 of a queue of 4 bytes reaches over the end of the first 4.
abbrev loaded : ℕ → Queue
loaded writer_pos_cache = record {
  capacity = 4;
  mask = 3;
  bytes_per_batch = 0;
  storage = 0 ∷ 0 ∷ 0 ∷ 7 ∷ 8 ∷ 9 ∷ 0 ∷ 0 ∷ [];
  atomic_writer_pos = 6;
  writer_pos = 6;
  reader_pos_cache_plus_capacity = 7;
  atomic_reader_pos = 3;
  reader_pos = 3;
  writer_pos_cache = writer_pos_cache;
}

abbrev message : Bytes
message = 7 ∷ 8 ∷ 9 ∷ []

published_valid : IsValid (loaded 3) [] (message ∷ []) []
unfolding slice
published_valid = record {
  reader = 3;
  released = 3;
  cached = 3;
  power = of_four;
  bounded = omega arith;
  masks = refl;
  mirrored = refl;
  reader_at = refl;
  released_at = refl;
  cached_at = refl;
  seen_at = refl;
  published_at = refl;
  writer_at = refl;
  cached_le = omega arith;
  released_le = omega arith;
  within = omega arith;
  placed = (refl, tt);
  sized = (omega arith, tt);
}

seen_valid : IsValid (loaded 6) (message ∷ []) [] []
unfolding slice
seen_valid = record {
  reader = 3;
  released = 3;
  cached = 3;
  power = of_four;
  bounded = omega arith;
  masks = refl;
  mirrored = refl;
  reader_at = refl;
  released_at = refl;
  cached_at = refl;
  seen_at = refl;
  published_at = refl;
  writer_at = refl;
  cached_le = omega arith;
  released_le = omega arith;
  within = omega arith;
  placed = (refl, tt);
  sized = (omega arith, tt);
}

-- Two bytes more do not fit.
write-IsValid_example : Writes published_valid (1 ∷ 2 ∷ []) (write (loaded 3) (1 ∷ 2 ∷ []))
write-IsValid_example = write-IsValid published_valid (1 ∷ 2 ∷ []) (omega arith)

prepare_read-IsValid_example : Reads (message ∷ []) [] (prepare_read (loaded 3))
prepare_read-IsValid_example = prepare_read-IsValid published_valid

commits-IsValid_example :
    IsValid (commit_write (loaded 6)) (message ∷ []) [] []
    × IsValid (commit_read (loaded 6)) (message ∷ []) [] []
    × IsValid (finish_read (loaded 6) 3) [] [] []
    × (finish_and_commit_write (loaded 6) 1 ≡ commit_write (finish_write (loaded 6) 1))
commits-IsValid_example = commits-IsValid message 1 seen_valid

drained-write_example : (write (commit_read (fresh_queue five_percent 4)) message).1 ≡ true
drained-write_example =
    drained-write (fresh-IsValid five_percent 4 of_four (omega arith)) message (omega arith)
      (omega arith)

-- Messages of three bytes, as a statement without arguments has them, on a small scale.
abbrev of_three : Framing
of_three = record {
  IsMessage = λ m. length m ≡ 3;
  bytes_read = λ _ _. 3;
  some_bytes = λ m three. omega (arith, three);
  reads_all = λ _ _ m three _. sym three;
}

-- The second message is refused once, and written when the bytes of the first are given back.
abbrev operations : List Op
operations =
    write_message message
    ∷ commit_messages
    ∷ write_message (1 ∷ 2 ∷ 3 ∷ [])
    ∷ refuse_message
    ∷ read_message
    ∷ give_back
    ∷ write_message (4 ∷ 5 ∷ 6 ∷ [])
    ∷ []

after_all-IsFifo_example :
    (q : Queue) × (make five_percent 4 ≡ value q)
    × IsFifo of_three (after_all of_three (start q) operations)
after_all-IsFifo_example =
    after_all-IsFifo of_three five_percent 4 operations (omega arith)
      (refl ⨾ tt ⨾ refl ⨾ tt ⨾ tt ⨾ tt ⨾ refl ⨾ tt)
