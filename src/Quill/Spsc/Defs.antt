-- ===== src/Quill/Spsc/Defs.antt =====
-- The state and the operations of quill/include/quill/core/BoundedSPSCQueue.h, for
-- `BoundedSPSCQueue`, whose positions are `size_t`. A pointer into the storage is its offset, and
-- the queue's storage the bytes behind `_storage`. `_mask` is one less than a power of two, so
-- `x & _mask` is a remainder. Every operation reads or writes an atomic position at most once, so an
-- interleaving of the two threads is a sequence of operations.
use Prim.Native.Nat.{ℕ, zero, suc, ◌+◌, ◌-◌, ◌*◌, ◌/◌, ◌%◌, ◌^◌}
use logger_benchmarks.Prelude.{
  Bool, false, ◌||◌, ltb, leb, ◌==◌, if◌then◌else◌, Option, some, none, [], ◌∷◌, Bytes, codes,
}
use logger_benchmarks.Quill.Errors.{Result, value, quill_error}
use logger_benchmarks.Quill.Powers.{next_power_of_two}
use logger_benchmarks.Quill.Spsc.Slots.{write_at}

pub record Queue : Type 0 where
  pub capacity : ℕ
  pub mask : ℕ
  pub bytes_per_batch : ℕ
  pub storage : Bytes
  pub atomic_writer_pos : ℕ
  pub writer_pos : ℕ
  pub reader_pos_cache_plus_capacity : ℕ
  pub atomic_reader_pos : ℕ
  pub reader_pos : ℕ
  pub writer_pos_cache : ℕ

abbrev pub add_pos : ℕ → ℕ → ℕ
add_pos a b = (a + b) % 2 ^ 64

abbrev pub sub_pos : ℕ → ℕ → ℕ
sub_pos a b = (2 ^ 64 + a - b) % 2 ^ 64

-- two words of metadata, and `QUILL_CACHE_LINE_ALIGNED`
abbrev pub metadata_size : ℕ
metadata_size = 2 * 8

abbrev pub cache_line_aligned : ℕ
cache_line_aligned = 2 * 64

abbrev pub max_rounded_capacity : ℕ
max_rounded_capacity = (2 ^ 64 - 1 - metadata_size - cache_line_aligned) / 2

-- No `size_t` is above `SIZE_MAX`, which the first test asks.
unfoldable pub validate_capacity : ℕ → Result ℕ
validate_capacity capacity =
    let rounded_capacity = next_power_of_two capacity in
    if ltb (2 ^ 64 - 1) rounded_capacity
    then quill_error (codes "BoundedSPSCQueue capacity exceeds the queue position type")
    else if ltb max_rounded_capacity rounded_capacity
    then quill_error (codes "BoundedSPSCQueue capacity is too large")
    else value rounded_capacity

-- the length that is asked of `mmap`, with normal pages
unfoldable pub total_size : ℕ → ℕ
total_size capacity = ((2 * capacity) % 2 ^ 64 + metadata_size + cache_line_aligned) % 2 ^ 64

-- and with huge pages
unfoldable pub huge_total_size : ℕ → ℕ
huge_total_size capacity =
    let page = 2 * 1024 * 1024 in
    ((((total_size capacity + page) % 2 ^ 64 - 1) / page) * page) % 2 ^ 64

-- `_align_pointer`, the alignment a power of two, so that the mask drops a remainder
unfoldable pub align_pointer : ℕ → ℕ → ℕ
align_pointer pointer alignment = let up = add_pos pointer (alignment - 1) in up - up % alignment

abbrev pub zeros : ℕ → Bytes
zeros zero = []
zeros (suc n) = 0 ∷ zeros n

-- `batch` is the share of the capacity that `reader_store_percent` is, in double arithmetic.
abbrev pub fresh_queue : (batch : ℕ → ℕ) → ℕ → Queue
fresh_queue batch rounded = record {
  capacity = rounded;
  mask = rounded - 1;
  bytes_per_batch = batch rounded;
  storage = zeros (2 * rounded);
  atomic_writer_pos = 0;
  writer_pos = 0;
  reader_pos_cache_plus_capacity = rounded;
  atomic_reader_pos = 0;
  reader_pos = 0;
  writer_pos_cache = 0;
}

-- the constructor, when the allocation succeeds
unfoldable pub make : (batch : ℕ → ℕ) → ℕ → Result Queue
make batch capacity = elim (validate_capacity capacity) [
  | quill_error message ↦ quill_error message
  | value rounded ↦ value (fresh_queue batch rounded)
]

-- `_storage + (pos & _mask)`
abbrev pub offset : Queue → ℕ → ℕ
offset q pos = pos % (q.mask + 1)

abbrev pub free : Queue → ℕ
free q = sub_pos q.reader_pos_cache_plus_capacity q.writer_pos

abbrev pub load_reader : Queue → Queue
load_reader q = record q { reader_pos_cache_plus_capacity = add_pos q.atomic_reader_pos q.capacity }

unfoldable pub prepare_write : Queue → ℕ → Queue × Option ℕ
prepare_write q n =
    if ltb (free q) n
    then (let q' = load_reader q in
        (q', (if ltb (free q') n then none else some (offset q' q'.writer_pos))))
    else (q, some (offset q q.writer_pos))

-- the buffer of the reservation, and the position it starts at
unfoldable pub prepare_write_reserve_cached : Queue → ℕ → Option ℕ × ℕ
prepare_write_reserve_cached q n =
    if ltb (free q) n then (none, q.writer_pos) else (some (offset q q.writer_pos), q.writer_pos)

unfoldable pub finish_write : Queue → ℕ → Queue
finish_write q n = record q { writer_pos = add_pos q.writer_pos n }

unfoldable pub commit_write : Queue → Queue
commit_write q = record q { atomic_writer_pos = q.writer_pos }

unfoldable pub finish_and_commit_write_reservation : Queue → ℕ → Queue
finish_and_commit_write_reservation q new_writer_pos = record q {
  writer_pos = new_writer_pos;
  atomic_writer_pos = new_writer_pos;
}

unfoldable pub finish_and_commit_write : Queue → ℕ → Queue
finish_and_commit_write q n = finish_and_commit_write_reservation q (add_pos q.writer_pos n)

unfoldable pub is_empty : Queue → Queue × Bool
is_empty q =
    if q.writer_pos_cache == q.reader_pos
    then (let q' = record q { writer_pos_cache = q.atomic_writer_pos } in
        (q', q'.writer_pos_cache == q'.reader_pos))
    else (q, false)

unfoldable pub prepare_read : Queue → Queue × Option ℕ
prepare_read q =
    let (q', nothing) = is_empty q in
    (q', (if nothing then none else some (offset q' q'.reader_pos)))

unfoldable pub finish_read : Queue → ℕ → Queue
finish_read q n = record q { reader_pos = add_pos q.reader_pos n }

unfoldable pub commit_read : Queue → Queue
commit_read q =
    if leb q.bytes_per_batch (sub_pos q.reader_pos q.atomic_reader_pos)
      || (q.writer_pos_cache == q.reader_pos)
    then record q { atomic_reader_pos = q.reader_pos }
    else q

-- what a caller does with the buffer it was given
unfoldable pub copy_to : Queue → ℕ → Bytes → Queue
copy_to q off bs = record q { storage = write_at q.storage off bs }
