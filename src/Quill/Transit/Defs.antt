-- ===== src/Quill/Transit/Defs.antt =====
-- The state and the operations of quill/include/quill/backend/TransitEventBuffer.h. `_mask` is one
-- less than a power of two, so `x & _mask` is a remainder.
use Prim.Native.Nat.{ℕ, zero, suc, ◌+◌, ◌-◌, ◌*◌, ◌%◌, ◌^◌}
use logger_benchmarks.Prelude.{
  Bool, true, false, ◌&&◌, ltb, ◌==◌, if◌then◌else◌, Option, some, none, List, [], ◌∷◌, ◌++◌,
  length, get_or,
}
use logger_benchmarks.Prelude.Ring.{set}
use logger_benchmarks.Quill.Powers.{next_power_of_two}

-- `Event` is `TransitEvent`, and `fresh` a default-constructed one.
pub record Buffer (Event : Type 0) : Type 0 where
  pub initial_capacity : ℕ
  pub mask : ℕ
  pub reader_pos : ℕ
  pub writer_pos : ℕ
  pub shrink_requested : Bool
  pub storage : List Event

module _ {Event : Type 0} (fresh : Event) where
  abbrev pub fresh_events : ℕ → List Event
  fresh_events zero = []
  fresh_events (suc n) = fresh ∷ fresh_events n

  unfoldable pub make : ℕ → Buffer Event
  make capacity =
      let rounded = next_power_of_two capacity in
      record {
        initial_capacity = rounded;
        mask = rounded - 1;
        reader_pos = 0;
        writer_pos = 0;
        shrink_requested = false;
        storage = fresh_events rounded;
      }

  -- `_storage[pos & _mask]`
  abbrev pub slot : Buffer Event → ℕ → ℕ
  slot b pos = pos % (b.mask + 1)

  abbrev pub size : Buffer Event → ℕ
  size b = (2 ^ 64 + b.writer_pos - b.reader_pos) % 2 ^ 64

  abbrev pub capacity : Buffer Event → ℕ
  capacity b = length b.storage

  abbrev pub is_empty : Buffer Event → Bool
  is_empty b = b.reader_pos == b.writer_pos

  -- The buffer that was moved from: a moved-from `std::vector` is empty, and it keeps its
  -- `_initial_capacity`.
  abbrev pub moved_from : Buffer Event → Buffer Event
  moved_from other = record {
    initial_capacity = other.initial_capacity;
    mask = 0;
    reader_pos = 0;
    writer_pos = 0;
    shrink_requested = false;
    storage = [];
  }

  -- the move constructor: the new buffer, and what it leaves of the other
  unfoldable pub move_construct : Buffer Event → Buffer Event × Buffer Event
  move_construct other = (other, moved_from other)

  -- the move assignment, likewise; `itself` is the test `this == &other`
  unfoldable pub move_assign :
      (itself : Bool) → Buffer Event → Buffer Event → Buffer Event × Buffer Event
  move_assign itself b other = if itself then (b, other) else (other, moved_from other)

  -- the event that `front()` points to
  unfoldable pub front : Buffer Event → Option Event
  front b = if is_empty b then none else some (get_or b.storage (slot b b.reader_pos) fresh)

  unfoldable pub pop_front : Buffer Event → Buffer Event
  pop_front b = record b { reader_pos = (b.reader_pos + 1) % 2 ^ 64 }

  -- the first loop of `_expand`
  unfoldable pub moved : Buffer Event → ℕ → ℕ → List Event
  moved b i zero = []
  moved b i (suc n) =
      get_or b.storage (slot b ((b.reader_pos + i) % 2 ^ 64)) fresh ∷ moved b (i + 1) n

  -- the loop that moves the events back
  unfoldable pub move_back : Buffer Event → ℕ → List Event → List Event → List Event
  move_back b i [] storage = storage
  move_back b i (e ∷ new_storage) storage =
      move_back b (i + 1) new_storage (set storage (slot b ((b.reader_pos + i) % 2 ^ 64)) e)

  -- What a move leaves behind is not read; `left` stands for it.
  unfoldable pub move_out : (left : Event) → Buffer Event → ℕ → ℕ → List Event → List Event
  move_out left b i zero storage = storage
  move_out left b i (suc n) storage =
      move_out left b (i + 1) n (set storage (slot b ((b.reader_pos + i) % 2 ^ 64)) left)

  -- `allocated` tells whether `resize` got its memory; `false` is the throw, beside the buffer that
  -- it leaves.
  unfoldable pub expand : (left : Event) → (allocated : Bool) → Buffer Event → Buffer Event × Bool
  expand left allocated b =
      let new_capacity = (capacity b * 2) % 2 ^ 64 in
      let current_size = size b in
      let new_storage = moved b 0 current_size in
      if allocated
      then (
        record b {
          storage = new_storage ++ fresh_events (new_capacity - current_size);
          mask = new_capacity - 1;
          writer_pos = current_size;
          reader_pos = 0;
        },
        true,
      )
      else (
        record b { storage = move_back b 0 new_storage (move_out left b 0 current_size b.storage) },
        false,
      )

  abbrev pub back_expanded : Buffer Event × Bool → Buffer Event × Option ℕ
  back_expanded (b, expanded) = (b, if expanded then some (slot b b.writer_pos) else none)

  -- the slot that `back()` points to, or `none` when it throws
  unfoldable pub back : (left : Event) → (allocated : Bool) → Buffer Event → Buffer Event × Option ℕ
  back left allocated b =
      if capacity b == size b
      then back_expanded (expand left allocated b)
      else (b, some (slot b b.writer_pos))

  unfoldable pub push_back : Buffer Event → Buffer Event
  push_back b = record b { writer_pos = (b.writer_pos + 1) % 2 ^ 64 }

  -- what the backend does with the slot between `back` and `push_back`
  unfoldable pub fill : ℕ → Event → Buffer Event → Buffer Event
  fill i e b = record b { storage = set b.storage i e }

  abbrev pub put_at : Event → Buffer Event × Option ℕ → Buffer Event × Bool
  put_at e (b, some i) = (push_back (fill i e b), true)
  put_at e (b, none) = (b, false)

  -- the backend's use of `back` and `push_back`, with whether the event got its place
  unfoldable pub put :
      (left : Event) → (allocated : Bool) → Event → Buffer Event → Buffer Event × Bool
  put left allocated e b = put_at e (back left allocated b)

  unfoldable pub request_shrink : Buffer Event → Buffer Event
  request_shrink b = record b { shrink_requested = true }

  unfoldable pub try_shrink : Buffer Event → Buffer Event
  try_shrink b =
      if b.shrink_requested && is_empty b
      then (if ltb b.initial_capacity (capacity b)
          then record b {
            storage = fresh_events b.initial_capacity;
            mask = b.initial_capacity - 1;
            writer_pos = 0;
            reader_pos = 0;
            shrink_requested = false;
          }
          else record b { shrink_requested = false })
      else b
