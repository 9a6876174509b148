-- ===== src/Quill/SizeCache/Defs.antt =====
-- The state and the operations of quill/include/quill/core/InlinedVector.h. A read of the member of
-- the union that is not the active one is `none`, as is a throw.
use Prim.Native.Nat.{ℕ, zero, suc, ◌+◌, ◌-◌, ◌*◌, ◌/◌, ◌^◌}
use logger_benchmarks.Prelude.{
  Bool, true, false, ltb, leb, ◌==◌, if◌then◌else◌, Option, some, none, List, [], ◌∷◌, ◌++◌,
  get_elem?, ◌>>=◌,
}
use logger_benchmarks.Prelude.Slices.{take}
use logger_benchmarks.Prelude.Ring.{set}

pub data Storage (Value : Type 0) : Type 0 where
  inline_buffer : List Value → Storage Value
  heap_buffer : List Value → Storage Value

pub record InlinedVector (Value : Type 0) : Type 0 where
  pub storage : Storage Value
  pub size : ℕ
  pub capacity : ℕ

abbrev pub active_member : {Value : Type 0} → Bool → Storage Value → Option (List Value)
active_member true (inline_buffer xs) = some xs
active_member true (heap_buffer xs) = none
active_member false (inline_buffer xs) = none
active_member false (heap_buffer xs) = some xs

-- `N` is a template argument; `zeroed` is `value_type{}`, and what `new value_type[n]` holds before
-- it is written, which is not read.
module _ {Value : Type 0} (N : ℕ) (zeroed : Value) where
  abbrev pub values : ℕ → List Value
  values zero = []
  values (suc n) = zeroed ∷ values n

  unfoldable pub make : InlinedVector Value
  make = record { storage = inline_buffer (values N); size = 0; capacity = N }

  -- the member of the union that the test `_capacity == N` picks
  unfoldable pub buffer : InlinedVector Value → Option (List Value)
  buffer v = active_member (v.capacity == N) v.storage

  -- a write to that member
  unfoldable pub with_buffer : InlinedVector Value → List Value → InlinedVector Value
  with_buffer v xs = record v {
    storage = if v.capacity == N then inline_buffer xs else heap_buffer xs;
  }

  -- the copy to `new_data`, which becomes the heap buffer
  unfoldable pub move_to_heap : InlinedVector Value → ℕ → Option (InlinedVector Value)
  move_to_heap v new_capacity = buffer v >>= λ xs. some (record v {
    storage = heap_buffer (take v.size xs ++ values (new_capacity - v.size));
    capacity = new_capacity;
  })

  unfoldable pub reserve : InlinedVector Value → ℕ → Option (InlinedVector Value)
  reserve v new_capacity =
      if leb new_capacity v.capacity then some v else move_to_heap v new_capacity

  -- the part of `push_back` that makes room
  unfoldable pub make_room : InlinedVector Value → Option (InlinedVector Value)
  make_room v =
      if v.size == v.capacity
      then (if ltb ((2 ^ 64 - 1) / 2) v.capacity then none else move_to_heap v (v.capacity * 2))
      else some v

  -- It returns the value as well.
  unfoldable pub push_back : InlinedVector Value → Value → Option (InlinedVector Value × Value)
  push_back v value = make_room v >>= λ w. buffer w >>= λ xs.
      some (record (with_buffer w (set xs w.size value)) { size = w.size + 1 }, value)

  unfoldable pub at : InlinedVector Value → ℕ → Option Value
  at v index = if leb v.size index then none else (buffer v >>= λ xs. get_elem? xs index)

  unfoldable pub assign : InlinedVector Value → ℕ → Value → Option (InlinedVector Value)
  assign v index value =
      if leb v.size index
      then none
      else (buffer v >>= λ xs. some (with_buffer v (set xs index value)))

  unfoldable pub clear : InlinedVector Value → InlinedVector Value
  clear v = record v { size = 0 }
