-- ===== src/Quill/Backtrace/Defs.antt =====
-- The state and the operations of quill/include/quill/backend/BacktraceStorage.h. An `Event` is a `StoredTransitEvent`, the event
-- with the thread's id and name.
use Prim.Native.Nat.{ℕ, zero, suc, ◌+◌, ◌-◌, ◌≤◌, ◌<◌}
use logger_benchmarks.Prelude.{
  Bool, true, false, ltb, ◌==◌, if◌then◌else◌, List, [], ◌∷◌, ◌++◌, length, get_or, ◌≡◌, ◌⊎◌,
}
use logger_benchmarks.Prelude.Ring.{set}

pub record BacktraceStorage (Event : Type 0) : Type 0 where
  pub capacity : ℕ
  pub index : ℕ
  pub stored_events : List Event

-- an index wraps around behind the last one
abbrev pub step : ℕ → ℕ → ℕ
step last index = if ltb index last then index + 1 else 0

module _ {Event : Type 0} where
  unfoldable pub make : BacktraceStorage Event
  make = record { capacity = 0; index = 0; stored_events = [] }

  unfoldable pub store : BacktraceStorage Event → Event → BacktraceStorage Event
  store b e =
      if b.capacity == 0
      then b
      else if ltb (length b.stored_events) b.capacity
      then record b { stored_events = b.stored_events ++ e ∷ [] }
      else record b {
        stored_events = set b.stored_events b.index e;
        index = step (b.capacity - 1) b.index;
      }

  abbrev pub cleared : BacktraceStorage Event → BacktraceStorage Event
  cleared b = record b { stored_events = []; index = 0 }

  unfoldable pub set_capacity : BacktraceStorage Event → ℕ → BacktraceStorage Event
  set_capacity b capacity =
      if b.capacity == capacity
      then b
      else record { capacity = capacity; index = 0; stored_events = [] }

  -- The index is 0 until as many events are stored as the capacity, and stays below that.
  abbrev pub IsValid : BacktraceStorage Event → Type 0
  IsValid b =
      ((length b.stored_events ≤ b.capacity) × (b.index ≡ 0))
      ⊎ ((length b.stored_events ≡ b.capacity) × (b.index < b.capacity))

-- `d` stands for an element out of range, which no access of a valid storage reads.
module _ {Event : Type 0} (d : Event) where
  -- The loop, with what the callback got so far; `accepts` is false for an event on which it throws.
  unfoldable pub deliver : (accepts : Event → Bool) → List Event → ℕ → ℕ → List Event × Bool
  deliver accepts events index zero = ([], true)
  deliver accepts events index (suc rounds) =
      let e = get_or events index d in
      let rest = deliver accepts events (step (length events - 1) index) rounds in
      if accepts e then (e ∷ rest.0, rest.1) else (e ∷ [], false)

  -- The events the callback was given, whether it returned from all of them, and the storage, which
  -- is cleared in both cases.
  unfoldable pub process :
      (accepts : Event → Bool) → BacktraceStorage Event → List Event × Bool × BacktraceStorage Event
  process accepts b =
      let (given, returned) = deliver accepts b.stored_events b.index (length b.stored_events) in
      (given, returned, cleared b)
