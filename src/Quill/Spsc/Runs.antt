-- ===== src/Quill/Spsc/Runs.antt =====
-- Whole runs of a queue: a logging thread writes and commits messages, the backend reads them and
-- gives their bytes back, in any order of their operations.
use Prim.Native.Nat.{ℕ, ◌<◌}
use logger_benchmarks.Prelude.{
  Bool, true, false, Bytes, Option, some, none, List, [], ◌∷◌, ◌++◌, length, ◌≡◌,
}
use logger_benchmarks.Quill.Spsc.Slots.{slice}
use logger_benchmarks.Quill.Spsc.Defs.{Queue, prepare_read, finish_read, commit_read, commit_write}
use logger_benchmarks.Quill.Spsc.Producer.{write}

-- How the backend finds the end of a message: decoding one, from its first byte on, reads as many
-- bytes as it has.
pub record Framing : Type 1 where
  pub IsMessage : Bytes → Type 0
  pub bytes_read : Bytes → ℕ → ℕ
  pub some_bytes : (m : Bytes) → IsMessage m → 0 < length m
  pub reads_all :
      (xs : Bytes) (off : ℕ) (m : Bytes)
      → IsMessage m
      → slice xs off (length m) ≡ m
      → bytes_read xs off ≡ length m

-- The operations of the two threads. `refuse_message` is a round of the backend's loop in which the
-- message is not decoded, for the lack of memory or for its timestamp, and stays in the queue.
pub data Op : Type 0 where
  write_message : Bytes → Op
  commit_messages : Op
  read_message : Op
  refuse_message : Op
  give_back : Op

-- The queue with what became of the messages so far: those for which there was room, those that were
-- committed, and those that the backend got.
pub record Run : Type 0 where
  pub queue : Queue
  pub accepted : List Bytes
  pub committed : List Bytes
  pub delivered : List Bytes

abbrev pub list_of : Option Bytes → List Bytes
list_of none = []
list_of (some m) = m ∷ []

abbrev pub wrote : Bytes → Run → Queue × Bool → Run
wrote m r (q, true) = record r { queue = q; accepted = r.accepted ++ m ∷ [] }
wrote m r (q, false) = record r { queue = q }

abbrev pub received : Run → Queue × Option Bytes → Run
received r (q, got) = record r { queue = q; delivered = r.delivered ++ list_of got }

abbrev pub first_of : List Bytes → Option Bytes
first_of [] = none
first_of (m ∷ ms) = some m

abbrev pub start : Queue → Run
start q = record { queue = q; accepted = []; committed = []; delivered = [] }

module _ (framing : Framing) where
  open framing use {IsMessage, bytes_read}

  abbrev pub taken : Queue × Option ℕ → Queue × Option Bytes
  taken (q, none) = (q, none)
  taken (q, some off) =
      let n = bytes_read q.storage off in (finish_read q n, some (slice q.storage off n))

  -- a round of the backend's loop over the queue, in which it decodes the message that it is given
  unfoldable pub read_next : Queue → Queue × Option Bytes
  read_next q = taken (prepare_read q)

  unfoldable pub after : Run → Op → Run
  after r (write_message m) = wrote m r (write r.queue m)
  after r commit_messages = record r { queue = commit_write r.queue; committed = r.accepted }
  after r read_message = received r (read_next r.queue)
  after r refuse_message = record r { queue = (prepare_read r.queue).0 }
  after r give_back = record r { queue = commit_read r.queue }

  unfoldable pub after_all : Run → List Op → Run
  after_all r [] = r
  after_all r (op ∷ ops) = after_all (after r op) ops

  abbrev pub Logs : Op → Type 0
  Logs (write_message m) = IsMessage m
  Logs commit_messages = Unit
  Logs read_message = Unit
  Logs refuse_message = Unit
  Logs give_back = Unit

  -- What the backend got is the first of what was committed, and this the first of what was accepted;
  -- the next read gives the first committed message that the backend has not got.
  abbrev pub IsFifo : Run → Type 0
  IsFifo r =
      (undelivered : List Bytes) × (uncommitted : List Bytes) × (r.committed
        ≡ r.delivered ++ undelivered)
      × (r.accepted ≡ r.committed ++ uncommitted)
      × ((read_next r.queue).1 ≡ first_of undelivered)
