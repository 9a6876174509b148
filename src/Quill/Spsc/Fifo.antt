-- ===== src/Quill/Spsc/Fifo.antt =====
-- In a run of the queue, in whatever order the operations of the two threads come, the backend gets
-- the messages whole and in the order they were written.
use Prim.Native.Nat.{ℕ, ◌^◌, ◌≤◌}
use logger_benchmarks.Prelude.{List, [], ◌∷◌, ◌++◌, ◌≡◌, refl, arith, All, inl, inr}
use logger_benchmarks.Quill.Errors.{value}
use logger_benchmarks.Quill.Spsc.Defs.{Queue, make}
use logger_benchmarks.Quill.Spsc.Invariant.{IsValid, make-IsValid}
use logger_benchmarks.Quill.Spsc.Runs.{Framing, Op, Run, after, after_all, start, Logs, IsFifo}
use logger_benchmarks.Quill.Spsc.Kept.{IsRun, read_next-NextRead, after-IsRun}

module _ (framing : Framing) where
  after_all-IsRun :
      (r : Run) (ops : List Op)
      → IsRun framing r
      → All (Logs framing) ops
      → IsRun framing (after_all framing r ops)
  unfolding after_all
  after_all-IsRun r [] h logs = h
  after_all-IsRun r (op ∷ ops) h (log, logs) =
      after_all-IsRun (after framing r op) ops (after-IsRun framing r op h log) logs

  start-IsRun : (q : Queue) → IsValid q [] [] [] → IsRun framing (start q)
  start-IsRun q v = record {
    seen = [];
    published = [];
    pending = [];
    valid = v;
    accepts = refl;
    delivers = refl;
    unread = tt;
    unsent = tt;
  }

  -- A queue of a capacity of at most 2^62 can be made, and after any sequence of writes, commits of
  -- writes, reads, reads that leave the message, and commits of reads that starts from it, for
  -- messages of at least one byte whose decoding reads as many bytes as they have: the messages
  -- delivered are the first of those committed, which are the first of those accepted, whole and in
  -- order; and the next read gives the first committed message that was not delivered, or nothing
  -- if there is none.
  pub after_all-IsFifo :
      (batch : ℕ → ℕ) (capacity : ℕ) (ops : List Op)
      → capacity ≤ 2 ^ 62
      → All (Logs framing) ops
      → (q : Queue) × (make batch capacity ≡ value q)
        × IsFifo framing (after_all framing (start q) ops)
  after_all-IsFifo batch capacity ops small logs = elim (make-IsValid batch capacity) [
    | inr (large, refused) ↦ absurd (omega arith)
    | inl (le, q, made, v, rest, whole) ↦
        let h = after_all-IsRun (start q) ops (start-IsRun q v) logs in
        let next = (read_next-NextRead framing h.valid h.unread).0 in
        (q, made, (h.seen ++ h.published, h.pending, h.delivers, h.accepts, next))
  ]
