-- ===== src/Quill/Spsc/Kept.antt =====
-- Every operation of the two threads keeps the order of the messages, and what the queue holds of them.
use Prim.Native.Nat.{ℕ}
use mathlib.Core.Bool.{true≢false}
use mathlib.Core.Path.{subst}
use logger_benchmarks.Prelude.{
  Bool, true, false, Bytes, Option, some, none, List, [], ◌∷◌, ◌++◌, length, ◌≡◌, refl, sym, ap,
  ◌∙◌, All, inl, inr, append_assoc, append-nil, All-append,
}
use logger_benchmarks.Quill.Spsc.Slots.{slice}
use logger_benchmarks.Quill.Spsc.Defs.{Queue, prepare_read, finish_read}
use logger_benchmarks.Quill.Spsc.Invariant.{IsValid}
use logger_benchmarks.Quill.Spsc.Producer.{write, Writes, write-IsValid, commit_write-IsValid}
use logger_benchmarks.Quill.Spsc.Consumer.{
  Reads, prepare_read-IsValid, commit_read-IsValid, finish_read-IsValid,
}
use logger_benchmarks.Quill.Spsc.Runs.{
  Framing, Op, write_message, commit_messages, read_message, refuse_message, give_back, Run,
  list_of, wrote, received, first_of, taken, read_next, after, Logs,
}

abbrev rest_of : List Bytes → List Bytes
rest_of [] = []
rest_of (m ∷ ms) = ms

first-rest : (ms : List Bytes) → ms ≡ list_of (first_of ms) ++ rest_of ms
first-rest [] = refl
first-rest (m ∷ ms) = refl

module _ (framing : Framing) where
  open framing use {IsMessage, bytes_read}

  -- The invariant of a run: the queue holds what is committed and not delivered, and then what is
  -- accepted and not committed.
  pub record IsRun (r : Run) : Type 0 where
    pub seen : List Bytes
    pub published : List Bytes
    pub pending : List Bytes
    pub valid : IsValid r.queue seen published pending
    pub accepts : r.accepted ≡ r.committed ++ pending
    pub delivers : r.committed ≡ r.delivered ++ (seen ++ published)
    pub unread : All IsMessage (seen ++ published)
    pub unsent : All IsMessage pending

  abbrev pub NextRead : (unread pending : List Bytes) → Queue × Option Bytes → Type 0
  NextRead unread pending (q, got) =
      (got ≡ first_of unread)
      × (seen : List Bytes) × (published : List Bytes) × (seen ++ published ≡ rest_of unread)
      × IsValid q seen published pending

  taken-NextRead :
      {unread pending : List Bytes}
      → All IsMessage unread
      → (r : Queue × Option ℕ) → Reads unread pending r
      → NextRead unread pending (taken framing r)
  taken-NextRead {unread = unread} {pending = pending} messages (q, at) (inl (e, empty, v)) =
      subst (λ a. NextRead unread pending (taken framing (q, a))) (sym e)
        (subst (λ l. NextRead l pending (q, none)) (sym empty) (refl, [], [], refl, v))
  taken-NextRead {unread = unread} {pending = pending} messages (q, at)
        (inr (m, ms, later, off, e, piece, same, v)) =
      let (is, more) = subst (All IsMessage) (sym same) messages in
      let all : bytes_read q.storage off ≡ length m = framing.reads_all q.storage off m is piece in
      subst (λ a. NextRead unread pending (taken framing (q, a))) (sym e)
        (subst (λ l. NextRead l pending (taken framing (q, some off))) same
          (subst
            (λ n.
              NextRead ((m ∷ ms) ++ later) pending (finish_read q n, some (slice q.storage off n)))
            (sym all) (ap some piece, ms, later, refl, finish_read-IsValid m ms v)))

  pub read_next-NextRead :
      {q : Queue} {seen published pending : List Bytes}
      → IsValid q seen published pending
      → All IsMessage (seen ++ published)
      → NextRead (seen ++ published) pending (read_next framing q)
  unfolding read_next
  read_next-NextRead {q = q} v messages =
      taken-NextRead messages (prepare_read q) (prepare_read-IsValid v)

  wrote-IsRun :
      (r : Run) (h : IsRun r) (m : Bytes) (p : Queue × Bool)
      → IsMessage m
      → Writes h.valid m p
      → IsRun (wrote m r p)
  wrote-IsRun r h m (q, true) is (inl (written, v)) = record {
    seen = h.seen;
    published = h.published;
    pending = h.pending ++ m ∷ [];
    valid = v;
    accepts = ap (λ l. l ++ m ∷ []) h.accepts ∙ append_assoc r.committed h.pending (m ∷ []);
    delivers = h.delivers;
    unread = h.unread;
    unsent = All-append IsMessage h.pending (m ∷ []) h.unsent (is, tt);
  }
  wrote-IsRun r h m (q, false) is (inl (written, v)) = absurd (true≢false (sym written))
  wrote-IsRun r h m (q, true) is (inr (refused, v, full)) = absurd (true≢false refused)
  wrote-IsRun r h m (q, false) is (inr (refused, v, full)) = record {
    seen = h.seen;
    published = h.published;
    pending = h.pending;
    valid = v;
    accepts = h.accepts;
    delivers = h.delivers;
    unread = h.unread;
    unsent = h.unsent;
  }

  received-IsRun :
      (r : Run) (h : IsRun r) (p : Queue × Option Bytes)
      → NextRead (h.seen ++ h.published) h.pending p
      → IsRun (received r p)
  received-IsRun r h (q, got) (e, seen, published, rest, v) =
      let split : h.seen ++ h.published ≡ list_of got ++ (seen ++ published) =
        first-rest (h.seen ++ h.published)
        ∙ ap (λ l. list_of l ++ rest_of (h.seen ++ h.published)) (sym e)
        ∙ ap (λ l. list_of got ++ l) (sym rest) in
      record {
        seen = seen;
        published = published;
        pending = h.pending;
        valid = v;
        accepts = h.accepts;
        delivers =
            h.delivers
            ∙ ap (λ l. r.delivered ++ l) split
            ∙ sym (append_assoc r.delivered (list_of got) (seen ++ published));
        unread = subst (All IsMessage) (sym rest) (All-rest (h.seen ++ h.published) h.unread);
        unsent = h.unsent;
      }
    where
      All-rest : (ms : List Bytes) → All IsMessage ms → All IsMessage (rest_of ms)
      All-rest [] all = tt
      All-rest (m ∷ ms) (is, all) = all

  refused-IsRun :
      (r : Run) (h : IsRun r) (p : Queue × Option ℕ)
      → Reads (h.seen ++ h.published) h.pending p
      → IsRun (record r { queue = p.0 })
  refused-IsRun r h (q, at) (inl (e, empty, v)) = record {
    seen = [];
    published = [];
    pending = h.pending;
    valid = v;
    accepts = h.accepts;
    delivers = h.delivers ∙ ap (λ l. r.delivered ++ l) empty;
    unread = tt;
    unsent = h.unsent;
  }
  refused-IsRun r h (q, at) (inr (m, ms, later, off, e, piece, same, v)) = record {
    seen = m ∷ ms;
    published = later;
    pending = h.pending;
    valid = v;
    accepts = h.accepts;
    delivers = h.delivers ∙ ap (λ l. r.delivered ++ l) (sym same);
    unread = subst (All IsMessage) (sym same) h.unread;
    unsent = h.unsent;
  }

  pub after-IsRun : (r : Run) (op : Op) → IsRun r → Logs framing op → IsRun (after framing r op)
  unfolding after
  after-IsRun r (write_message m) h is =
      wrote-IsRun r h m (write r.queue m) is (write-IsValid h.valid m (framing.some_bytes m is))
  after-IsRun r commit_messages h is = record {
    seen = h.seen;
    published = h.published ++ h.pending;
    pending = [];
    valid = commit_write-IsValid h.valid;
    accepts = sym (append-nil r.accepted);
    delivers =
        h.accepts
        ∙ ap (λ l. l ++ h.pending) h.delivers
        ∙ append_assoc r.delivered (h.seen ++ h.published) h.pending
        ∙ ap (λ l. r.delivered ++ l) (append_assoc h.seen h.published h.pending);
    unread =
        subst (All IsMessage) (append_assoc h.seen h.published h.pending)
          (All-append IsMessage (h.seen ++ h.published) h.pending h.unread h.unsent);
    unsent = tt;
  }
  after-IsRun r read_message h is =
      received-IsRun r h (read_next framing r.queue) (read_next-NextRead h.valid h.unread)
  after-IsRun r refuse_message h is =
      refused-IsRun r h (prepare_read r.queue) (prepare_read-IsValid h.valid)
  after-IsRun r give_back h is = record {
    seen = h.seen;
    published = h.published;
    pending = h.pending;
    valid = commit_read-IsValid h.valid;
    accepts = h.accepts;
    delivers = h.delivers;
    unread = h.unread;
    unsent = h.unsent;
  }
