-- ===== src/Quill/Spsc/Consumer.antt =====
-- The reader's side of the queue: it gets the messages whole and in order, and gives their bytes
-- back to the writer.
use Prim.Native.Nat.{ℕ, ◌+◌, ◌%◌, ◌^◌}
use mathlib.Core.Path.{subst}
use logger_benchmarks.Prelude.{
  true, false, leb, ◌||◌, ◌==◌, Bytes, Option, some, none, List, [], ◌∷◌, ◌++◌, length, ◌≡◌, refl,
  sym, ap, ◌∙◌, arith, All, inl, inr, ◌⊎◌, if_cases, append_assoc, append-nil, Bool-cases,
}
use logger_benchmarks.Quill.Powers.{wrap_mod}
use logger_benchmarks.Quill.Spsc.Slots.{slice}
use logger_benchmarks.Quill.Spsc.Defs.{
  Queue, offset, is_empty, prepare_read, finish_read, commit_read, sub_pos, commit_write,
  finish_write, finish_and_commit_write, finish_and_commit_write_reservation,
}
use logger_benchmarks.Quill.Spsc.Invariant.{IsValid, total, Placed, SomeBytes}
use logger_benchmarks.Quill.Spsc.Producer.{commit_write-IsValid}

no_bytes : (ms ns : List Bytes) → All SomeBytes (ms ++ ns) → total ms ≡ 0 → ms ≡ []
no_bytes [] ns sized none_there = refl
no_bytes (m ∷ ms) ns (some_bytes, sized) none_there = absurd (omega arith)

module _ {q : Queue} {published pending : List Bytes} where
  -- A load of the writer's position when all that was seen is read.
  refill-IsValid :
      IsValid q [] published pending
      → IsValid (record q { writer_pos_cache = q.atomic_writer_pos }) published [] pending
  refill-IsValid v = record {
    reader = v.reader;
    released = v.released;
    cached = v.cached;
    power = v.power;
    bounded = v.bounded;
    masks = v.masks;
    mirrored = v.mirrored;
    reader_at = v.reader_at;
    released_at = v.released_at;
    cached_at = v.cached_at;
    seen_at = omega (arith, v.published_at);
    published_at = omega (arith, v.published_at);
    writer_at = omega (arith, v.writer_at);
    cached_le = v.cached_le;
    released_le = v.released_le;
    within = omega (arith, v.within);
    placed =
        subst (λ l. Placed q.storage q.capacity v.reader (l ++ pending))
          (sym (append-nil published)) v.placed;
    sized = subst (λ l. All SomeBytes (l ++ pending)) (sym (append-nil published)) v.sized;
  }

  pub finish_read-IsValid :
      (m : Bytes) (seen : List Bytes)
      → IsValid q (m ∷ seen) published pending
      → IsValid (finish_read q (length m)) seen published pending
  unfolding finish_read
  finish_read-IsValid m seen v = record {
    reader = v.reader + length m;
    released = v.released;
    cached = v.cached;
    power = v.power;
    bounded = v.bounded;
    masks = v.masks;
    mirrored = v.mirrored;
    reader_at = omega (arith, v.reader_at);
    released_at = v.released_at;
    cached_at = v.cached_at;
    seen_at = v.seen_at ∙ ap (λ k. k % 2 ^ 64) (omega arith);
    published_at = omega (arith, v.published_at);
    writer_at = omega (arith, v.writer_at);
    cached_le = v.cached_le;
    released_le = omega (arith, v.released_le);
    within = omega (arith, v.within);
    placed = v.placed.1;
    sized = v.sized.1;
  }

module _ {q : Queue} {seen published pending : List Bytes} where
  -- The reader's two positions meet exactly when nothing is left that it has seen.
  seen-nothing :
      (v : IsValid q seen published pending)
      → (q.writer_pos_cache == q.reader_pos) ≡ true
      → seen ≡ []
  seen-nothing v met =
      let same : q.writer_pos_cache ≡ q.reader_pos = ground arith in
      no_bytes seen (published ++ pending)
        (subst (All SomeBytes) (append_assoc seen published pending) v.sized)
        (omega
          (arith, same, v.seen_at, v.reader_at, v.within, v.cached_le, v.released_le, v.bounded))

  pub commit_read-IsValid :
      IsValid q seen published pending → IsValid (commit_read q) seen published pending
  unfolding commit_read
  commit_read-IsValid v =
      if_cases (λ r. IsValid r seen published pending)
        (leb q.bytes_per_batch (sub_pos q.reader_pos q.atomic_reader_pos)
          || (q.writer_pos_cache == q.reader_pos))
        _ q
        (λ _. record {
          reader = v.reader;
          released = v.reader;
          cached = v.cached;
          power = v.power;
          bounded = v.bounded;
          masks = v.masks;
          mirrored = v.mirrored;
          reader_at = v.reader_at;
          released_at = v.reader_at;
          cached_at = v.cached_at;
          seen_at = v.seen_at;
          published_at = v.published_at;
          writer_at = v.writer_at;
          cached_le = omega (arith, v.cached_le, v.released_le);
          released_le = omega arith;
          within = v.within;
          placed = v.placed;
          sized = v.sized;
        })
        (λ _. v)

seen-some :
    {q : Queue} (seen : List Bytes) {published pending : List Bytes}
    → IsValid q seen published pending
    → (q.writer_pos_cache == q.reader_pos) ≡ false
    → (m : Bytes) × (ms : List Bytes) × (seen ≡ m ∷ ms)
seen-some {q = q} [] v apart =
    let same : q.writer_pos_cache ≡ q.reader_pos = omega (arith, v.seen_at, v.reader_at) in
    absurd (ground arith)
seen-some (m ∷ ms) v apart = (m, ms, refl)

-- Where the reader is, there is the first message, in one piece.
first_message :
    {q : Queue} {m : Bytes} {ms published pending : List Bytes}
    → IsValid q (m ∷ ms) published pending
    → slice q.storage (offset q q.reader_pos) (length m) ≡ m
first_message {q = q} {m = m} v =
    ap (λ k. slice q.storage k (length m))
      (ap (λ c. q.reader_pos % c) v.masks
        ∙ ap (λ r. r % q.capacity) v.reader_at
        ∙ wrap_mod q.capacity v.reader v.power)
    ∙ v.placed.0

-- What the reader is given: nothing, and then no message is committed that it has not read, or the
-- place of the first message. `unread` are the committed ones.
abbrev pub Reads : (unread pending : List Bytes) → Queue × Option ℕ → Type 0
Reads unread pending (q', at) =
    ((at ≡ none) × (unread ≡ []) × IsValid q' [] [] pending)
    ⊎ ((m : Bytes) × (ms : List Bytes) × (later : List Bytes) × (off : ℕ) × (at ≡ some off)
        × (slice q'.storage off (length m) ≡ m)
        × ((m ∷ ms) ++ later ≡ unread)
        × IsValid q' (m ∷ ms) later pending)

oldest_first :
    {q : Queue} (seen : List Bytes) {published pending : List Bytes}
    → IsValid q seen published pending
    → (q.writer_pos_cache == q.reader_pos) ≡ false
    → Reads (seen ++ published) pending (q, some (offset q q.reader_pos))
oldest_first {q = q} seen {published = published} {pending = pending} v apart =
    let (m, ms, is) = seen-some seen v apart in
    let v' = subst (λ l. IsValid q l published pending) is v in
    inr (
      m,
      ms,
      published,
      offset q q.reader_pos,
      refl,
      first_message v',
      ap (λ l. l ++ published) (sym is),
      v',
    )

module _ {q : Queue} {seen published pending : List Bytes} where
  -- In a valid state of the bounded queue, prepare_read gives nothing exactly if no committed
  -- message is left unread, and else a place at which the oldest unread message stands in one
  -- piece; the state is valid afterwards, with the same messages unread and pending.
  pub prepare_read-IsValid :
      IsValid q seen published pending → Reads (seen ++ published) pending (prepare_read q)
  unfolding prepare_read is_empty
  prepare_read-IsValid v = elim (Bool-cases (q.writer_pos_cache == q.reader_pos)) [
    | inr apart ↦ rw apart (oldest_first seen v apart)
    | inl met ↦
        let q' : Queue = record q { writer_pos_cache = q.atomic_writer_pos } in
        let none_seen = seen-nothing v met in
        let v' : IsValid q' published [] pending =
          refill-IsValid (subst (λ l. IsValid q l published pending) none_seen v) in
        let same : published ++ [] ≡ seen ++ published =
          append-nil published ∙ ap (λ l. l ++ published) (sym none_seen) in
        elim (Bool-cases (q.atomic_writer_pos == q.reader_pos)) [
          | inl drained ↦
              let none_published = seen-nothing v' drained in
              rw (met, drained)
                (inl (
                  refl,
                  sym same ∙ append-nil published ∙ none_published,
                  subst (λ l. IsValid q' l [] pending) none_published v',
                ))
          | inr more ↦
              rw (met, more)
                (subst (λ l. Reads l pending (q', some (offset q' q'.reader_pos))) same
                  (oldest_first published v' more))
        ]
  ]

module _ {q : Queue} {seen published pending : List Bytes} where
  -- In a valid state of the bounded queue with a message that the reader has seen: commit_write
  -- makes the pending messages available, commit_read keeps the messages, finish_read by the length
  -- of the oldest message removes it, each with a valid state; and finish_and_commit_write is
  -- finish_write followed by commit_write.
  pub commits-IsValid :
      (m : Bytes) (n : ℕ)
      → IsValid q (m ∷ seen) published pending
      → IsValid (commit_write q) (m ∷ seen) (published ++ pending) []
        × IsValid (commit_read q) (m ∷ seen) published pending
        × IsValid (finish_read q (length m)) seen published pending
        × (finish_and_commit_write q n ≡ commit_write (finish_write q n))
  unfolding finish_and_commit_write finish_and_commit_write_reservation commit_write finish_write
  commits-IsValid m n v =
      (commit_write-IsValid v, commit_read-IsValid v, finish_read-IsValid m seen v, refl)
