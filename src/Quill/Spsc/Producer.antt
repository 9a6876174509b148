-- ===== src/Quill/Spsc/Producer.antt =====
-- The writer's side of the queue: a message is refused only when the bytes that the reader has
-- released do not hold it, and otherwise written in one piece without touching an unread one.
use Prim.Native.Nat.{ℕ, ◌+◌, ◌-◌, ◌%◌, ◌≤◌, ◌<◌}
use mathlib.Core.Path.{subst}
use native.Mathlib.Nat.{mod-lt}
use logger_benchmarks.Prelude.{
  Bool, true, false, ltb, Bytes, Option, some, none, List, [], ◌∷◌, ◌++◌, length, ◌≡◌, refl, sym,
  ap, ◌∙◌, arith, All, All-append, inl, inr, ◌⊎◌, if_cases, append_assoc, append-nil, Bool-cases,
}
use logger_benchmarks.Quill.Powers.{IsPower-pos, wrap_mod}
use logger_benchmarks.Quill.Spsc.Slots.{slice, write_at, length-write_at, slice-written}
use logger_benchmarks.Quill.Spsc.Defs.{
  Queue, free, load_reader, offset, prepare_write, finish_write, commit_write, copy_to,
}
use logger_benchmarks.Quill.Spsc.Invariant.{
  IsValid, total, total-append, Placed, Placed-write_at, Placed-append, SomeBytes,
}

-- What a logging thread does with a message: it asks for the bytes, copies the message there, and
-- moves its position behind it.
abbrev pub write_to : Bytes → Queue × Option ℕ → Queue × Bool
write_to m (q, some off) = (finish_write (copy_to q off m) (length m), true)
write_to m (q, none) = (q, false)

abbrev pub write : Queue → Bytes → Queue × Bool
write q m = write_to m (prepare_write q (length m))

module _ {q : Queue} {seen published pending : List Bytes} where
  abbrev pub end : IsValid q seen published pending → ℕ
  end v = v.reader + (total seen + (total published + total pending))

  free_lem : (v : IsValid q seen published pending) → free q ≡ v.cached + q.capacity - end v
  free_lem v =
      omega (arith, v.cached_at, v.writer_at, v.within, v.bounded, v.cached_le, v.released_le)

  unfoldable load_reader-IsValid :
      IsValid q seen published pending → IsValid (load_reader q) seen published pending
  load_reader-IsValid v = record {
    reader = v.reader;
    released = v.released;
    cached = v.released;
    power = v.power;
    bounded = v.bounded;
    masks = v.masks;
    mirrored = v.mirrored;
    reader_at = v.reader_at;
    released_at = v.released_at;
    cached_at = omega (arith, v.released_at);
    seen_at = v.seen_at;
    published_at = v.published_at;
    writer_at = v.writer_at;
    cached_le = omega arith;
    released_le = v.released_le;
    within = omega (arith, v.within, v.cached_le);
    placed = v.placed;
    sized = v.sized;
  }

  offset_lem : (v : IsValid q seen published pending) → offset q q.writer_pos ≡ end v % q.capacity
  offset_lem v =
      ap (λ c. q.writer_pos % c) v.masks
      ∙ ap (λ w. w % q.capacity) v.writer_at
      ∙ wrap_mod q.capacity (end v) v.power

  written-IsValid :
      (v : IsValid q seen published pending) (m : Bytes)
      → 0 < length m
      → end v + length m ≤ v.cached + q.capacity
      → IsValid
          (finish_write (copy_to q (offset q q.writer_pos) m) (length m))
          seen
          published
          (pending ++ m ∷ [])
  unfolding finish_write copy_to
  written-IsValid v m some_bytes room =
      let c = q.capacity in
      let all = seen ++ published ++ pending in
      let pos : 0 < c = IsPower-pos v.power in
      let at = offset_lem v in
      let sum : total all ≡ total seen + (total published + total pending) =
        omega (arith, total-append (seen ++ published) pending, total-append seen published) in
      let one : total (m ∷ []) ≡ length m = omega arith in
      let more : total (pending ++ m ∷ []) ≡ total pending + length m =
        omega (arith, total-append pending (m ∷ []), one) in
      let regroup : all ++ m ∷ [] ≡ seen ++ published ++ (pending ++ m ∷ []) =
        append_assoc (seen ++ published) pending (m ∷ []) in
      let below : end v % c < c = mod-lt (end v) pos in
      let xs = write_at q.storage (end v % c) m in
      let there : v.reader + total all ≡ end v = omega (arith, sum) in
      let last : slice xs ((v.reader + total all) % c) (length m) ≡ m =
        ap (λ k. slice xs (k % c) (length m)) there
        ∙ slice-written q.storage (end v % c) m
            (omega (arith, v.mirrored, below, room, v.cached_le, v.released_le)) in
      record {
        reader = v.reader;
        released = v.released;
        cached = v.cached;
        power = v.power;
        bounded = v.bounded;
        masks = v.masks;
        mirrored = length-write_at q.storage (offset q q.writer_pos) m ∙ v.mirrored;
        reader_at = v.reader_at;
        released_at = v.released_at;
        cached_at = v.cached_at;
        seen_at = v.seen_at;
        published_at = v.published_at;
        writer_at = omega (arith, v.writer_at, more);
        cached_le = v.cached_le;
        released_le = v.released_le;
        within = omega (arith, more, room);
        placed =
            subst
              (λ k.
                Placed (write_at q.storage k m) c v.reader
                  (seen ++ published ++ (pending ++ m ∷ [])))
              (sym at)
              (subst (Placed xs c v.reader) regroup (
                Placed-append xs c v.reader all m
                  (Placed-write_at q.storage c v.reader (end v) m all pos (omega (arith, sum))
                    (omega (arith, room, v.cached_le, v.released_le)) v.placed)
                  last));
        sized =
            subst (All SomeBytes) regroup
              (All-append SomeBytes all (m ∷ []) v.sized (some_bytes, tt));
      }

  -- `v` is the state in which the message is written.
  abbrev pub Writes : IsValid q seen published pending → Bytes → Queue × Bool → Type 0
  Writes v m (q', written) =
      ((written ≡ true) × IsValid q' seen published (pending ++ m ∷ []))
      ⊎ ((written ≡ false)
          × IsValid q' seen published pending
          × (v.released + q.capacity < end v + length m))

  pub commit_write-IsValid :
      IsValid q seen published pending → IsValid (commit_write q) seen (published ++ pending) []
  unfolding commit_write
  commit_write-IsValid v =
      let sum : total (published ++ pending) ≡ total published + total pending =
        total-append published pending in
      let regroup : seen ++ published ++ pending ≡ seen ++ (published ++ pending) ++ [] =
        append_assoc seen published pending ∙ sym (append-nil (seen ++ (published ++ pending))) in
      record {
        reader = v.reader;
        released = v.released;
        cached = v.cached;
        power = v.power;
        bounded = v.bounded;
        masks = v.masks;
        mirrored = v.mirrored;
        reader_at = v.reader_at;
        released_at = v.released_at;
        cached_at = v.cached_at;
        seen_at = v.seen_at;
        published_at = omega (arith, v.writer_at, sum);
        writer_at = omega (arith, v.writer_at, sum);
        cached_le = v.cached_le;
        released_le = v.released_le;
        within = omega (arith, v.within, sum);
        placed = subst (Placed q.storage q.capacity v.reader) regroup v.placed;
        sized = subst (All SomeBytes) regroup v.sized;
      }

room :
    {q : Queue} {seen published pending : List Bytes} (v : IsValid q seen published pending)
    (m : Bytes)
    → ltb (free q) (length m) ≡ false
    → end v + length m ≤ v.cached + q.capacity
room v m fits = let e = free_lem v in let le = v.within in ground arith

no_room :
    {q : Queue} {seen published pending : List Bytes} (v : IsValid q seen published pending)
    (m : Bytes)
    → ltb (free q) (length m) ≡ true
    → v.cached + q.capacity < end v + length m
no_room v m full = let e = free_lem v in let le = v.within in ground arith

module _ {q : Queue} {seen published pending : List Bytes} where
  -- In a valid state of the bounded queue, the write of a message of at least one byte
  -- (prepare_write, a copy, finish_write) leaves a valid state: with the message behind the pending
  -- ones, each message still in one piece, or, if the write was refused, with the same messages,
  -- and then the bytes that the reader gave back leave no room for it.
  pub write-IsValid :
      (v : IsValid q seen published pending) (m : Bytes) → 0 < length m → Writes v m (write q m)
  unfolding prepare_write load_reader-IsValid
  write-IsValid v m some_bytes =
      let v' = load_reader-IsValid v in
      if_cases (λ r. Writes v m (write_to m r)) (ltb (free q) (length m)) _ _
        (λ _. elim (Bool-cases (ltb (free (load_reader q)) (length m))) [
          | inl full ↦ rw full (inr (refl, v', no_room v' m full))
          | inr fits ↦ rw fits (inl (refl, written-IsValid v' m some_bytes (room v' m fits)))
        ])
        (λ fits. inl (refl, written-IsValid v m some_bytes (room v m fits)))
