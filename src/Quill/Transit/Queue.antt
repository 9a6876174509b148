-- ===== src/Quill/Transit/Queue.antt =====
-- The buffer of events as a queue: the front, its removal, and a new event at the back while there
-- is room.
use Prim.Native.Nat.{◌+◌, ◌-◌, ◌%◌, ◌^◌, ◌<◌}
use native.Mathlib.Nat.{mod-lt}
use logger_benchmarks.Prelude.{
  some, none, [], ◌∷◌, ◌++◌, length, get_or, ◌≡◌, ◌≢◌, refl, sym, ap, ◌∙◌, arith, Bool-cases, inl,
  inr, ◌⊎◌,
}
use logger_benchmarks.Prelude.Ring.{
  set, length-set, ring, ring_zero, ring_first, ring_last, ring_mod, ring-set, get_or-set_same,
}
use logger_benchmarks.Quill.Powers.{wrap_mod, IsPower-le}
use logger_benchmarks.Quill.Transit.Defs.{
  Buffer, size, slot, front, pop_front, push_back, fill, is_empty,
}
use logger_benchmarks.Quill.Transit.Valid.{IsValid, events}

module _ {Event : Type 0} (fresh : Event) where
  -- In a valid buffer, front gives nothing and the buffer holds no events, or front gives the
  -- oldest event and pop_front leaves a valid buffer with the others.
  pub front-pop_front :
      (b : Buffer Event)
      → IsValid fresh b
      → ((front fresh b ≡ none) × (events fresh b ≡ []))
        ⊎ ((e : Event) × (front fresh b ≡ some e)
            × IsValid fresh (pop_front fresh b)
            × (events fresh b ≡ e ∷ events fresh (pop_front fresh b)))
  unfolding front pop_front
  front-pop_front b v = elim (Bool-cases (is_empty fresh b)) [
    | inl drained ↦
        let nothing : size fresh b ≡ 0 =
          let same : b.reader_pos ≡ b.writer_pos = ground arith in
          omega (arith, v.reader, v.writer) in
        inl (
          rw drained refl,
          ap (ring fresh b.storage (b.mask + 1) b.reader_pos) nothing
              ∙ ring_zero fresh b.storage (b.mask + 1) b.reader_pos,
        )
    | inr more ↦
        let apart : b.reader_pos ≢ b.writer_pos = ground arith in
        let n = size fresh (pop_front fresh b) in
        let one_less : size fresh b ≡ n + 1 = omega (arith, v.reader, v.writer) in
        let c = b.mask + 1 in
        let next : (b.reader_pos + 1) % c ≡ (b.reader_pos + 1) % 2 ^ 64 % c =
          sym (wrap_mod c (b.reader_pos + 1) v.power) in
        inr (
          get_or b.storage (slot fresh b b.reader_pos) fresh,
          rw more refl,
          record {
            power = v.power;
            stored = v.stored;
            initial = v.initial;
            fits = omega (arith, v.fits);
            reader = mod-lt (b.reader_pos + 1) (omega arith);
            writer = v.writer;
          },
          ap (ring fresh b.storage c b.reader_pos) one_less
              ∙ ring_first fresh b.storage c b.reader_pos n
              ∙ ap (λ l. get_or b.storage (b.reader_pos % c) fresh ∷ l)
                  (ring_mod fresh b.storage c (b.reader_pos + 1) ((b.reader_pos + 1) % 2 ^ 64) n
                    next),
        )
  ]

  -- Where there is room, an event that is filled into the slot at the back is the last one then.
  pub push_back-fill :
      (b : Buffer Event) (e : Event)
      → IsValid fresh b
      → size fresh b < b.mask + 1
      → let b' = push_back fresh (fill fresh (slot fresh b b.writer_pos) e b) in
        IsValid fresh b' × (events fresh b' ≡ events fresh b ++ e ∷ [])
  unfolding push_back fill
  push_back-fill b e v room =
      let c = b.mask + 1 in
      let n = size fresh b in
      let r = b.reader_pos in
      let xs = set b.storage (b.writer_pos % c) e in
      let behind : b.writer_pos ≡ (r + n) % 2 ^ 64 = omega (arith, v.reader, v.writer) in
      let at : b.writer_pos % c ≡ (r + n) % c =
        ap (λ k. k % c) behind ∙ wrap_mod c (r + n) v.power in
      let none_between : r + n ≡ r + (n + 0) = omega arith in
      let at' : b.writer_pos % c ≡ (r + (n + 0)) % c = at ∙ ap (λ k. k % c) none_between in
      let one_more : (2 ^ 64 + (b.writer_pos + 1) % 2 ^ 64 - r) % 2 ^ 64 ≡ n + 1 =
        omega (arith, v.reader, v.writer, room, IsPower-le v.power) in
      let inside : b.writer_pos % c < c = mod-lt b.writer_pos (omega arith) in
      let written : b.writer_pos % c < length b.storage = omega (arith, inside, v.stored) in
      (
        record {
          power = v.power;
          stored = length-set b.storage (b.writer_pos % c) e ∙ v.stored;
          initial = v.initial;
          fits = omega (arith, one_more);
          reader = v.reader;
          writer = mod-lt (b.writer_pos + 1) (omega arith);
        },
        ap (ring fresh xs c r) one_more
            ∙ ring_last fresh xs c r n
            ∙ ap (λ l. l ++ get_or xs ((r + n) % c) fresh ∷ [])
                (ap (λ k. ring fresh (set b.storage k e) c r n) at'
                  ∙ ring-set fresh b.storage c r n 0 e (omega (arith, room)))
            ∙ ap (λ x. ring fresh b.storage c r n ++ x ∷ [])
                (ap (λ k. get_or xs k fresh) (sym at)
                  ∙ get_or-set_same b.storage (b.writer_pos % c) e fresh written),
      )
