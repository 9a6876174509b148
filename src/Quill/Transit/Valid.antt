-- ===== src/Quill/Transit/Valid.antt =====
-- The invariant of the buffer of events, and what it says of its positions.
use Prim.Native.Nat.{ℕ, zero, suc, ◌+◌, ◌-◌, ◌^◌, ◌≤◌, ◌<◌}
use mathlib.Core.Bool.{false≢true}
use mathlib.Core.Path.{subst}
use logger_benchmarks.Prelude.{
  Bool, true, false, ◌&&◌, ltb, List, [], length, ◌≡◌, refl, sym, ap, ◌∙◌, arith, if_cases,
}
use logger_benchmarks.Prelude.Ring.{ring, ring_zero}
use logger_benchmarks.Quill.Powers.{
  next_power_of_two, IsPower, next_power_of_two-IsRounded, IsPower-pos,
}
use logger_benchmarks.Quill.Transit.Defs.{
  Buffer, fresh_events, make, size, capacity, try_shrink, is_empty,
}

module _ {Event : Type 0} (fresh : Event) where
  -- The storage holds a power of two of slots, the mask is one less, and no more events are in the
  -- buffer than it has slots.
  pub record IsValid (b : Buffer Event) : Type 0 where
    pub power : IsPower (b.mask + 1)
    pub stored : length b.storage ≡ b.mask + 1
    pub initial : IsPower b.initial_capacity
    pub fits : size fresh b ≤ b.mask + 1
    pub reader : b.reader_pos < 2 ^ 64
    pub writer : b.writer_pos < 2 ^ 64

  -- What the buffer holds, the oldest event first.
  abbrev pub events : Buffer Event → List Event
  events b = ring fresh b.storage (b.mask + 1) b.reader_pos (size fresh b)

  pub length-fresh_events : (n : ℕ) → length (fresh_events fresh n) ≡ n
  length-fresh_events zero = refl
  length-fresh_events (suc n) = ap suc (length-fresh_events n)

  make-IsValid : (n : ℕ) → n ≤ 2 ^ 63 → IsValid (make fresh n) × (events (make fresh n) ≡ [])
  unfolding make
  make-IsValid n h =
      let rounded = next_power_of_two n in
      let p : IsPower rounded = (next_power_of_two-IsRounded n h).0 in
      let same : rounded ≡ rounded - 1 + 1 = omega (arith, IsPower-pos p) in
      (
        record {
          power = subst IsPower same p;
          stored = length-fresh_events rounded ∙ same;
          initial = p;
          fits = omega arith;
          reader = omega arith;
          writer = omega arith;
        },
        ring_zero fresh (fresh_events fresh rounded) (rounded - 1 + 1) 0,
      )

  -- `b'` is valid and holds what `b` does.
  abbrev pub Keeps : Buffer Event → Buffer Event → Type 0
  Keeps b b' = IsValid b' × (events b' ≡ events b)

  no_events : (b : Buffer Event) → size fresh b ≡ 0 → events b ≡ []
  no_events b none_left =
      ap (ring fresh b.storage (b.mask + 1) b.reader_pos) none_left
      ∙ ring_zero fresh b.storage (b.mask + 1) b.reader_pos

  shrunk-Keeps :
      (b : Buffer Event)
      → IsValid b
      → b.reader_pos ≡ b.writer_pos
      → Keeps b (record b {
        storage = fresh_events fresh b.initial_capacity;
        mask = b.initial_capacity - 1;
        writer_pos = 0;
        reader_pos = 0;
        shrink_requested = false;
      })
  shrunk-Keeps b v drained =
      let c = b.initial_capacity in
      let same : c ≡ c - 1 + 1 = omega (arith, IsPower-pos v.initial) in
      (
        record {
          power = subst IsPower same v.initial;
          stored = length-fresh_events c ∙ same;
          initial = v.initial;
          fits = omega arith;
          reader = omega arith;
          writer = omega arith;
        },
        ring_zero fresh (fresh_events fresh c) (c - 1 + 1) 0
            ∙ sym (no_events b (omega (arith, v.reader, v.writer))),
      )

  -- try_shrink leaves a valid buffer valid, with the same events, on every branch.
  pub try_shrink-Keeps : (b : Buffer Event) → IsValid b → Keeps b (try_shrink fresh b)
  unfolding try_shrink
  try_shrink-Keeps b v =
      if_cases (Keeps b) (b.shrink_requested && is_empty fresh b) _ b
        (λ asked.
          if_cases (Keeps b) (ltb b.initial_capacity (capacity fresh b)) _ _
            (λ larger. shrunk-Keeps b v (emptied b.shrink_requested asked)) (λ _. (same v, refl)))
        (λ _. (v, refl))
    where
      emptied : (t : Bool) → t && is_empty fresh b ≡ true → b.reader_pos ≡ b.writer_pos
      emptied true e = ground arith
      emptied false e = absurd (false≢true e)

      same : IsValid b → IsValid (record b { shrink_requested = false })
      same v = record {
        power = v.power;
        stored = v.stored;
        initial = v.initial;
        fits = v.fits;
        reader = v.reader;
        writer = v.writer;
      }
