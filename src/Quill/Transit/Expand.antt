-- ===== src/Quill/Transit/Expand.antt =====
-- Growth of a full buffer of events: it keeps the events and their order, also when the memory for
-- it is not there; so an event that is put at the back is never lost and never overwrites another.
use Prim.Native.Nat.{ℕ, zero, suc, ◌+◌, ◌-◌, ◌*◌, ◌%◌, ◌^◌, ◌≤◌, ◌<◌}
use mathlib.Core.Path.{subst}
use native.Mathlib.Nat.{mod-lt}
use logger_benchmarks.Prelude.{
  Bool, true, false, ◌==◌, List, [], ◌∷◌, ◌++◌, length, get_or, ◌≡◌, ◌≢◌, refl, sym, ap, ◌∙◌, arith,
  inl, inr, ◌⊎◌, length-append, if_cases,
}
use logger_benchmarks.Prelude.Ring.{
  set, length-set, ring, ring-append, length-ring, mod_apart, get_or-set_same, get_or-set_other,
}
use logger_benchmarks.Quill.Powers.{IsPower, wrap_mod, double-IsPower, IsPower-pos}
use logger_benchmarks.Quill.Transit.Defs.{
  Buffer, size, slot, capacity, moved, move_back, move_out, expand, back, back_expanded,
  fresh_events, put, put_at,
}
use logger_benchmarks.Quill.Transit.Valid.{IsValid, events, Keeps, length-fresh_events}
use logger_benchmarks.Quill.Transit.Queue.{push_back-fill}

module _ {Event : Type 0} (fresh : Event) where
  -- What is moved to the new storage are the events in their order.
  moved-ring :
      (b : Buffer Event) (i n : ℕ)
      → IsValid fresh b
      → moved fresh b i n ≡ ring fresh b.storage (b.mask + 1) (b.reader_pos + i) n
  unfolding moved ring
  moved-ring b i zero v = refl
  moved-ring b i (suc n) v =
      let same : b.reader_pos + (i + 1) ≡ b.reader_pos + i + 1 = omega arith in
      rw (wrap_mod (b.mask + 1) (b.reader_pos + i) v.power) (
        ap (λ l. get_or b.storage ((b.reader_pos + i) % (b.mask + 1)) fresh ∷ l)
          (moved-ring b (i + 1) n v ∙ ap (λ s. ring fresh b.storage (b.mask + 1) s n) same))

  moved-events :
      (b : Buffer Event) → IsValid fresh b → moved fresh b 0 (size fresh b) ≡ events fresh b
  moved-events b v =
      let same : b.reader_pos + 0 ≡ b.reader_pos = omega arith in
      moved-ring b 0 (size fresh b) v
      ∙ ap (λ s. ring fresh b.storage (b.mask + 1) s (size fresh b)) same

  length-move_out :
      (left : Event) (b : Buffer Event) (i n : ℕ) (xs : List Event)
      → length (move_out fresh left b i n xs) ≡ length xs
  unfolding move_out
  length-move_out left b i zero xs = refl
  length-move_out left b i (suc n) xs =
      length-move_out left b (i + 1) n (set xs (slot fresh b ((b.reader_pos + i) % 2 ^ 64)) left)
      ∙ length-set xs (slot fresh b ((b.reader_pos + i) % 2 ^ 64)) left

  length-move_back :
      (b : Buffer Event) (i : ℕ) (es xs : List Event)
      → length (move_back fresh b i es xs) ≡ length xs
  unfolding move_back
  length-move_back b i [] xs = refl
  length-move_back b i (e ∷ es) xs =
      length-move_back b (i + 1) es (set xs (slot fresh b ((b.reader_pos + i) % 2 ^ 64)) e)
      ∙ length-set xs (slot fresh b ((b.reader_pos + i) % 2 ^ 64)) e

  -- The moves behind a slot, within one round, leave it.
  move_back_keeps :
      (b : Buffer Event) (i k : ℕ) (es xs : List Event)
      → IsValid fresh b
      → 0 < k
      → k + length es ≤ b.mask + 1
      → get_or (move_back fresh b (i + k) es xs) ((b.reader_pos + i) % (b.mask + 1)) fresh
        ≡ get_or xs ((b.reader_pos + i) % (b.mask + 1)) fresh
  unfolding move_back
  move_back_keeps b i k [] xs v pos h = refl
  move_back_keeps b i k (e ∷ es) xs v pos h =
      let c = b.mask + 1 in
      let r = b.reader_pos in
      let there : (r + (i + k)) % 2 ^ 64 % c ≡ (r + i + k) % c =
        wrap_mod c (r + (i + k)) v.power ∙ ap (λ s. s % c) (the_same r i k) in
      let apart : (r + i + k) % c ≢ (r + i) % c = mod_apart c (r + i) k pos (omega arith) in
      let next : i + k + 1 ≡ i + (k + 1) = omega arith in
      rw (there, next)
        (move_back_keeps b i (k + 1) es (set xs ((r + i + k) % c) e) v (omega arith) (omega arith)
          ∙ get_or-set_other xs ((r + i + k) % c) ((r + i) % c) e fresh apart)
    where
      the_same : (r i k : ℕ) → r + (i + k) ≡ r + i + k
      the_same r i k = omega arith

  -- The events that were moved back stand where they stood.
  move_back-ring :
      (b : Buffer Event) (i : ℕ) (es xs : List Event)
      → IsValid fresh b
      → length es ≤ b.mask + 1
      → length xs ≡ b.mask + 1
      → ring fresh (move_back fresh b i es xs) (b.mask + 1) (b.reader_pos + i) (length es) ≡ es
  unfolding move_back ring
  move_back-ring b i [] xs v h stored = refl
  move_back-ring b i (e ∷ es) xs v h stored =
      let c = b.mask + 1 in
      let r = b.reader_pos in
      let xs' = set xs ((r + i) % c) e in
      let same : r + i + 1 ≡ r + (i + 1) = omega arith in
      let inside : (r + i) % c < length xs =
        omega (arith, stored, mod-lt (r + i) (IsPower-pos v.power)) in
      let stored' : length xs' ≡ c = length-set xs ((r + i) % c) e ∙ stored in
      let first : get_or (move_back fresh b (i + 1) es xs') ((r + i) % c) fresh ≡ e =
        move_back_keeps b i 1 es xs' v (omega arith) (omega arith)
        ∙ get_or-set_same xs ((r + i) % c) e fresh inside in
      let rest : ring fresh (move_back fresh b (i + 1) es xs') c (r + i) (suc (length es))
          ≡ e ∷ es =
        rw (first, same)
          (ap (λ l. e ∷ l) (move_back-ring b (i + 1) es xs' v (omega arith) stored')) in
      ap (λ j. ring fresh (move_back fresh b (i + 1) es (set xs j e)) c (r + i) (suc (length es)))
        (wrap_mod c (r + i) v.power)
      ∙ rest

  -- A buffer is full when as many events are in it as it has slots.
  abbrev IsFull : Buffer Event → Type 0
  IsFull b = length b.storage ≡ size fresh b

  -- What became of an event that was to be put at the back of `b`.
  abbrev pub Puts : Bool → Event → Buffer Event → Buffer Event × Bool → Type 0
  Puts allocated e b (b', stored) =
      IsValid fresh b'
      × (((stored ≡ true) × (events fresh b' ≡ events fresh b ++ e ∷ []))
          ⊎ ((stored ≡ false) × (allocated ≡ false) × (events fresh b' ≡ events fresh b)))

  grown-Keeps :
      (b : Buffer Event)
      → IsValid fresh b
      → IsFull b
      → b.mask + 1 < 2 ^ 63
      → let n = size fresh b in
        let new = (length b.storage * 2) % 2 ^ 64 in
        let b' = record b {
          storage = moved fresh b 0 n ++ fresh_events fresh (new - n);
          mask = new - 1;
          writer_pos = n;
          reader_pos = 0;
        } in
        Keeps fresh b b' × (size fresh b' < b'.mask + 1)
  grown-Keeps b v full small =
      let c = b.mask + 1 in
      let n = size fresh b in
      let es = events fresh b in
      let new : (length b.storage * 2) % 2 ^ 64 ≡ c * 2 = omega (arith, v.stored, small) in
      let c_is : c ≡ n = omega (arith, v.stored, full) in
      let same : c * 2 ≡ (length b.storage * 2) % 2 ^ 64 - 1 + 1 = omega (arith, new) in
      let n_is : (2 ^ 64 + n - 0) % 2 ^ 64 ≡ n = omega (arith, c_is, small) in
      let held : length es ≡ n = length-ring fresh b.storage c b.reader_pos n in
      let more = (length b.storage * 2) % 2 ^ 64 - n in
      let c' = (length b.storage * 2) % 2 ^ 64 - 1 + 1 in
      let room : length es ≤ c' = omega (arith, held, same, c_is) in
      let long : length (moved fresh b 0 n ++ fresh_events fresh more) ≡ c' = omega (
        arith,
        length-append (moved fresh b 0 n) (fresh_events fresh more),
        ap length (moved-events b v),
        held,
        length-fresh_events fresh more,
        same,
        c_is,
      ) in
      (
        (
          record {
            power = subst IsPower same (double-IsPower v.power small);
            stored = long;
            initial = v.initial;
            fits = omega (arith, n_is, same, c_is);
            reader = omega arith;
            writer = omega (arith, c_is, small);
          },
          ap (λ l. ring fresh (l ++ fresh_events fresh more) c' 0 ((2 ^ 64 + n - 0) % 2 ^ 64))
                (moved-events b v)
              ∙ ap (λ k. ring fresh (es ++ fresh_events fresh more) c' 0 k) (n_is ∙ sym held)
              ∙ ring-append fresh es (fresh_events fresh more) c' room,
        ),
        omega (arith, n_is, same, c_is),
      )

  -- Without memory the buffer is what it was.
  restored-Keeps :
      (left : Event) (b : Buffer Event)
      → IsValid fresh b
      → let n = size fresh b in
        Keeps fresh b (record b {
          storage = move_back fresh b 0 (moved fresh b 0 n) (move_out fresh left b 0 n b.storage);
        })
  restored-Keeps left b v =
      let c = b.mask + 1 in
      let n = size fresh b in
      let es = moved fresh b 0 n in
      let xs = move_out fresh left b 0 n b.storage in
      let stored : length xs ≡ c = length-move_out left b 0 n b.storage ∙ v.stored in
      let held : length es ≡ n =
        ap length (moved-events b v) ∙ length-ring fresh b.storage c b.reader_pos n in
      let start : b.reader_pos ≡ b.reader_pos + 0 = omega arith in
      (
        record {
          power = v.power;
          stored = length-move_back b 0 es xs ∙ stored;
          initial = v.initial;
          fits = v.fits;
          reader = v.reader;
          writer = v.writer;
        },
        ap (λ s. ring fresh (move_back fresh b 0 es xs) c s n) start
            ∙ ap (ring fresh (move_back fresh b 0 es xs) c (b.reader_pos + 0)) (sym held)
            ∙ move_back-ring b 0 es xs v (omega (arith, held, v.fits)) stored
            ∙ moved-events b v,
      )

  put-full :
      (left : Event) (allocated : Bool) (e : Event) (b : Buffer Event)
      → IsValid fresh b
      → IsFull b
      → b.mask + 1 < 2 ^ 63
      → Puts allocated e b (put_at fresh e (back_expanded fresh (expand fresh left allocated b)))
  unfolding expand
  put-full left true e b v full small =
      let ((v', same), room) = grown-Keeps b v full small in
      let (v'', added) = push_back-fill fresh _ e v' room in
      (v'', inl (refl, added ∙ ap (λ l. l ++ e ∷ []) same))
  put-full left false e b v full small =
      let (v', same) = restored-Keeps left b v in (v', inr (refl, refl, same))

  -- In a valid buffer of fewer than 2^63 slots, an event that is put at the back (back, an
  -- assignment, push_back) becomes the last of the events, whether or not the storage was expanded
  -- for it; only if the allocation fails may it be refused, and then the buffer holds the same
  -- events.
  pub put-events :
      (left : Event) (allocated : Bool) (e : Event) (b : Buffer Event)
      → IsValid fresh b
      → b.mask + 1 < 2 ^ 63
      → Puts allocated e b (put fresh left allocated e b)
  unfolding put back
  put-events left allocated e b v small =
      if_cases (λ r. Puts allocated e b (put_at fresh e r)) (capacity fresh b == size fresh b) _ _
        (λ full. put-full left allocated e b v (ground arith) small)
        (λ room.
          let (v', added) = push_back-fill fresh b e v (ground arith) in (v', inl (refl, added)))
