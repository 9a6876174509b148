-- ===== src/Quill/SizeCache/Refine.antt =====
-- `InlinedVector` is a list: `push_back` appends, `operator[]` looks up, `assign` replaces and
-- `clear` empties, whether the values stand inline or on the heap.
use Prim.Native.Nat.{ℕ, zero, suc, ◌+◌, ◌-◌, ◌*◌, ◌/◌, ◌^◌, ◌≤◌, ◌<◌}
use logger_benchmarks.Prelude.{
  true, false, ltb, leb, ◌==◌, some, none, List, [], ◌∷◌, ◌++◌, length, get_elem?, ◌≡◌, ◌≢◌, refl,
  sym, ap, ◌∙◌, arith, length-append, Bool-cases, inl, inr,
}
use logger_benchmarks.Prelude.Slices.{take, length-take}
use logger_benchmarks.Prelude.Ring.{set, length-set}
use logger_benchmarks.Quill.SizeCache.Defs.{
  heap_buffer, InlinedVector, values, make, buffer, with_buffer, move_to_heap, make_room, push_back,
  at, assign, clear,
}

module _ {ℓ} {A : Type ℓ} where
  take-append : (xs ys : List A) → take (length xs) (xs ++ ys) ≡ xs
  take-append [] ys = refl
  take-append (x ∷ xs) ys = ap (λ l. x ∷ l) (take-append xs ys)

  -- A write behind the first `n` items makes it the next one.
  take-set_next :
      (n : ℕ) (xs : List A) (v : A)
      → n < length xs
      → take (n + 1) (set xs n v) ≡ take n xs ++ v ∷ []
  take-set_next zero [] v h = absurd (omega arith)
  take-set_next zero (x ∷ xs) v h = refl
  take-set_next (suc n) [] v h = absurd (omega arith)
  take-set_next (suc n) (x ∷ xs) v h =
      let next : suc n + 1 ≡ suc (n + 1) = omega arith in
      ap (λ k. take k (x ∷ set xs n v)) next ∙ ap (λ l. x ∷ l) (take-set_next n xs v (omega arith))

  take-set : (n i : ℕ) (xs : List A) (v : A) → take n (set xs i v) ≡ set (take n xs) i v
  take-set zero i xs v = refl
  take-set (suc n) i [] v = refl
  take-set (suc n) zero (x ∷ xs) v = refl
  take-set (suc n) (suc i) (x ∷ xs) v = ap (λ l. x ∷ l) (take-set n i xs v)

  get_elem?-take : (n i : ℕ) (xs : List A) → i < n → get_elem? (take n xs) i ≡ get_elem? xs i
  get_elem?-take zero i xs h = absurd (omega arith)
  get_elem?-take (suc n) i [] h = refl
  get_elem?-take (suc n) zero (x ∷ xs) h = refl
  get_elem?-take (suc n) (suc i) (x ∷ xs) h = get_elem?-take n i xs (omega arith)

  get_elem?-none : (xs : List A) (i : ℕ) → length xs ≤ i → get_elem? xs i ≡ none
  get_elem?-none [] i h = refl
  get_elem?-none (x ∷ xs) zero h = absurd (omega arith)
  get_elem?-none (x ∷ xs) (suc i) h = get_elem?-none xs i (omega arith)

module _ {Value : Type 0} (N : ℕ) (zeroed : Value) where
  -- The values stand inline exactly while the capacity is `N`, and the buffer has the capacity.
  pub record IsValid (v : InlinedVector Value) (contents : List Value) : Type 0 where
    pub slots : List Value
    pub active : buffer N zeroed v ≡ some slots
    pub room : length slots ≡ v.capacity
    pub least : N ≤ v.capacity
    pub fits : v.size ≤ v.capacity
    pub shows : take v.size slots ≡ contents

  length-values : (n : ℕ) → length (values N zeroed n) ≡ n
  length-values zero = refl
  length-values (suc n) = ap suc (length-values n)

  pub make-IsValid : IsValid (make N zeroed) []
  unfolding make buffer
  make-IsValid = record {
    slots = values N zeroed N;
    active = let same : (N == N) ≡ true = ground arith in rw same refl;
    room = length-values N;
    least = omega arith;
    fits = omega arith;
    shows = refl;
  }

  buffer-with_buffer :
      (v : InlinedVector Value) (xs : List Value)
      → buffer N zeroed (with_buffer N zeroed v xs) ≡ some xs
  unfolding buffer with_buffer
  buffer-with_buffer v xs = elim (Bool-cases (v.capacity == N)) [
    | inl here ↦ rw here refl
    | inr there ↦ rw there refl
  ]

  length-contents : {v : InlinedVector Value} {c : List Value} (h : IsValid v c) → length c ≡ v.size
  length-contents {v} h =
      ap length (sym h.shows) ∙ length-take v.size h.slots (omega (arith, h.fits, h.room))

  -- The copy to the heap, of a larger capacity, shows the same.
  pub move_to_heap-IsValid :
      (v : InlinedVector Value) (c : List Value) (new_capacity : ℕ)
      → IsValid v c
      → v.capacity < new_capacity
      → (w : InlinedVector Value) × (move_to_heap N zeroed v new_capacity ≡ some w)
        × IsValid w c
        × (w.capacity ≡ new_capacity)
        × (w.size ≡ v.size)
  unfolding move_to_heap buffer
  move_to_heap-IsValid v c new_capacity h larger =
      let more = values N zeroed (new_capacity - v.size) in
      let kept = take v.size h.slots in
      let held : length kept ≡ v.size =
        length-take v.size h.slots (omega (arith, h.fits, h.room)) in
      let heap : (new_capacity == N) ≡ false =
        let apart : N < new_capacity = omega (arith, h.least) in ground arith in
      (
        record { storage = heap_buffer (kept ++ more); size = v.size; capacity = new_capacity },
        rw h.active refl,
        record {
          slots = kept ++ more;
          active = rw heap refl;
          room =
              omega (
                arith,
                length-append kept more,
                held,
                length-values (new_capacity - v.size),
                h.fits,
              );
          least = omega (arith, h.least);
          fits = omega (arith, h.fits);
          shows = ap (λ n. take n (kept ++ more)) (sym held) ∙ take-append kept more ∙ h.shows;
        },
        refl,
        refl,
      )

  make_room-IsValid :
      (v : InlinedVector Value) (c : List Value)
      → IsValid v c
      → v.capacity < 2 ^ 63
      → 0 < N
      → (w : InlinedVector Value) × (make_room N zeroed v ≡ some w)
        × IsValid w c
        × (w.size < w.capacity)
  unfolding make_room
  make_room-IsValid v c h small pos = elim (Bool-cases (v.size == v.capacity)) [
    | inl full ↦
        let (w, moved, valid, cap, size) =
          move_to_heap-IsValid v c (v.capacity * 2) h (omega (arith, h.least)) in
        let below : ltb ((2 ^ 64 - 1) / 2) v.capacity ≡ false = ground arith in
        let at_size : v.size ≡ v.capacity = ground arith in
        (w, rw (full, below) moved, valid, omega (arith, cap, size, at_size, h.least))
    | inr room ↦
        let apart : v.size ≢ v.capacity = ground arith in
        (v, rw room refl, h, omega (arith, apart, h.fits))
  ]

  -- On a valid vector with an inline capacity above 0 and a capacity below 2^63, push_back returns
  -- its value and leaves a valid vector that holds the same contents followed by the value, also
  -- where it moves to the heap.
  pub push_back-IsValid :
      (v : InlinedVector Value) (c : List Value) (value : Value)
      → IsValid v c
      → v.capacity < 2 ^ 63
      → 0 < N
      → (w : InlinedVector Value) × (push_back N zeroed v value ≡ some (w, value))
        × IsValid w (c ++ value ∷ [])
  unfolding push_back buffer with_buffer
  push_back-IsValid v c value h small pos =
      let (w, roomy, valid, below) = make_room-IsValid v c h small pos in
      let xs = set valid.slots w.size value in
      let inside : w.size < length valid.slots = omega (arith, below, valid.room) in
      (
        record (with_buffer N zeroed w xs) { size = w.size + 1 },
        rw (roomy, valid.active) refl,
        record {
          slots = xs;
          active = buffer-with_buffer w xs;
          room = length-set valid.slots w.size value ∙ valid.room;
          least = valid.least;
          fits = omega arith;
          shows =
              take-set_next w.size valid.slots value inside ∙ ap (λ l. l ++ value ∷ []) valid.shows;
        },
      )

  -- On a valid vector, operator[] gives the item of the contents at an index, inline or on the
  -- heap, and an error if there is none.
  pub at-IsValid :
      (v : InlinedVector Value) (c : List Value) (index : ℕ)
      → IsValid v c
      → at N zeroed v index ≡ get_elem? c index
  unfolding at
  at-IsValid v c index h = elim (Bool-cases (leb v.size index)) [
    | inl out ↦
        let le : v.size ≤ index = ground arith in
        rw out (sym (get_elem?-none c index (omega (arith, length-contents h))))
    | inr inside ↦
        let lt : index < v.size = ground arith in
        rw (inside, h.active)
          (sym (get_elem?-take v.size index h.slots lt) ∙ ap (λ l. get_elem? l index) h.shows)
  ]

  pub assign-IsValid :
      (v : InlinedVector Value) (c : List Value) (index : ℕ) (value : Value)
      → IsValid v c
      → index < v.size
      → (w : InlinedVector Value) × (assign N zeroed v index value ≡ some w)
        × IsValid w (set c index value)
  unfolding assign buffer with_buffer
  assign-IsValid v c index value h inside =
      let xs = set h.slots index value in
      let test : leb v.size index ≡ false = ground arith in
      (
        with_buffer N zeroed v xs,
        rw (test, h.active) refl,
        record {
          slots = xs;
          active = buffer-with_buffer v xs;
          room = length-set h.slots index value ∙ h.room;
          least = h.least;
          fits = h.fits;
          shows = take-set v.size index h.slots value ∙ ap (λ l. set l index value) h.shows;
        },
      )

  pub clear-IsValid :
      (v : InlinedVector Value) (c : List Value) → IsValid v c → IsValid (clear N zeroed v) []
  unfolding clear buffer
  clear-IsValid v c h = record {
    slots = h.slots;
    active = h.active;
    room = h.room;
    least = h.least;
    fits = omega arith;
    shows = refl;
  }
