-- ===== src/Quill/Backtrace/Events.antt =====
-- The store of the last events keeps the last ones, as many as its capacity, and hands them over in
-- the order in which they came.
use Prim.Native.Nat.{ℕ, zero, suc, ◌+◌, ◌-◌, ◌%◌, ◌≤◌, ◌<◌}
use native.Mathlib.Nat.{mod-lt, mod-eq_of_lt, add-mod_right, mod_self, mod-mod}
use logger_benchmarks.Prelude.{
  Bool, true, false, ltb, ◌==◌, if◌then◌else◌, List, [], ◌∷◌, ◌++◌, length, get_or, append-nil, ◌≡◌,
  refl, sym, ap, ◌∙◌, arith, length-append, if_cases, Bool-cases, dec_lt, inl, inr, ◌⊎◌,
}
use logger_benchmarks.Prelude.Slices.{drop, drop-all}
use logger_benchmarks.Prelude.Ring.{
  set, length-set, ring, length-ring, ring_zero, ring_first, ring_last, ring_mod, ring-set,
  ring-append, get_or-set_same,
}
use logger_benchmarks.Quill.Backtrace.Defs.{
  BacktraceStorage, make, step, store, deliver, cleared, process, set_capacity, IsValid,
}

module _ {Event : Type 0} (d : Event) where
  -- the events in the order they were stored
  abbrev pub events : BacktraceStorage Event → List Event
  events b = ring d b.stored_events (length b.stored_events) b.index (length b.stored_events)

  abbrev pub last_of : ℕ → List Event → List Event
  last_of n xs = drop (length xs - n) xs

  pub make-IsValid : IsValid {Event = Event} make
  unfolding make
  make-IsValid = inl (omega arith, refl)

  pub set_capacity-IsValid :
      (b : BacktraceStorage Event) (n : ℕ) → IsValid b → IsValid (set_capacity b n)
  unfolding set_capacity
  set_capacity-IsValid b n v =
      if_cases IsValid (b.capacity == n) b _ (λ _. v) (λ _. inl (omega arith, refl))

  stored_in_order : (xs : List Event) → ring d xs (length xs) 0 (length xs) ≡ xs
  stored_in_order xs =
      ap (λ l. ring d l (length xs) 0 (length xs)) (sym (append-nil xs))
      ∙ ring-append d xs [] (length xs) (omega arith)

  -- `store` keeps the invariant, and the last `capacity` events.
  abbrev pub Stores : BacktraceStorage Event → Event → BacktraceStorage Event → Type 0
  Stores b e b' =
      IsValid b'
      × (b'.capacity ≡ b.capacity)
      × (events b' ≡ last_of b.capacity (events b ++ e ∷ []))

  fits : (b : BacktraceStorage Event) → IsValid b → length b.stored_events ≤ b.capacity
  fits b (inl (le, _)) = le
  fits b (inr (same, _)) = omega arith

  at_start :
      (b : BacktraceStorage Event) → IsValid b → length b.stored_events < b.capacity → b.index ≡ 0
  at_start b (inl (_, start)) room = start
  at_start b (inr (same, _)) room = absurd (omega arith)

  below : (b : BacktraceStorage Event) → IsValid b → 0 < b.capacity → b.index < b.capacity
  below b (inl (_, start)) pos = omega arith
  below b (inr (_, lt)) pos = lt

  length-events : (b : BacktraceStorage Event) → length (events b) ≡ length b.stored_events
  length-events b =
      length-ring d b.stored_events (length b.stored_events) b.index (length b.stored_events)

  nothing_kept : (xs : List Event) → last_of 0 xs ≡ []
  nothing_kept xs = drop-all (length xs - 0) xs (omega arith)

  -- While there is room all events are kept.
  store-growing :
      (b : BacktraceStorage Event) (e : Event)
      → IsValid b
      → length b.stored_events < b.capacity
      → Stores b e (record b { stored_events = b.stored_events ++ e ∷ [] })
  store-growing b e v room =
      let xs = b.stored_events in
      let start = at_start b v room in
      let long : length (xs ++ e ∷ []) ≡ length xs + 1 = length-append xs (e ∷ []) in
      let all : length (events b ++ e ∷ []) - b.capacity ≡ 0 =
        omega (arith, length-append (events b) (e ∷ []), length-events b, room) in
      let before : events b ≡ xs =
        ap (λ i. ring d xs (length xs) i (length xs)) start ∙ stored_in_order xs in
      (
        inl (omega arith, start),
        refl,
        ap (λ i. ring d (xs ++ e ∷ []) (length (xs ++ e ∷ [])) i (length (xs ++ e ∷ []))) start
            ∙ stored_in_order (xs ++ e ∷ [])
            ∙ ap (λ l. l ++ e ∷ []) (sym before)
            ∙ ap (λ k. drop k (events b ++ e ∷ [])) (sym all),
      )

  step_mod : (n i : ℕ) → i < n → step (n - 1) i ≡ (i + 1) % n
  step_mod n i lt = elim (Bool-cases (ltb i (n - 1))) [
    | inl more ↦ let inside : i + 1 < n = ground arith in rw more (sym (mod-eq_of_lt inside))
    | inr last ↦
        let at_end : i + 1 ≡ n = ground arith in rw last (sym (ap (λ k. k % n) at_end ∙ mod_self n))
  ]

  ring_replace :
      (xs : List Event) (n m i : ℕ) (e : Event)
      → n ≡ m + 1
      → length xs ≡ n
      → i < n
      → ring d (set xs i e) n ((i + 1) % n) n ≡ drop 1 (ring d xs n i n ++ e ∷ [])
  ring_replace xs n m i e split long inside =
      let xs' = set xs i e in
      let around : i + 1 + m ≡ i + n = omega arith in
      let around' : i + 1 + (m + 0) ≡ i + n = omega arith in
      let here : (i + n) % n ≡ i = add-mod_right i n ∙ mod-eq_of_lt inside in
      let behind : (i + 1 + m) % n ≡ i = ap (λ k. k % n) around ∙ here in
      let behind' : i ≡ (i + 1 + (m + 0)) % n = sym (ap (λ k. k % n) around' ∙ here) in
      let written : i < length xs = omega arith in
      let rest = ring d xs n (i + 1) m in
      ring_mod d xs' n ((i + 1) % n) (i + 1) n (mod-mod (i + 1) n)
      ∙ ap (ring d xs' n (i + 1)) split
      ∙ ring_last d xs' n (i + 1) m
      ∙ ap (λ l. l ++ get_or xs' ((i + 1 + m) % n) d ∷ [])
          (ap (λ k. ring d (set xs k e) n (i + 1) m) behind'
            ∙ ring-set d xs n (i + 1) m 0 e (omega arith))
      ∙ ap (λ x. rest ++ x ∷ [])
          (ap (λ k. get_or xs' k d) behind ∙ get_or-set_same xs i e d written)
      ∙ sym (
          ap (λ k. drop 1 (ring d xs n i k ++ e ∷ [])) split
          ∙ ap (λ l. drop 1 (l ++ e ∷ [])) (ring_first d xs n i m))

  -- A full storage drops its oldest event.
  store-full :
      (b : BacktraceStorage Event) (e : Event)
      → IsValid b
      → 0 < b.capacity
      → length b.stored_events ≡ b.capacity
      → Stores b e (record b {
        stored_events = set b.stored_events b.index e;
        index = step (b.capacity - 1) b.index;
      })
  store-full b e v pos full =
      let n = b.capacity in
      let xs = b.stored_events in
      let i = b.index in
      let inside = below b v pos in
      let long : length (set xs i e) ≡ n = length-set xs i e ∙ full in
      let next = step_mod n i inside in
      let split : n ≡ n - 1 + 1 = omega arith in
      let one : length (events b ++ e ∷ []) - n ≡ 1 =
        omega (arith, length-append (events b) (e ∷ []), length-events b, full) in
      (
        inr (long, omega (arith, next, mod-lt (i + 1) pos)),
        refl,
        ap (λ k. ring d (set xs i e) k (step (n - 1) i) k) long
            ∙ ap (λ s. ring d (set xs i e) n s n) next
            ∙ ring_replace xs n (n - 1) i e split full inside
            ∙ ap (λ k. drop 1 (ring d xs k i k ++ e ∷ [])) (sym full)
            ∙ ap (λ k. drop k (events b ++ e ∷ [])) (sym one),
      )

  -- In a valid backtrace storage, store keeps the invariant and the capacity, and leaves the last
  -- events, as many as the capacity, of those stored before followed by the new one.
  pub store-events : (b : BacktraceStorage Event) (e : Event) → IsValid b → Stores b e (store b e)
  unfolding store
  store-events b e v =
      if_cases (Stores b e) (b.capacity == 0) b _
        (λ off.
          let nothing : b.capacity ≡ 0 = ground arith in
          let le = fits b v in
          let stored : length b.stored_events ≡ 0 = omega arith in
          (
            v,
            refl,
            ap (λ k. ring d b.stored_events k b.index k) stored
                ∙ ring_zero d b.stored_events 0 b.index
                ∙ sym (
                    ap (λ n. last_of n (events b ++ e ∷ [])) nothing
                    ∙ nothing_kept (events b ++ e ∷ [])),
          ))
        (λ on.
          if_cases (Stores b e) (ltb (length b.stored_events) b.capacity) _ _
            (λ room. store-growing b e v (ground arith))
            (λ full.
              let le = fits b v in
              let same : length b.stored_events ≡ b.capacity = ground arith in
              let pos : 0 < b.capacity = ground arith in store-full b e v pos same))

  -- What a callback gets of a list: all up to the one on which it throws.
  abbrev pub until_throw : (accepts : Event → Bool) → List Event → List Event × Bool
  until_throw accepts [] = ([], true)
  until_throw accepts (e ∷ es) =
      if accepts e
      then (e ∷ (until_throw accepts es).0, (until_throw accepts es).1)
      else (e ∷ [], false)

  deliver-ring :
      (accepts : Event → Bool) (xs : List Event) (i n : ℕ)
      → i < length xs
      → deliver d accepts xs i n ≡ until_throw accepts (ring d xs (length xs) i n)
  unfolding deliver ring
  deliver-ring accepts xs i zero inside = refl
  deliver-ring accepts xs i (suc n) inside =
      let c = length xs in
      let pos : 0 < c = omega arith in
      let here : i % c ≡ i = mod-eq_of_lt inside in
      let rest : deliver d accepts xs (step (c - 1) i) n
          ≡ until_throw accepts (ring d xs c (i + 1) n) =
        ap (λ k. deliver d accepts xs k n) (step_mod c i inside)
        ∙ deliver-ring accepts xs ((i + 1) % c) n (mod-lt (i + 1) pos)
        ∙ ap (until_throw accepts) (ring_mod d xs c ((i + 1) % c) (i + 1) n (mod-mod (i + 1) c)) in
      rw (here, rest)

  deliver-all :
      (accepts : Event → Bool) (xs : List Event) (i : ℕ)
      → ((length xs ≤ i) × (i ≡ 0)) ⊎ (i < length xs)
      → deliver d accepts xs i (length xs)
        ≡ until_throw accepts (ring d xs (length xs) i (length xs))
  unfolding deliver ring
  deliver-all accepts [] i at = refl
  deliver-all accepts (x ∷ xs) i (inl (none_there, start)) = absurd (omega arith)
  deliver-all accepts (x ∷ xs) i (inr inside) =
      deliver-ring accepts (x ∷ xs) i (length (x ∷ xs)) inside

  index_inside :
      (b : BacktraceStorage Event)
      → IsValid b
      → ((length b.stored_events ≤ b.index) × (b.index ≡ 0)) ⊎ (b.index < length b.stored_events)
  index_inside b (inr (same, lt)) = inr (omega arith)
  index_inside b (inl (le, start)) = elim (dec_lt 0 (length b.stored_events)) [
    | yes some_stored ↦ inr (omega arith)
    | no none_stored ↦ inl (omega arith, start)
  ]

  -- In a valid backtrace storage, process calls the callback with the stored events in the order
  -- they were stored, up to and with the first on which it throws, and leaves the storage valid and
  -- empty in both cases.
  pub process-events :
      (accepts : Event → Bool) (b : BacktraceStorage Event)
      → IsValid b
      → let (given, returned) = until_throw accepts (events b) in
        (process d accepts b ≡ (given, returned, cleared b))
        × IsValid (cleared b)
        × (events (cleared b) ≡ [])
  unfolding process
  process-events accepts b v =
      let result : List Event × Bool → List Event × Bool × BacktraceStorage Event =
        λ r. (r.0, r.1, cleared b) in
      (
        ap result (deliver-all accepts b.stored_events b.index (index_inside b v)),
        inl (omega arith, refl),
        ring_zero d [] 0 0,
      )
