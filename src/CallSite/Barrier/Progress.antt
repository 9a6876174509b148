-- ===== src/CallSite/Barrier/Progress.antt =====
-- Progress behind and before the start barrier of call_site_latency_bench.h, by a measure on the threads.
use logger_benchmarks.Prelude.{
  ℕ, zero, suc, ◌+◌, ◌^◌, ◌<◌, ◌≡◌, arith, Bool, true, false, [], ◌∷◌, length, inl, inr, not, ◌⊎◌,
}
use logger_benchmarks.CallSite.Producer.{Produced}
use logger_benchmarks.CallSite.Barrier.Family.{update, weight, weight-update, weight_ones, find}
use logger_benchmarks.CallSite.Barrier.Defs.{
  Place, starting, spinning, running, System, Move, warm, arrive, pass, act, Step, turn, spawned,
  Reach, start, later, finished,
}
use logger_benchmarks.CallSite.Barrier.Invariant.{arrivals, Counts, Reach-Counts}

module _ {Double : Type 0} where
  -- the steps that a thread has before it, if nothing holds it up
  abbrev rank : Place Double → ℕ
  rank (starting past todo measured) = length todo + length measured + 2
  rank (spinning past measured) = length measured + 1
  rank (running past todo) = length todo

  -- a thread that no other can hold up
  abbrev free : Place Double → Bool
  free (starting _ _ _) = true
  free (spinning _ _) = false
  free (running _ []) = false
  free (running _ (_ ∷ _)) = true

  -- A move of a thread that brings it nearer to its end.
  abbrev Forward : ℕ → ℕ → Place Double → Type 0
  Forward n started p =
      (started' : ℕ) × (p' : Place Double) × Move Double n started p started' p'
      × (rank p' < rank p)

  free-Forward : (n started : ℕ) (p : Place Double) → free p ≡ true → Forward n started p
  free-Forward n started (starting past [] m) h = (_, _, arrive, omega arith)
  free-Forward n started (starting past (a ∷ as_) m) h = (_, _, warm, omega arith)
  free-Forward n started (spinning past m) h = cc
  free-Forward n started (running past []) h = cc
  free-Forward n started (running past (a ∷ as_)) h = (_, _, act, omega arith)

  held-Forward :
      (n started : ℕ) (p : Place Double)
      → free p ≡ false
      → finished Double p ≡ false
      → started ≡ n
      → Forward n started p
  held-Forward n started (starting past todo m) h k full = cc
  held-Forward n started (spinning past m) h k full = (_, _, pass full, omega arith)
  held-Forward n started (running past []) h k full = cc
  held-Forward n started (running past (a ∷ as_)) h k full = cc

  none_free-full :
      (n started : ℕ) (place : ℕ → Place Double)
      → Counts n started place
      → ((i : ℕ) → i < n → free (place i) ≡ false)
      → started ≡ n
  none_free-full n started place inv h =
      omega (arith, inv.counted, weight_ones arrivals place n (λ j lt. ground (arith, h j lt)))

  -- Some thread can go forward, or all have finished.
  forward :
      (n started : ℕ) (place : ℕ → Place Double)
      → Counts n started place
      → ((i : ℕ) × (i < n) × Forward n started (place i))
        ⊎ ((i : ℕ) → i < n → finished Double (place i) ≡ true)
  forward n started place inv = elim (find free place n) [
    | inl (i, lt, e) ↦ inl (i, lt, free-Forward n started (place i) e)
    | inr none_free ↦ elim (find (λ p. not (finished Double p)) place n) [
      | inl (i, lt, e) ↦ inl (
        i,
        lt,
        held-Forward n started (place i) (none_free i lt) (ground arith)
            (none_free-full n started place inv none_free),
      )
      | inr all ↦ inr (λ i h. ground (arith, all i h))
    ]
  ]

  after_step :
      {n : ℕ} {s t u : System Double} → Step Double n s t → Reach Double n t u → Reach Double n s u
  after_step st start = later start st
  after_step st (later r next) = later (after_step st r) next

  finish :
      (n : ℕ) (threads : ℕ → Produced Double)
      → n < 2 ^ 64
      → (k : ℕ) (s : System Double) → weight rank s.place n < k
      → Reach Double n (spawned Double threads) s
      → (t : System Double) × Reach Double n s t
        × ((i : ℕ) → i < n → finished Double (t.place i) ≡ true)
  finish n threads few zero s h r = absurd (omega arith)
  finish n threads few (suc k) s h r =
      elim (forward n s.started s.place (Reach-Counts n threads few r)) [
        | inr all ↦ (s, start, all)
        | inl (i, lt, go) ↦
            let (started, p, mv, less) = go in
            let st = turn i lt mv in
            let (t, on, all) =
              finish n threads few k (record { started = started; place = update s.place i p })
                (omega (arith, weight-update rank s.place i p n lt)) (later r st) in
            (t, after_step st on, all)
      ]

  -- From every state that an interleaving of fewer than 2^64 threads can reach, the run can go on
  -- until all its threads have returned.
  pub no_deadlock :
      (n : ℕ) (threads : ℕ → Produced Double)
      → n < 2 ^ 64
      → (s : System Double) → Reach Double n (spawned Double threads) s
      → (t : System Double) × Reach Double n s t
        × ((i : ℕ) → i < n → finished Double (t.place i) ≡ true)
  no_deadlock n threads few s r = finish n threads few (weight rank s.place n + 1) s (omega arith) r
