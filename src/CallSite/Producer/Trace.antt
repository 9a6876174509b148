-- ===== src/CallSite/Producer/Trace.antt =====
-- What `run_log_benchmark` has done when it ends, in closed form.
use mathlib.Core.Path.{subst}
use logger_benchmarks.Prelude.{
  ℕ, zero, suc, ◌+◌, ◌≡◌, refl, arith, Bool, true, false, ◌==◌, List, [], ◌∷◌, ◌++◌, map,
  concat_upto,
}
use logger_benchmarks.Platform.Doubles.{Doubles}
use logger_benchmarks.Platform.Random.{Random}
use logger_benchmarks.Platform.Outcome.{
  returned, set_thread_affinity, >>=-eq-returned, returned-injective,
}
use logger_benchmarks.Call.{BenchType, Call, set_affinity}
use logger_benchmarks.CallSite.Wait.{Pacing, wait}
use logger_benchmarks.CallSite.Payload.{payload, payload_seed}
use logger_benchmarks.CallSite.Producer.Defs.{
  Action, call, stamp, pause, Callbacks, Readings, Produced, Local, latency_of, iterate, entry,
  run_log_benchmark,
}

module _ (R : Random) (F : Doubles) (t : BenchType) (cb : Callbacks F.Double t) (r : Readings)
    (messages thread : ℕ) (tick : F.Double) where
  -- The engine before iteration `i`, after the draws of the iterations before it.
  unfoldable pub engine_at : ℕ → R.Engine
  engine_at zero = R.seed (payload_seed thread)
  engine_at (suc i) = (payload R F t i (engine_at i)).1

  -- The calls of iteration `i`: every message of it, with the same value.
  unfoldable pub messages_of : ℕ → List (Call F.Double)
  messages_of i = concat_upto messages (λ j. cb.log_func i j (payload R F t i (engine_at i)).0)

  -- Iteration `i`: the messages stand between the two readings of the counter, the pause behind them.
  unfoldable pub iteration : ℕ → List (Action F.Double)
  unfolding messages_of
  iteration i = stamp ∷ map call (messages_of i) ++ stamp ∷ pause ∷ []

  -- The state of the loop before iteration `i` agrees with the closed form.
  record IsAt (i : ℕ) (s : Local R F t) : Type 0 where
    engine : s.gen ≡ engine_at i
    acts : s.actions ≡ concat_upto i iteration
    samples : s.latencies ≡ concat_upto i (λ k. latency_of R F t cb r messages thread tick k ∷ [])

  entry-IsAt : IsAt 0 (entry R F t cb r messages thread tick)
  unfolding entry engine_at concat_upto
  entry-IsAt = record { engine = refl; acts = refl; samples = refl }

  -- what one round makes of the state, with the given pacing behind it
  abbrev after_round : ℕ → Local R F t → Pacing R → Local R F t
  after_round i s pacing =
      let v = payload R F t i s.gen in
      record {
        gen = v.1;
        pacing = pacing;
        actions =
            s.actions
            ++ (stamp ∷ map call (concat_upto messages (λ j. cb.log_func i j v.0))
                ++ stamp ∷ pause ∷ []);
        latencies = s.latencies ++ latency_of R F t cb r messages thread tick i ∷ [];
      }

  after_round-IsAt :
      (i : ℕ) (s : Local R F t) (p : Pacing R) → IsAt i s → IsAt (suc i) (after_round i s p)
  unfolding engine_at iteration messages_of concat_upto
  after_round-IsAt i s p at = record {
    engine = rw at.engine;
    acts = rw (at.engine, at.acts);
    samples = rw at.samples;
  }

  iterate-IsAt :
      (left i : ℕ) (s : Local R F t) {s' : Local R F t}
      → IsAt i s
      → iterate R F t cb r messages thread tick left i s ≡ returned s'
      → IsAt (i + left) s'
  unfolding iterate
  iterate-IsAt zero i s {s'} at h =
      let same = returned-injective s s' h in
      subst (λ k. IsAt k s') {x = i} (omega arith) (subst (IsAt i) same at)
  iterate-IsAt (suc left) i s {s'} at h =
      let (p, waited, rest) = >>=-eq-returned (wait R _ _ _ _ _ _) _ h in
      let next =
        subst (λ k. IsAt k (after_round i s p)) {x = suc i} {y = i + 1} (omega arith)
          (after_round-IsAt i s p at) in
      subst (λ k. IsAt k s') {x = i + 1 + left} (omega arith)
        (iterate-IsAt left (i + 1) (after_round i s p) next rest)

  -- What a producer with something to log leaves, if it ends.
  abbrev pub Closed : ℕ → Produced F.Double → Type 0
  Closed n p =
      (p.warm_up ≡ call (set_affinity thread) ∷ map call cb.on_thread_start)
      × (p.measured ≡ concat_upto n iteration ++ map call cb.on_thread_exit)
      × (p.latencies ≡ concat_upto n (λ i. latency_of R F t cb r messages thread tick i ∷ []))

  -- A producer that has messages to log and ends has pinned its CPU and warmed up; then, in every
  -- iteration, logged all its messages between two readings of the counter and paused; then called
  -- the exit callback; its samples are those of its iterations, in order.
  pub run_log_benchmark-Closed :
      (allowed : ℕ → Bool) (n : ℕ) {p : Produced F.Double}
      → (messages == 0) ≡ false
      → run_log_benchmark R F t cb r messages thread tick allowed n ≡ returned p
      → Closed n p
  unfolding run_log_benchmark
  run_log_benchmark-Closed allowed n {p} some_messages h =
      let (_, _, body) = >>=-eq-returned (set_thread_affinity allowed thread) _ h in
      let (s, ran, out) =
        >>=-eq-returned (iterate R F t cb r messages thread tick n 0 _) _
          (rw some_messages at body) in
      let at =
        subst (λ k. IsAt k s) {x = 0 + n} {y = n} (omega arith)
          (iterate-IsAt n 0 _ entry-IsAt ran) in
      subst (Closed n) (returned-injective _ p out) (refl, rw at.acts, at.samples)

  -- A producer with no messages, whose CPU may be set, does its warm-up, goes from the barrier to
  -- the exit callback and leaves no sample.
  pub run_log_benchmark_idle :
      (allowed : ℕ → Bool) (n : ℕ)
      → messages ≡ 0
      → allowed thread ≡ true
      → run_log_benchmark R F t cb r messages thread tick allowed n
        ≡ returned (record {
          warm_up = call (set_affinity thread) ∷ map call cb.on_thread_start;
          measured = map call cb.on_thread_exit;
          latencies = [];
        })
  unfolding run_log_benchmark set_thread_affinity
  run_log_benchmark_idle allowed n none_left permitted = ground arith
