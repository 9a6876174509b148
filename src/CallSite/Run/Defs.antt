-- ===== src/CallSite/Run/Defs.antt =====
-- `run_benchmark` of call_site_latency_bench.h, and what a run that ends has left.
use mathlib.Core.Path.{subst}
use logger_benchmarks.Prelude.{
  ℕ, zero, suc, ◌+◌, ◌*◌, ◌%◌, ◌^◌, Bool, ◌==◌, if◌then◌else◌, List, [], ◌∷◌, ◌++◌, Bytes, codes,
  length, ◌≡◌, ◌<◌, refl, arith,
}
use logger_benchmarks.Prelude.Int.{ℤ, pos, negsuc}
use logger_benchmarks.Platform.Doubles.{Doubles}
use logger_benchmarks.Platform.Random.{Random}
use logger_benchmarks.Platform.Outcome.{
  Outcome, returned, ◌>>=◌, ◌>>◌, set_thread_affinity, >>=-eq-returned, returned-injective,
}
use logger_benchmarks.Call.{BenchType}
use logger_benchmarks.CallSite.Share.{messages_for_thread}
use logger_benchmarks.CallSite.Producer.{Callbacks, Readings, Produced, run_log_benchmark}
use logger_benchmarks.CallSite.Ticks.{ns_per_rdtsc_tick}
use logger_benchmarks.CallSite.Report.{report, no_samples}

-- The machine: which CPUs a thread may be pinned to, and what each thread reads. Thread 0 is `main`.
pub record Machine : Type 0 where
  pub allowed : ℕ → Bool
  pub readings : ℕ → Readings

-- What a run leaves: what each producer did, in the order of the threads, and the text on `std::cout`.
pub record Ran (Double : Type 0) : Type 0 where
  pub producers : List (Produced Double)
  pub output : Bytes

-- `latencies_combined`: the samples of the threads one after another
unfoldable pub combined : {Double : Type 0} → List (Produced Double) → List ℕ
combined [] = []
combined (p ∷ ps) = p.latencies ++ combined ps

unfoldable pub no_threads : {Double : Type 0} → Bytes → Ran Double
unfolding no_samples
no_threads benchmark_name = record {
  producers = [];
  output = codes "Thread Count 0 - Total messages 0 - " ++ (benchmark_name ++ no_samples);
}

module _ (R : Random) (F : Doubles) (t : BenchType) (m : Machine) (cb : Callbacks F.Double t)
    (num_iterations messages_per_iteration : ℕ) where
  -- the loop that spawns the threads, from `thread_num` on; thread `thread_num` is number
  -- `thread_num + 1`. An exception that leaves a thread ends the process.
  unfoldable pub spawn :
      (thread_count : ℕ) → F.Double → (left thread_num : ℕ) → Outcome (List (Produced F.Double))
  spawn thread_count tick zero thread_num = returned []
  spawn thread_count tick (suc left) thread_num = do
    p ←
        run_log_benchmark R F t cb (m.readings (thread_num + 1))
          (messages_for_thread messages_per_iteration thread_count thread_num) (thread_num + 1) tick
          m.allowed num_iterations
    ps ← spawn thread_count tick left (thread_num + 1)
    returned (p ∷ ps)

  unfoldable pub run_threads : Bytes → ℕ → Outcome (Ran F.Double)
  unfolding spawn combined
  run_threads benchmark_name thread_count = do
    set_thread_affinity m.allowed 0
    ns_rdtsc_tick ← ns_per_rdtsc_tick F (m.readings 0)
    ps ← spawn thread_count ns_rdtsc_tick thread_count 0
    let total_messages = num_iterations * messages_per_iteration % 2 ^ 64
    returned (record {
      producers = ps;
      output = report F thread_count total_messages benchmark_name (combined ps);
    })

  unfoldable pub run_benchmark : Bytes → ℤ → Outcome (Ran F.Double)
  unfolding run_threads no_threads
  run_benchmark benchmark_name (pos thread_count) =
      if thread_count == 0
      then returned (no_threads benchmark_name)
      else run_threads benchmark_name thread_count
  run_benchmark benchmark_name (negsuc k) = returned (no_threads benchmark_name)

  -- The producers `ps` are those of the threads from `thread_num` on.
  abbrev pub Spawned : ℕ → F.Double → ℕ → List (Produced F.Double) → Type 0
  Spawned thread_count tick thread_num [] = Unit
  Spawned thread_count tick thread_num (p ∷ ps) =
      (run_log_benchmark R F t cb (m.readings (thread_num + 1))
          (messages_for_thread messages_per_iteration thread_count thread_num) (thread_num + 1) tick
          m.allowed num_iterations
        ≡ returned p)
      × Spawned thread_count tick (thread_num + 1) ps

  pub spawn-Spawned :
      (n : ℕ) (tick : F.Double) (left i : ℕ) {ps : List (Produced F.Double)}
      → spawn n tick left i ≡ returned ps
      → (length ps ≡ left) × Spawned n tick i ps
  unfolding spawn
  spawn-Spawned n tick zero i {ps} h =
      subst (λ qs. (length qs ≡ 0) × Spawned n tick i qs) (returned-injective [] ps h) (refl, tt)
  spawn-Spawned n tick (suc left) i {ps} h =
      let (p, ran, more) = >>=-eq-returned (run_log_benchmark R F t cb _ _ _ tick _ _) _ h in
      let (qs, rans, out) = >>=-eq-returned (spawn n tick left (i + 1)) _ more in
      let (exact, rest) = spawn-Spawned n tick left (i + 1) rans in
      subst (λ rs. (length rs ≡ suc left) × Spawned n tick i rs)
        (returned-injective (p ∷ qs) ps out) (omega (arith, exact), (ran, rest))

  -- What a run that ends has left, for a positive count of threads.
  pub record IsRun (benchmark_name : Bytes) (thread_count : ℕ) (x : Ran F.Double) : Type 0 where
    pub tick : F.Double
    pub calibrated : ns_per_rdtsc_tick F (m.readings 0) ≡ returned tick
    pub all_threads : length x.producers ≡ thread_count
    pub spawned : Spawned thread_count tick 0 x.producers
    pub printed :
        x.output
        ≡ report F thread_count
            (num_iterations * messages_per_iteration % 2 ^ 64)
            benchmark_name
            (combined x.producers)

  -- A run that ends with a positive count of threads has calibrated the counter, has one producer
  -- per thread, each the result of run_log_benchmark with its share of the messages, and has
  -- printed the report of all their samples.
  pub run_benchmark-IsRun :
      (benchmark_name : Bytes) (n : ℕ) {x : Ran F.Double}
      → 0 < n
      → run_benchmark benchmark_name (pos n) ≡ returned x
      → IsRun benchmark_name n x
  unfolding run_benchmark run_threads
  run_benchmark-IsRun name n {x} positive h =
      let ran : run_threads name n ≡ returned x = ground arith in
      let (_, _, h₁) = >>=-eq-returned (set_thread_affinity m.allowed 0) _ ran in
      let (tick, c, h₂) = >>=-eq-returned (ns_per_rdtsc_tick F (m.readings 0)) _ h₁ in
      let (ps, s, out) = >>=-eq-returned (spawn n tick n 0) _ h₂ in
      let (exact, spawned) = spawn-Spawned n tick n 0 s in
      subst (IsRun name n) (returned-injective _ x out) (record {
        tick = tick;
        calibrated = c;
        all_threads = exact;
        spawned = spawned;
        printed = refl;
      })
