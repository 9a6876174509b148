-- ===== src/CallSite/Run/Ends.antt =====
-- When `run_benchmark` ends, its threads waiting for each other at the start barrier.
use logger_benchmarks.Prelude.{
  ℕ, zero, suc, ◌^◌, ◌<◌, ◌≡◌, refl, sym, ap, ◌∙◌, arith, true, List, [], ◌∷◌, ◌++◌, length, get_or,
  Bytes, append-nil,
}
use logger_benchmarks.Prelude.Int.{ℤ, pos, negsuc}
use logger_benchmarks.Platform.Doubles.{Doubles}
use logger_benchmarks.Platform.Random.{Random, DrawsInRange}
use logger_benchmarks.Platform.Outcome.{returned}
use logger_benchmarks.Call.{BenchType}
use logger_benchmarks.CallSite.Producer.{Callbacks, Produced}
use logger_benchmarks.CallSite.Barrier.{
  Place, starting, spinning, running, System, spawned, Reach, start, finished, done, Follows,
  Reach-Follows, no_deadlock,
}
use logger_benchmarks.CallSite.Run.Defs.{
  Machine, Ran, run_benchmark, run_benchmark-IsRun, no_threads,
}
use logger_benchmarks.CallSite.Run.Total.{IsReady, run_benchmark_total}

-- A count of threads below 0 gives none.
abbrev pub threads_of : ℤ → ℕ
threads_of (pos n) = n
threads_of (negsuc k) = 0

-- the producer of thread `i`
abbrev pub producer_at : {Double : Type 0} → List (Produced Double) → ℕ → Produced Double
producer_at ps i = get_or ps i (record { warm_up = []; measured = []; latencies = [] })

-- In some interleaving of the threads, each gets through the barrier, does all that its producer
-- does, in that order, and returns.
abbrev pub AllReturn : {Double : Type 0} → ℕ → (ℕ → Produced Double) → Type 0
AllReturn {Double = Double} n threads =
    (t : System Double) × Reach Double n (spawned Double threads) t
    × ((i : ℕ)
        → i < n
        → (finished Double (t.place i) ≡ true)
          × (done Double (t.place i) ≡ (threads i).warm_up ++ (threads i).measured))

finished-done :
    {Double : Type 0} (x : Produced Double) (p : Place Double)
    → finished Double p ≡ true
    → Follows x p
    → done Double p ≡ x.warm_up ++ x.measured
finished-done x (starting past todo measured) h f = cc
finished-done x (spinning past measured) h f = cc
finished-done x (running past []) h (more, e, m) =
    e ∙ ap (λ l. x.warm_up ++ l) (sym (append-nil more) ∙ m)
finished-done x (running past (a ∷ as_)) h f = cc

all_return :
    {Double : Type 0} (n : ℕ) (threads : ℕ → Produced Double) → n < 2 ^ 64 → AllReturn n threads
all_return {Double = Double} n threads few =
    let (t, reached, all) = no_deadlock n threads few (spawned Double threads) start in
    (
      t,
      reached,
      λ i lt. (
        all i lt,
        finished-done (threads i) (t.place i) (all i lt) (Reach-Follows n threads reached i),
      ),
    )

module _ (R : Random) (draws : DrawsInRange R) (F : Doubles) (t : BenchType) (m : Machine)
    (cb : Callbacks F.Double t) (num_iterations messages : ℕ) where
  -- If draws lie in their range, a run with any count of threads, fewer than 2^64, ends on a
  -- machine with a CPU for main and for each thread, and clocks that advance; it has one producer
  -- per thread, and in some interleaving of the threads at the start barrier each of them gets
  -- through it, does all that its producer does, in that order, and returns.
  pub run_benchmark_ends :
      (benchmark_name : Bytes) (count : ℤ)
      → IsReady m (threads_of count)
      → threads_of count < 2 ^ 64
      → (x : Ran F.Double) × (run_benchmark R F t m cb num_iterations messages benchmark_name count
          ≡ returned x)
        × (length x.producers ≡ threads_of count)
        × AllReturn (threads_of count) (producer_at x.producers)
  unfolding run_benchmark no_threads
  run_benchmark_ends name (negsuc k) ready few =
      (no_threads name, refl, refl, all_return 0 (producer_at []) (omega arith))
  run_benchmark_ends name (pos zero) ready few =
      (no_threads name, refl, refl, all_return 0 (producer_at []) (omega arith))
  run_benchmark_ends name (pos (suc k)) ready few =
      let n = suc k in
      let (x, ran) = run_benchmark_total R draws F t m cb num_iterations messages name n ready in
      let run = run_benchmark-IsRun R F t m cb num_iterations messages name n (omega arith) ran in
      (x, ran, run.all_threads, all_return n (producer_at x.producers) few)
