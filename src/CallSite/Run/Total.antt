-- ===== src/CallSite/Run/Total.antt =====
-- When `run_benchmark` ends.
use logger_benchmarks.Prelude.{ℕ, zero, suc, ◌+◌, ◌≤◌, ◌≡◌, refl, arith, true, ◌==◌, List, Bytes}
use logger_benchmarks.Prelude.Int.{pos}
use logger_benchmarks.Platform.Doubles.{Doubles}
use logger_benchmarks.Platform.Random.{Random, DrawsInRange}
use logger_benchmarks.Platform.Outcome.{returned, >>=_returns, else_returns, set_thread_affinity}
use logger_benchmarks.Call.{BenchType}
use logger_benchmarks.CallSite.Share.{messages_for_thread}
use logger_benchmarks.CallSite.Producer.{
  Callbacks, Produced, Advances, run_log_benchmark, run_log_benchmark_total,
}
use logger_benchmarks.CallSite.Ticks.{spin_duration, ns_per_rdtsc_tick, ns_per_rdtsc_tick_total}
use logger_benchmarks.CallSite.Run.Defs.{
  Machine, Ran, spawn, run_threads, run_benchmark, no_threads,
}

-- A machine with the CPUs 0 to `n` on which all clocks advance.
pub record IsReady (m : Machine) (n : ℕ) : Type 0 where
  pub cpus : (cpu : ℕ) → cpu ≤ n → m.allowed cpu ≡ true
  pub advances : (i : ℕ) → Advances (m.readings i)
  pub calibrates :
      (k : ℕ)
      → (m.readings 0).clock k + spin_duration ≤ (m.readings 0).clock (k + (m.readings 0).fuel)

module _ (R : Random) (draws : DrawsInRange R) (F : Doubles) (t : BenchType) (m : Machine)
    (cb : Callbacks F.Double t) (num_iterations messages : ℕ) where
  spawn_total :
      (count n : ℕ) (tick : F.Double) (left i : ℕ)
      → IsReady m n
      → i + left ≤ n
      → (ps : List (Produced F.Double)) × (spawn R F t m cb num_iterations messages count tick left
            i
          ≡ returned ps)
  unfolding spawn
  spawn_total count n tick zero i ready le = (_, refl)
  spawn_total count n tick (suc left) i ready le =
      let (p, ran) =
        run_log_benchmark_total R draws F t cb (m.readings (i + 1)) (ready.advances (i + 1))
          (messages_for_thread messages count i) (i + 1) tick m.allowed num_iterations
          (ready.cpus (i + 1) (omega arith)) in
      let (ps, rans) = spawn_total count n tick left (i + 1) ready (omega arith) in
      >>=_returns (run_log_benchmark R F t cb _ _ _ tick _ _) _ p ran (
        >>=_returns (spawn R F t m cb num_iterations messages count tick left (i + 1)) _ ps rans
          (_, refl))

  -- If draws lie in their range, on a machine with a CPU for main and for each thread, and clocks
  -- that advance, a run ends whatever the count of threads is.
  pub run_benchmark_total :
      (benchmark_name : Bytes) (n : ℕ)
      → IsReady m n
      → (x : Ran F.Double) × (run_benchmark R F t m cb num_iterations messages benchmark_name
            (pos n)
          ≡ returned x)
  unfolding run_benchmark run_threads set_thread_affinity
  run_benchmark_total name zero ready = (no_threads name, refl)
  run_benchmark_total name (suc k) ready =
      let n = suc k in
      let (tick, c) = ns_per_rdtsc_tick_total F (m.readings 0) ready.calibrates in
      let (ps, s) = spawn_total n n tick n 0 ready (omega arith) in
      else_returns (n == 0) _ _ (ground arith) (
        >>=_returns (set_thread_affinity m.allowed 0) _ tt (rw (ready.cpus 0 (omega arith))) (
          >>=_returns (ns_per_rdtsc_tick F (m.readings 0)) _ tick c
            (>>=_returns (spawn R F t m cb num_iterations messages n tick n 0) _ ps s (_, refl))))
