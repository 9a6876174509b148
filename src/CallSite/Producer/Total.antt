-- ===== src/CallSite/Producer/Total.antt =====
-- When `run_log_benchmark` ends, and how many samples it leaves.
use logger_benchmarks.Prelude.{
  ℕ, zero, suc, ◌+◌, ◌≤◌, ◌≡◌, refl, arith, dec_lt, Bool, true, ◌==◌, if◌then◌else◌, length,
  length-concat_upto_one, Bool-cases, inl, inr,
}
use logger_benchmarks.Platform.Doubles.{Doubles}
use logger_benchmarks.Platform.Random.{Random, DrawsInRange}
use logger_benchmarks.Platform.Outcome.{returned, else_returns, >>=_returns, set_thread_affinity}
use logger_benchmarks.Call.{BenchType}
use logger_benchmarks.CallSite.Wait.{wait, wait_total, some_readings_of}
use logger_benchmarks.CallSite.Producer.Defs.{
  min_wait_duration, max_wait_duration, Callbacks, Readings, Produced, Local, iterate, entry,
  run_log_benchmark,
}
use logger_benchmarks.CallSite.Producer.Trace.{run_log_benchmark-Closed, run_log_benchmark_idle}

-- While a pause takes the readings that it may take, the clock advances by the longest pause.
abbrev pub Advances : Readings → Type 0
Advances r = (k : ℕ) → r.clock k + max_wait_duration ≤ r.clock (k + r.fuel)

module _ (R : Random) (draws : DrawsInRange R) (F : Doubles) (t : BenchType)
    (cb : Callbacks F.Double t) (r : Readings) (advances : Advances r) (messages thread : ℕ)
    (tick : F.Double) where
  iterate_total :
      (left i : ℕ) (s : Local R F t)
      → (s' : Local R F t) × (iterate R F t cb r messages thread tick left i s ≡ returned s')
  unfolding iterate
  iterate_total zero i s = (s, refl)
  iterate_total (suc left) i s =
      let some_fuel =
        some_readings_of r.clock r.fuel max_wait_duration (omega arith) (advances 0) in
      let (p, waited) =
        wait_total R draws r.clock min_wait_duration max_wait_duration thread (omega arith) r.fuel
          s.pacing (s.pacing.pos + r.fuel) (omega arith) (omega arith) (advances s.pacing.pos) in
      >>=_returns (wait R _ _ _ _ _ _) _ p waited (iterate_total left (i + 1) _)

  -- A producer ends if draws lie in their range, its CPU may be set, and the clock advances.
  pub run_log_benchmark_total :
      (allowed : ℕ → Bool) (n : ℕ)
      → allowed thread ≡ true
      → (p : Produced F.Double) × (run_log_benchmark R F t cb r messages thread tick allowed n
          ≡ returned p)
  unfolding run_log_benchmark set_thread_affinity
  run_log_benchmark_total allowed n permitted =
      let (s, ran) = iterate_total n 0 (entry R F t cb r messages thread tick) in
      elim (dec_lt 0 messages) [
        | yes busy ↦ >>=_returns (set_thread_affinity allowed thread) _ tt (rw permitted) (
            else_returns (messages == 0) _ _ (ground arith)
              (>>=_returns (iterate R F t cb r messages thread tick n 0 _) _ s ran (_, refl)))
        | no idle ↦ (
          _,
          run_log_benchmark_idle R F t cb r messages thread tick allowed n (omega arith) permitted,
        )
      ]

-- What one producer logs and samples in all.
module _ (R : Random) (F : Doubles) (t : BenchType) (cb : Callbacks F.Double t) (r : Readings)
    (messages thread : ℕ) (tick : F.Double) where
  -- A producer that ends has one sample for each iteration, and none if it has no message to log.
  pub length-latencies :
      (allowed : ℕ → Bool) (n : ℕ) {p : Produced F.Double}
      → run_log_benchmark R F t cb r messages thread tick allowed n ≡ returned p
      → length p.latencies ≡ (if messages == 0 then 0 else n)
  unfolding run_log_benchmark set_thread_affinity
  length-latencies allowed n {p} h = elim (Bool-cases (messages == 0)) [
    | inl idle ↦ ground arith
    | inr busy ↦
        let (_, _, samples) =
          run_log_benchmark-Closed R F t cb r messages thread tick allowed n {p = p} busy h in
        rw (busy, samples) (length-concat_upto_one n _)
  ]
