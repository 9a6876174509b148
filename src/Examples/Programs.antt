-- ===== src/Examples/Programs.antt =====
-- The theorems on the latency programs, at concrete inputs.
use logger_benchmarks.Prelude.{
  ℕ, ◌+◌, ◌≡◌, refl, arith, true, if◌then◌else◌, ltb, leb, some, List, [], ◌∷◌, ◌++◌, All,
  concat_upto,
}
use logger_benchmarks.Platform.Outcome.{returned}
use logger_benchmarks.Call.{int_int_double, info, num, real, Call, log}
use logger_benchmarks.CallSite.Producer.{Callbacks}
use logger_benchmarks.CallSite.Run.{Ran}
use logger_benchmarks.Latency.Program.{run_with, thread_list_count}
use logger_benchmarks.Latency.Quill.{quill}
use logger_benchmarks.Latency.Targets.{targets}
use logger_benchmarks.Latency.Records.{TargetLogs, targets-TargetLogs}
use logger_benchmarks.Latency.Runs.{KeepsApart, run_with_total}
use logger_benchmarks.Latency.Drain.{
  LoopReads, IsFirst, stops, binlog_backend_latency, binlog_backend_throughput, open_log_file,
  busy_round, pausing_round, binlog_backends-rounds,
}
use logger_benchmarks.Examples.Instances.{
  fractions, lcg, lcg-DrawsInRange, machine, machine-IsReady,
}

targets-TargetLogs_example : All TargetLogs (targets {Double = ℕ × ℕ} true)
targets-TargetLogs_example = targets-TargetLogs (ℕ × ℕ)

abbrev log_func : ℕ → ℕ → ℕ × ℕ → List (Call (ℕ × ℕ))
log_func i j d =
    log "LOG_INFO" info "Logging int: {}, int: {}, double: {}" (num i ∷ num j ∷ real d ∷ []) ∷ []

quill_log_func_example : (quill {Double = ℕ × ℕ}).log_func int_int_double ≡ some log_func
unfolding quill
quill_log_func_example = refl

quill-KeepsApart : KeepsApart (quill {Double = ℕ × ℕ})
unfolding quill
quill-KeepsApart = omega arith

-- Quill's program with two iterations, on a machine where all clocks advance
abbrev quill_ran :
    (xs : List (Ran (ℕ × ℕ))) × (run_with lcg fractions int_int_double
        (λ k. machine)
        quill
        log_func
        thread_list_count
        2
      ≡ returned xs)
quill_ran =
    run_with_total lcg lcg-DrawsInRange fractions int_int_double (λ k. machine)
      (λ k. machine-IsReady 5) quill log_func 2 quill-KeepsApart

abbrev callbacks : Callbacks (ℕ × ℕ) int_int_double
callbacks = record {
  on_thread_start = quill.on_start;
  log_func = log_func;
  on_thread_exit = quill.on_exit;
}

-- `done` is set before round 2, and the rounds 0 and 3 consume nothing.
abbrev rounds : LoopReads
rounds = record {
  done = λ k. leb 2 k;
  consumed = λ k. if ltb 0 k then (if ltb k 3 then 40 else 0) else 0;
  fuel = 6;
}

sees_done : IsFirst rounds.done 2
sees_done = record { holds = refl; before = λ k lt. ground arith }

sees_nothing : IsFirst (stops rounds) 3
sees_nothing = record { holds = refl; before = λ k lt. ground arith }

binlog_backends-rounds_example :
    (binlog_backend_throughput {Double = ℕ} rounds
      ≡ returned (
          open_log_file "benchmark_ms_binlog_backend_total_time.blog"
          ++ concat_upto (3 + 1) (busy_round rounds)))
    × (binlog_backend_latency {Double = ℕ} rounds
        ≡ returned (
            open_log_file "binlog_call_site_latency_percentile_linux_benchmark.blog"
            ++ concat_upto (3 + 1) (pausing_round rounds)))
binlog_backends-rounds_example = binlog_backends-rounds rounds 3 sees_nothing (omega arith)
