-- ===== src/Examples/Harness.antt =====
-- The theorems on the harness of the latency benchmarks, at concrete inputs.
use Prim.Native.Nat.{min}
use logger_benchmarks.Prelude.{
  true, false, ℕ, ◌+◌, ◌*◌, ◌%◌, ◌^◌, ◌<◌, ◌≡◌, refl, arith, none, ltb, leb, List, [], ◌∷◌, Bytes,
  codes, length, get_or, sum_upto,
}
use logger_benchmarks.Prelude.Int.{pos}
use logger_benchmarks.Prelude.Sort.{sort, count_if, IsSorted}
use logger_benchmarks.Platform.Outcome.{returned}
use logger_benchmarks.Call.{vector_largestr, info, num, strs, lib, log}
use logger_benchmarks.CallSite.Share.{messages_for_thread, sum-messages_for_thread}
use logger_benchmarks.CallSite.Wait.{Pacing, spin, wait, IsPause, wait-IsPause, wait_total}
use logger_benchmarks.CallSite.Producer.{
  Callbacks, Produced, run_log_benchmark, min_wait_duration, max_wait_duration, Closed,
  run_log_benchmark-Closed, run_log_benchmark_total,
}
use logger_benchmarks.CallSite.Ticks.{Trial, run_trial, run_trials}
use logger_benchmarks.CallSite.Report.{
  percentile_index, percentile, row, reported_percentiles, percentile-rank, row_in_order, worst-max,
}
use logger_benchmarks.CallSite.Run.{
  Ran, combined, run_benchmark, run_benchmark_total, run_benchmark_ends, AllReturn, producer_at,
  length-combined, calls_of, calls-total_messages,
}
use logger_benchmarks.Examples.Instances.{
  fractions, fractions-IsMonotone, fractions-IsCeiling, lcg, lcg-DrawsInRange, readings, machine,
  readings-Advances, machine-IsReady,
}

abbrev third : ℕ × ℕ
third = (1, 3)

abbrev pub vectors : Callbacks (ℕ × ℕ) vector_largestr
vectors = record {
  on_thread_start = log "LOG_INFO" info "Warm up" [] ∷ [];
  log_func = λ i j v.
      log "LOG_INFO" info "Logging int: {}, int: {}, vector: {}" (num i ∷ num j ∷ strs v ∷ []) ∷ [];
  on_thread_exit = lib "flush_log" [] ∷ [];
}

-- five messages for three threads
shares_of_five :
    (messages_for_thread 5 3 0 ≡ 2)
    × (messages_for_thread 5 3 1 ≡ 2)
    × (messages_for_thread 5 3 2 ≡ 1)
unfolding messages_for_thread
shares_of_five = (refl, refl, refl)

sum-messages_for_thread_example : sum_upto 3 (messages_for_thread 20 3) ≡ 20
sum-messages_for_thread_example = sum-messages_for_thread 20 3 (omega arith) (omega arith)

abbrev first_pause : Pacing lcg
first_pause = record { gen = none; pos = 0 }

abbrev paused :
    (p : Pacing lcg) × (wait lcg 2
        (readings 1).clock
        min_wait_duration
        max_wait_duration
        1
        first_pause
      ≡ returned p)
paused =
    wait_total lcg lcg-DrawsInRange (readings 1).clock min_wait_duration max_wait_duration 1
      (omega arith) 2 first_pause 1 (omega arith) (omega arith) (omega arith)

wait-IsPause_example : IsPause (readings 1).clock min_wait_duration max_wait_duration 0 paused.0.pos
wait-IsPause_example =
    wait-IsPause lcg lcg-DrawsInRange (readings 1).clock min_wait_duration max_wait_duration 1
      (omega arith) 2 first_pause paused.1

-- thread 1 of a run, with three messages in each of two iterations
abbrev produced :
    (p : Produced (ℕ × ℕ)) × (run_log_benchmark lcg fractions vector_largestr vectors
        (readings 1)
        3
        1
        third
        machine.allowed
        2
      ≡ returned p)
produced =
    run_log_benchmark_total lcg lcg-DrawsInRange fractions vector_largestr vectors (readings 1)
      (readings-Advances 1) 3 1 third machine.allowed 2 refl

run_log_benchmark-Closed_example :
    Closed lcg fractions vector_largestr vectors (readings 1) 3 1 third 2 produced.0
run_log_benchmark-Closed_example =
    run_log_benchmark-Closed lcg fractions vector_largestr vectors (readings 1) 3 1 third
      machine.allowed 2 refl produced.1

abbrev pub name : Bytes
name = codes "Example"

-- four threads, for three messages in each of two iterations: the last thread has none to log
abbrev pub ran :
    (x : Ran (ℕ × ℕ)) × (run_benchmark lcg fractions vector_largestr machine vectors 2 3 name
        (pos 4)
      ≡ returned x)
ran =
    run_benchmark_total lcg lcg-DrawsInRange fractions vector_largestr machine vectors 2 3 name 4
      (machine-IsReady 4)

run_benchmark_ends_example :
    (x : Ran (ℕ × ℕ)) × (run_benchmark lcg fractions vector_largestr machine vectors 2 3 name
        (pos 4)
      ≡ returned x)
    × (length x.producers ≡ 4)
    × AllReturn 4 (producer_at x.producers)
run_benchmark_ends_example =
    run_benchmark_ends lcg lcg-DrawsInRange fractions vector_largestr machine vectors 2 3 name
      (pos 4) (machine-IsReady 4) (omega arith)

length-combined_example : length (combined ran.0.producers) ≡ 2 * min 4 3
length-combined_example =
    length-combined lcg fractions vector_largestr machine vectors 2 3 (omega arith) name 4
      (omega arith) ran.1

calls-total_messages_example : calls_of ran.0.producers ≡ 2 * 3 % 2 ^ 64 + 4 * 1
calls-total_messages_example =
    calls-total_messages lcg fractions vector_largestr machine vectors (λ i j v. refl) 2 3
      (omega arith) name 4 (omega arith) (omega arith) ran.1

two_trials :
    run_trials fractions (readings 0) 2 0
    ≡ returned (record { beg = 0; end_ = 1 } ∷ record { beg = 2; end_ = 3 } ∷ [])
unfolding run_trials run_trial spin
two_trials = refl

abbrev calibrated : (xs : List Trial) × (run_trials fractions (readings 0) 2 0 ≡ returned xs)
calibrated = (record { beg = 0; end_ = 1 } ∷ record { beg = 2; end_ = 3 } ∷ [], two_trials)

abbrev samples : List ℕ
samples = 31 ∷ 8 ∷ 120 ∷ 8 ∷ 15 ∷ []

row_of_samples : row fractions (sort ltb samples) ≡ 15 ∷ 31 ∷ 120 ∷ 120 ∷ 120 ∷ 120 ∷ 120 ∷ []
unfolding row reported_percentiles percentile_index sort
row_of_samples = refl

-- Three quarters of five samples are 3.75: 31 is the least sample that four do not exceed.
percentile-rank_example :
    let part = fractions.mul (fractions.of_nat 5) (fractions.decimal 75 2) in
    let v = percentile fractions samples (75, 10 ^ 2) in
    (fractions.less (fractions.of_nat (count_if (λ x. leb x v) samples)) part ≡ false)
    × (fractions.less (fractions.of_nat (count_if (λ x. ltb x v) samples)) part ≡ true)
percentile-rank_example =
    percentile-rank fractions fractions-IsCeiling samples 75 2 (omega arith) (omega arith)
      (omega arith) refl

row_in_order_example : IsSorted (row fractions (sort ltb samples))
row_in_order_example =
    row_in_order fractions fractions-IsMonotone samples (omega arith) (omega arith)

worst-max_example :
    (count_if (λ x. leb x (get_or (row fractions (sort ltb samples)) 6 0)) samples ≡ 5)
    × (count_if (λ x. ltb x (get_or (row fractions (sort ltb samples)) 6 0)) samples < 5)
worst-max_example = worst-max fractions samples (omega arith)
