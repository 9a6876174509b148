-- ===== src/Latency/Fmt.antt =====
-- benchmark_fmtlog_call_site_latency.cpp and benchmark_ms_binlog_call_site_latency.cpp, whose backend
-- threads are loops of the programs themselves: see `Drain` for these.
use logger_benchmarks.Prelude.{ℕ, Option, some, true, List, [], ◌∷◌, codes}
use logger_benchmarks.Call.{
  BenchType, int_int_double, int_int_largestr, vector_largestr, info, PayloadOf, num, real, str,
  strs, lit, flag, Call, remove_file, sleep_for, start_backend, store_done, join_backend, lib, log,
}
use logger_benchmarks.Latency.Program.{Program}

fmtlog_log_func :
    {Double : Type 0} → (t : BenchType) → Option (ℕ → ℕ → PayloadOf Double t → List (Call Double))
fmtlog_log_func int_int_double = some λ i j d.
    log "FMTLOG" info "Logging int: {}, int: {}, double: {}" (num i ∷ num j ∷ real d ∷ []) ∷ []
fmtlog_log_func int_int_largestr = some λ i j s.
    log "FMTLOG" info "Logging int: {}, int: {}, string: {}" (num i ∷ num j ∷ str s ∷ []) ∷ []
fmtlog_log_func vector_largestr = some λ i j s.
    log "FMTLOG" info "Logging int: {}, int: {}, vector: {}" (num i ∷ num j ∷ strs s ∷ []) ∷ []

unfoldable pub fmtlog : {Double : Type 0} → Program Double
unfolding fmtlog_log_func
fmtlog = record {
  setup =
      remove_file "fmtlog_call_site_latency_percentile_linux_benchmark.log"
      ∷ lib "fmtlog::setLogFile"
          (lit "fmtlog_call_site_latency_percentile_linux_benchmark.log" ∷ flag true ∷ [])
      ∷ start_backend
      ∷ sleep_for 1_000_000_000
      ∷ [];
  log_func = fmtlog_log_func;
  on_start = log "FMTLOG" info "Warm up" [] ∷ sleep_for 1_000_000_000 ∷ [];
  on_exit = [];
  benchmark_name = λ _. codes "Logger: fmtlog - Benchmark: Caller Thread Latency";
  cleanup = store_done ∷ join_backend ∷ [];
}

ms_binlog_log_func :
    {Double : Type 0} → (t : BenchType) → Option (ℕ → ℕ → PayloadOf Double t → List (Call Double))
ms_binlog_log_func int_int_double = some λ i j d.
    log "BINLOG_INFO" info "Logging int: {}, int: {}, double: {}" (num i ∷ num j ∷ real d ∷ []) ∷ []
ms_binlog_log_func int_int_largestr = some λ i j s.
    log "BINLOG_INFO" info "Logging int: {}, int: {}, string: {}" (num i ∷ num j ∷ str s ∷ []) ∷ []
ms_binlog_log_func vector_largestr = some λ i j s.
    log "BINLOG_INFO" info "Logging int: {}, int: {}, vector: {}" (num i ∷ num j ∷ strs s ∷ []) ∷ []

unfoldable pub ms_binlog : {Double : Type 0} → Program Double
unfolding ms_binlog_log_func
ms_binlog = record {
  setup =
      remove_file "binlog_call_site_latency_percentile_linux_benchmark.blog"
      ∷ start_backend
      ∷ sleep_for 1_000_000_000
      ∷ [];
  log_func = ms_binlog_log_func;
  on_start = log "BINLOG_INFO" info "Warm up" [] ∷ sleep_for 1_000_000_000 ∷ [];
  on_exit = [];
  benchmark_name = λ _. codes "Logger: Ms binLog - Benchmark: Caller Thread Latency";
  cleanup = store_done ∷ join_backend ∷ [];
}
