-- ===== src/Latency/Streams.antt =====
-- benchmark_g3log_call_site_latency.cpp and benchmark_iyengar_nanolog_call_site_latency.cpp, which log
-- by `<<`.
use logger_benchmarks.Prelude.{ℕ, Option, some, none, List, [], ◌∷◌, codes, String}
use logger_benchmarks.Call.{
  BenchType, int_int_double, int_int_largestr, vector_largestr, info, PayloadOf, num, real, str,
  lit, Call, set_affinity, remove_file, sleep_for, lib, stream,
}
use logger_benchmarks.Latency.Program.{Program}

-- both lambdas insert the same; `entry` is `LOG(INFO)` or `LOG_INFO`
stream_log_func :
    {Double : Type 0}
    → String
    → (t : BenchType) → Option (ℕ → ℕ → PayloadOf Double t → List (Call Double))
stream_log_func entry int_int_double = some λ i j d.
    stream entry info
      (lit "Logging int: " ∷ num i ∷ lit ", int: " ∷ num j ∷ lit ", double: " ∷ real d ∷ [])
    ∷ []
stream_log_func entry int_int_largestr = some λ i j s.
    stream entry info
      (lit "Logging int: " ∷ num i ∷ lit ", int: " ∷ num j ∷ lit ", string: " ∷ str s ∷ [])
    ∷ []
stream_log_func entry vector_largestr = none

unfoldable pub g3log : {Double : Type 0} → Program Double
unfolding stream_log_func
g3log = record {
  setup =
      remove_file "g3log_call_site_latency_percentile_linux_benchmark.log"
      ∷ set_affinity 5
      ∷ lib "g3::LogWorker::createLogWorker" []
      ∷ lib "worker->addDefaultLogger" (lit "g2log_logger" ∷ lit "./" ∷ [])
      ∷ lib "g3::initializeLogging" (lit "worker.get()" ∷ [])
      ∷ sleep_for 1_000_000_000
      ∷ [];
  log_func = stream_log_func "LOG(INFO)";
  on_start = stream "LOG(INFO)" info (lit "Warm up" ∷ []) ∷ sleep_for 1_000_000_000 ∷ [];
  on_exit = [];
  benchmark_name = λ _. codes "Logger: G3Log - Benchmark: Caller Thread Latency";
  cleanup = [];
}

unfoldable pub iyengar_nanolog : {Double : Type 0} → Program Double
unfolding stream_log_func
iyengar_nanolog = record {
  setup =
      remove_file "iyengar_nanoLog_call_site_latency_percentile_linux_benchmark.log"
      ∷ set_affinity 5
      ∷ lib "nanolog::initialize" (
          lit "nanolog::GuaranteedLogger()"
          ∷ lit "./"
          ∷ lit "iyengar_nanoLog_call_site_latency_percentile_linux_benchmark.log"
          ∷ num 10_240
          ∷ [])
      ∷ sleep_for 1_000_000_000
      ∷ [];
  log_func = stream_log_func "LOG_INFO";
  on_start = stream "LOG_INFO" info (lit "Warm up" ∷ []) ∷ sleep_for 1_000_000_000 ∷ [];
  on_exit = [];
  benchmark_name = λ _. codes "Logger: Iyengar NanoLog - Benchmark: Caller Thread Latency";
  cleanup = [];
}
