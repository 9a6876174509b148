-- ===== src/Latency/Workers.antt =====
-- The programs of the libraries with a worker thread of their own:
-- benchmark_{bqlog,platformlab_nanolog,reckless,spdlog,xtr}_call_site_latency.cpp.
use logger_benchmarks.Prelude.{
  ℕ, false, Option, none, some, List, [], ◌∷◌, ◌++◌, codes, ◌==◌, ◌&&◌, if◌then◌else◌,
}
use logger_benchmarks.Call.{
  BenchType, int_int_double, int_int_largestr, vector_largestr, info, notice, PayloadOf, num, real,
  str, strs, lit, flag, Call, set_affinity, set_pthread_affinity, remove_file, sleep_for, lib, log,
}
use logger_benchmarks.Latency.Program.{Program}

-- In the vector lambda the call of the library is commented out.
bqlog_log_func :
    {Double : Type 0} → (t : BenchType) → Option (ℕ → ℕ → PayloadOf Double t → List (Call Double))
bqlog_log_func int_int_double = some λ i j d.
    log "log_obj.info" info "Logging int: {}, int: {}, double: {}" (num i ∷ num j ∷ real d ∷ [])
    ∷ []
bqlog_log_func int_int_largestr = some λ i j s.
    log "log_obj.info" info "Logging int: {}, int: {}, string: {}" (num i ∷ num j ∷ str s ∷ []) ∷ []
bqlog_log_func vector_largestr = some λ i j s. []

unfoldable pub bqlog : {Double : Type 0} → Program Double
unfolding bqlog_log_func
bqlog = record {
  setup =
      lib "bq::log::create_log" (
        lit "text"
        ∷ lit "log.buffer_size=131072"
        ∷ lit "log.thread_mode=async"
        ∷ lit "log.reliable_level=normal"
        ∷ lit "appenders_config.appender_0.type=text_file"
        ∷ lit "appenders_config.appender_0.levels=[all]"
        ∷ lit
            "appenders_config.appender_0.file_name= bqlog_call_site_latency_percentile_linux_benchmark.log"
        ∷ lit "appenders_config.appender_0.capacity_limit= 1"
        ∷ [])
      ∷ [];
  log_func = bqlog_log_func;
  on_start = log "log_obj.info" info "Warm up" [] ∷ lib "log_obj.force_flush" [] ∷ [];
  on_exit = [];
  benchmark_name = λ _. codes "Logger: bqlog - Benchmark: Caller Thread Latency";
  cleanup = [];
}

platformlab_log_func :
    {Double : Type 0} → (t : BenchType) → Option (ℕ → ℕ → PayloadOf Double t → List (Call Double))
platformlab_log_func int_int_double = some λ i j d.
    log "NANO_LOG" notice "Logging int: %lu, int: %lu, double: %f" (num i ∷ num j ∷ real d ∷ [])
    ∷ []
platformlab_log_func int_int_largestr = some λ i j s.
    log "NANO_LOG" notice "Logging int: %lu, int: %lu, string: %s" (num i ∷ num j ∷ str s ∷ []) ∷ []
platformlab_log_func vector_largestr = none

unfoldable pub platformlab_nanolog : {Double : Type 0} → Program Double
unfolding platformlab_log_func
platformlab_nanolog = record {
  setup =
      remove_file "platformlab_nanolog_call_site_latency_percentile_linux_benchmark.log"
      ∷ set_affinity 5
      ∷ lib "NanoLog::setLogFile"
          (lit "platformlab_nanolog_call_site_latency_percentile_linux_benchmark.log" ∷ [])
      ∷ sleep_for 1_000_000_000
      ∷ [];
  log_func = platformlab_log_func;
  on_start = log "NANO_LOG" notice "Warm up" [] ∷ lib "NanoLog::sync" [] ∷ [];
  on_exit = [];
  benchmark_name = λ _. codes "Logger: PlatformLab NanoLog - Benchmark: Caller Thread Latency";
  cleanup = [];
}

reckless_log_func :
    {Double : Type 0} → (t : BenchType) → Option (ℕ → ℕ → PayloadOf Double t → List (Call Double))
reckless_log_func int_int_double = some λ i j d.
    log "g_log.info" info "Logging int: %d, int: %d, double: %f" (num i ∷ num j ∷ real d ∷ []) ∷ []
reckless_log_func int_int_largestr = some λ i j s.
    log "g_log.info" info "Logging int: %i, int: %d, string: %s" (num i ∷ num j ∷ str s ∷ []) ∷ []
reckless_log_func vector_largestr = none

unfoldable pub reckless : {Double : Type 0} → Program Double
unfolding reckless_log_func
reckless = record {
  setup =
      remove_file "reckless_call_site_latency_percentile_linux_benchmark.log"
      ∷ lib "reckless::file_writer"
          (lit "reckless_call_site_latency_percentile_linux_benchmark.log" ∷ [])
      ∷ lib "log_t" (lit "&writer" ∷ num 524_288 ∷ num 134_217_728 ∷ [])
      ∷ lib "g_log.permanent_error_policy" (lit "reckless::error_policy::block" ∷ [])
      ∷ lib "g_log.temporary_error_policy" (lit "reckless::error_policy::block" ∷ [])
      ∷ set_pthread_affinity "g_log.worker_thread().native_handle()" 5
      ∷ sleep_for 1_000_000_000
      ∷ [];
  log_func = reckless_log_func;
  on_start = log "g_log.info" info "Warm up" [] ∷ lib "g_log.flush" [] ∷ [];
  on_exit = [];
  benchmark_name = λ _. codes "Logger: Reckless - Benchmark: Caller Thread Latency";
  cleanup = [];
}

spdlog_log_func :
    {Double : Type 0} → (t : BenchType) → Option (ℕ → ℕ → PayloadOf Double t → List (Call Double))
spdlog_log_func int_int_double = some λ i j d.
    log "SPDLOG_LOGGER_INFO" info "Logging int: {}, int: {}, double: {}"
      (num i ∷ num j ∷ real d ∷ [])
    ∷ []
spdlog_log_func int_int_largestr = some λ i j s.
    log "SPDLOG_LOGGER_INFO" info "Logging int: {}, int: {}, string: {}"
      (num i ∷ num j ∷ str s ∷ [])
    ∷ []
spdlog_log_func vector_largestr = some λ i j s.
    log "SPDLOG_LOGGER_INFO" info "Logging int: {}, int: {}, vector: {}"
      (num i ∷ num j ∷ strs s ∷ [])
    ∷ []

-- `on_backend_start`, which the thread pool's worker calls
unfoldable pub spdlog_on_backend_start : {Double : Type 0} → List (Call Double)
spdlog_on_backend_start = set_affinity 5 ∷ []

unfoldable pub spdlog : {Double : Type 0} → Program Double
unfolding spdlog_log_func
spdlog = record {
  setup =
      remove_file "spdlog_call_site_latency_percentile_linux_benchmark.log"
      ∷ lib "spdlog::set_automatic_registration" (flag false ∷ [])
      ∷ lib "spdlog::init_thread_pool" (num 8_388_608 ∷ num 1 ∷ lit "on_backend_start" ∷ [])
      ∷ lib "spdlog::sinks::basic_file_sink_st"
          (lit "spdlog_call_site_latency_percentile_linux_benchmark.log" ∷ [])
      ∷ lib "spdlog::thread_pool" []
      ∷ lib "spdlog::async_logger" (
          lit "bench_logger"
          ∷ lit "sink"
          ∷ lit "spdlog::thread_pool()"
          ∷ lit "spdlog::async_overflow_policy::block"
          ∷ [])
      ∷ lib "logger->set_pattern" (lit "%T.%F [%t] %s:%# %l     %n - %v" ∷ [])
      ∷ sleep_for 1_000_000_000
      ∷ [];
  log_func = spdlog_log_func;
  on_start = log "SPDLOG_LOGGER_INFO" info "Warm up" [] ∷ lib "logger->flush" [] ∷ [];
  on_exit = [];
  benchmark_name = λ _. codes "Logger: Spdlog - Benchmark: Caller Thread Latency";
  cleanup = [];
}

-- `thread_local auto sink = log.get_sink("main")`: made by the first call of the lambda in a thread,
-- which the harness makes at i = 0, j = 0.
xtr_sink : {Double : Type 0} → ℕ → ℕ → List (Call Double)
xtr_sink i j = if i == 0 && j == 0 then lib "log.get_sink" (lit "main" ∷ []) ∷ [] else []

xtr_log_func :
    {Double : Type 0} → (t : BenchType) → Option (ℕ → ℕ → PayloadOf Double t → List (Call Double))
xtr_log_func int_int_double = some λ i j d.
    xtr_sink i j
    ++ log "XTR_LOGL_TSC" info "Logging int: {}, int: {}, double: {}" (num i ∷ num j ∷ real d ∷ [])
      ∷ []
xtr_log_func int_int_largestr = some λ i j s.
    xtr_sink i j
    ++ log "XTR_LOGL_TSC" info "Logging int: {}, int: {}, string: {}" (num i ∷ num j ∷ str s ∷ [])
      ∷ []
xtr_log_func vector_largestr = some λ i j s.
    xtr_sink i j
    ++ log "XTR_LOGL_TSC" info "Logging int: {}, int: {}, vector: {}" (num i ∷ num j ∷ strs s ∷ [])
      ∷ []

unfoldable pub xtr : {Double : Type 0} → Program Double
unfolding xtr_sink xtr_log_func
xtr = record {
  setup =
      remove_file "xtr_call_site_latency_percentile_linux_benchmark.log"
      ∷ lib "xtr::logger" (lit "xtr_call_site_latency_percentile_linux_benchmark.log" ∷ [])
      ∷ set_pthread_affinity "log.consumer_thread_native_handle()" 5
      ∷ sleep_for 1_000_000_000
      ∷ [];
  log_func = xtr_log_func;
  on_start =
      lib "log.get_sink" (lit "main" ∷ [])
      ∷ log "XTR_LOGL_TSC" info "Warm up" []
      ∷ lib "sink.sync" []
      ∷ [];
  on_exit = [];
  benchmark_name = λ _. codes "Logger: XTR - Benchmark: Caller Thread Latency";
  cleanup = [];
}
