-- ===== src/Throughput/Workers.antt =====
-- The programs of the libraries with a worker thread of their own:
-- {bqlog,bqlog_binary,nanolog,reckless,spdlog,xtr}_backend_total_time.cpp.
use logger_benchmarks.Prelude.{ℕ, false, ◌==◌, List, [], ◌∷◌, ◌++◌, Bytes, String, codes}
use logger_benchmarks.Platform.Doubles.{Doubles}
use logger_benchmarks.Platform.Outcome.{returned}
use logger_benchmarks.Call.{
  info, notice, error, num, lit, flag, Call, set_affinity, set_pthread_affinity, remove_file, lib,
  log,
}
use logger_benchmarks.Throughput.Program.{Program, arguments, formatted_line, poll_until}

module _ (F : Doubles) where
  open F use {Double}

  -- the two programs of bqlog: the ending of the file's name, and the type of the appender
  bqlog_with : String → String → Bytes → Program F
  unfolding arguments
  bqlog_with ending appender_type date_str = record {
    log_file = codes "benchmark_bqlog_backend_total_time_" ++ (date_str ++ codes ending);
    setup =
        set_affinity 5
        ∷ lib "bq::log::create_log" (
            lit "text"
            ∷ lit "log.buffer_size=131072"
            ∷ lit "log.thread_mode=async"
            ∷ lit "log.reliable_level=normal"
            ∷ lit appender_type
            ∷ lit "appenders_config.appender_0.levels=[all]"
            ∷ lit "appenders_config.appender_0.file_name= benchmark_bqlog_backend_total_time"
            ∷ lit "appenders_config.appender_0.capacity_limit= 1"
            ∷ [])
        ∷ set_affinity 1
        ∷ log "log_obj.info" info "Warm up" []
        ∷ lib "log_obj.force_flush" []
        ∷ [];
    ready = returned [];
    message = λ iteration.
        log "log_obj.info" info "Iteration: {} int: {} double: {}" (arguments F iteration) ∷ [];
    finish = returned (log "log_obj.info" info "End" [] ∷ lib "log_obj.force_flush" [] ∷ []);
    cleanup = [];
    line = formatted_line F;
  }

  -- `date_str` is the local date of the start, as `%Y%m%d`.
  unfoldable pub bqlog : Bytes → Program F
  unfolding bqlog_with
  bqlog = bqlog_with "_1.log" "appenders_config.appender_0.type=text_file"

  unfoldable pub bqlog_binary : Bytes → Program F
  unfolding bqlog_with
  bqlog_binary = bqlog_with "_1.logcompr" "appenders_config.appender_0.type=compressed_file"

  unfoldable pub nanolog : Program F
  unfolding arguments
  nanolog = record {
    log_file = codes "benchmark_nanolog_backend_total_time.blog";
    setup =
        set_affinity 5
        ∷ remove_file "benchmark_nanolog_backend_total_time.blog"
        ∷ lib "NanoLog::setLogFile" (lit "benchmark_nanolog_backend_total_time.blog" ∷ [])
        ∷ set_affinity 1
        ∷ lib "NanoLog::preallocate" []
        ∷ log "NANO_LOG" notice "Warm up" []
        ∷ lib "NanoLog::sync" []
        ∷ [];
    ready = returned [];
    message = λ iteration.
        log "NANO_LOG" notice "Iteration: %lu int: %lu double: %f" (arguments F iteration) ∷ [];
    finish = returned (log "NANO_LOG" error "End" [] ∷ lib "NanoLog::sync" [] ∷ []);
    cleanup = [];
    line = formatted_line F;
  }

  unfoldable pub reckless : Program F
  unfolding arguments
  reckless = record {
    log_file = codes "benchmark_reckless_backend_total_time.log";
    setup =
        set_affinity 1
        ∷ remove_file "benchmark_reckless_backend_total_time.log"
        ∷ lib "reckless::file_writer" (lit "benchmark_reckless_backend_total_time.log" ∷ [])
        ∷ lib "log_t" (lit "&writer" ∷ num 524_288 ∷ num 134_217_728 ∷ [])
        ∷ lib "g_log.permanent_error_policy" (lit "reckless::error_policy::block" ∷ [])
        ∷ lib "g_log.temporary_error_policy" (lit "reckless::error_policy::block" ∷ [])
        ∷ set_pthread_affinity "g_log.worker_thread().native_handle()" 5
        ∷ log "g_log.info" info "Warm up" []
        ∷ lib "g_log.flush" []
        ∷ [];
    ready = returned [];
    message = λ iteration.
        log "g_log.info" info "Iteration: %d, int: %d, double: %f" (arguments F iteration) ∷ [];
    finish = returned (log "g_log.error" error "End" [] ∷ lib "g_log.flush" [] ∷ []);
    cleanup = [];
    line = formatted_line F;
  }

  -- `on_backend_start`, which the thread pool's worker calls
  unfoldable pub spdlog_on_backend_start : List (Call Double)
  spdlog_on_backend_start = set_affinity 5 ∷ []

  -- `queue_size k` is the answer of the pool in round `k` of the wait for an empty queue.
  unfoldable pub spdlog : (ℕ → ℕ) → ℕ → Program F
  unfolding arguments poll_until
  spdlog queue_size fuel = record {
    log_file = codes "benchmark_spdlog_backend_total_time.log";
    setup =
        set_affinity 1
        ∷ remove_file "benchmark_spdlog_backend_total_time.log"
        ∷ lib "spdlog::set_automatic_registration" (flag false ∷ [])
        ∷ lib "spdlog::init_thread_pool" (num 8_388_608 ∷ num 1 ∷ lit "on_backend_start" ∷ [])
        ∷ lib "spdlog::sinks::basic_file_sink_st"
            (lit "benchmark_spdlog_backend_total_time.log" ∷ [])
        ∷ lib "spdlog::thread_pool" []
        ∷ lib "spdlog::async_logger" (
            lit "bench_logger"
            ∷ lit "sink"
            ∷ lit "spdlog::thread_pool()"
            ∷ lit "spdlog::async_overflow_policy::block"
            ∷ [])
        ∷ lib "logger->set_pattern" (lit "%T.%F [%t] %s:%# %l %v" ∷ [])
        ∷ log "SPDLOG_LOGGER_INFO" info "Warm up" []
        ∷ lib "logger->flush" []
        ∷ lib "spdlog::thread_pool" []
        ∷ [];
    ready = poll_until F (λ k. queue_size k == 0) 5_000_000 fuel 0;
    message = λ iteration.
        log "SPDLOG_LOGGER_INFO" info "Iteration: {} int: {} double: {}" (arguments F iteration)
        ∷ [];
    finish = returned (
        log "SPDLOG_LOGGER_ERROR" error "End" []
        ∷ lib "logger->flush" []
        ∷ lib "logger.reset" []
        ∷ lib "spdlog_tp.reset" []
        ∷ lib "spdlog::shutdown" []
        ∷ []);
    cleanup = [];
    line = formatted_line F;
  }

  unfoldable pub xtr : Program F
  unfolding arguments
  xtr = record {
    log_file = codes "benchmark_xtr_backend_total_time.log";
    setup =
        set_affinity 1
        ∷ remove_file "benchmark_xtr_backend_total_time.log"
        ∷ lib "xtr::logger" (lit "benchmark_xtr_backend_total_time.log" ∷ [])
        ∷ set_pthread_affinity "log.consumer_thread_native_handle()" 5
        ∷ lib "log.get_sink" (lit "main" ∷ [])
        ∷ log "XTR_LOGL_TSC" info "Warm up" []
        ∷ lib "sink.sync" []
        ∷ [];
    ready = returned [];
    message = λ iteration.
        log "XTR_LOGL_TSC" info "Iteration: {} int: {} double: {}" (arguments F iteration) ∷ [];
    finish = returned (log "XTR_LOGL_TSC" error "End" [] ∷ lib "sink.sync" [] ∷ []);
    cleanup = [];
    line = formatted_line F;
  }
