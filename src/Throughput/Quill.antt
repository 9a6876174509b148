-- ===== src/Throughput/Quill.antt =====
-- quill_backend_total_time.cpp and quill_with_functions_backend_total_time.cpp, which differ in the entry
-- points that they call.
use logger_benchmarks.Prelude.{false, [], ◌∷◌, codes}
use logger_benchmarks.Platform.Doubles.{Doubles}
use logger_benchmarks.Platform.Outcome.{returned}
use logger_benchmarks.Call.{info, error, num, lit, flag, remove_file, lib, log}
use logger_benchmarks.Throughput.Program.{Program, arguments, formatted_line}

module _ (F : Doubles) where
  open F use {Double}

  unfoldable pub quill : Program F
  unfolding arguments
  quill = record {
    log_file = codes "benchmark_quill_backend_total_time.log";
    setup =
        remove_file "benchmark_quill_backend_total_time.log"
        ∷ lib "quill::detail::set_cpu_affinity" (num 1 ∷ [])
        ∷ lib "backend_options.cpu_affinity =" (num 5 ∷ [])
        ∷ lib "backend_options.sleep_duration =" (num 0 ∷ [])
        ∷ lib "quill::Backend::start" (lit "backend_options" ∷ [])
        ∷ lib "cfg.set_open_mode" (lit "w" ∷ [])
        ∷ lib "cfg.set_filename_append_option" (lit "quill::FilenameAppendOption::None" ∷ [])
        ∷ lib "quill::Frontend::create_or_get_sink<quill::FileSink>" (
            lit "benchmark_quill_backend_total_time.log"
            ∷ lit "cfg"
            ∷ lit "quill::FileEventNotifier{}"
            ∷ [])
        ∷ lib "quill::PatternFormatterOptions" (
            lit "%(time) [%(thread_id)] %(short_source_location) %(log_level) %(message)"
            ∷ lit "%H:%M:%S.%Qns"
            ∷ lit "quill::Timezone::GmtTime"
            ∷ flag false
            ∷ [])
        ∷ lib "quill::Frontend::create_or_get_logger" (lit "root" ∷ lit "std::move(file_sink)" ∷ [])
        ∷ log "LOG_INFO" info "Warm up" []
        ∷ lib "logger->flush_log" (num 0 ∷ [])
        ∷ [];
    ready = returned [];
    message = λ iteration.
        log "LOG_INFO" info "Iteration: {} int: {} double: {}" (arguments F iteration) ∷ [];
    finish = returned (log "LOG_ERROR" error "End" [] ∷ lib "logger->flush_log" (num 0 ∷ []) ∷ []);
    cleanup = [];
    line = formatted_line F;
  }

  unfoldable pub quill_with_functions : Program F
  unfolding arguments
  quill_with_functions = record {
    log_file = codes "benchmark_quill_backend_total_time.log";
    setup =
        remove_file "benchmark_quill_backend_total_time.log"
        ∷ lib "quill::detail::set_cpu_affinity" (num 1 ∷ [])
        ∷ lib "backend_options.cpu_affinity =" (num 5 ∷ [])
        ∷ lib "backend_options.sleep_duration =" (num 0 ∷ [])
        ∷ lib "quill::Backend::start" (lit "backend_options" ∷ [])
        ∷ lib "cfg.set_open_mode" (lit "w" ∷ [])
        ∷ lib "cfg.set_filename_append_option" (lit "quill::FilenameAppendOption::None" ∷ [])
        ∷ lib "quill::Frontend::create_or_get_sink<quill::FileSink>" (
            lit "benchmark_quill_backend_total_time.log"
            ∷ lit "cfg"
            ∷ lit "quill::FileEventNotifier{}"
            ∷ [])
        ∷ lib "quill::PatternFormatterOptions" (
            lit "%(time) [%(thread_id)] %(short_source_location) %(log_level) %(message)"
            ∷ lit "%H:%M:%S.%Qns"
            ∷ lit "quill::Timezone::GmtTime"
            ∷ flag false
            ∷ [])
        ∷ lib "quill::Frontend::create_or_get_logger" (lit "root" ∷ lit "std::move(file_sink)" ∷ [])
        ∷ log "quill::info" info "Warm up" []
        ∷ lib "logger->flush_log" (num 0 ∷ [])
        ∷ [];
    ready = returned [];
    message = λ iteration.
        log "quill::info" info "Iteration: {} int: {} double: {}" (arguments F iteration) ∷ [];
    finish =
        returned (log "quill::error" error "End" [] ∷ lib "logger->flush_log" (num 0 ∷ []) ∷ []);
    cleanup = [];
    line = formatted_line F;
  }
