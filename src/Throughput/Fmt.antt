-- ===== src/Throughput/Fmt.antt =====
-- {fmtlog,ms_binlog,iyengar_nanolog}_backend_total_time.cpp. The backend threads of the first two are
-- loops of the programs: see `Latency.Drain`. The third watches its file.
use logger_benchmarks.Prelude.{ℕ, ◌*◌, ◌%◌, ◌^◌, true, Option, [], ◌∷◌, Bytes, codes}
use logger_benchmarks.Platform.Doubles.{Doubles}
use logger_benchmarks.Platform.Outcome.{returned, ◌>>=◌}
use logger_benchmarks.Call.{
  info, error, critical, num, real, str, lit, flag, set_affinity, remove_file, sleep_for,
  start_backend, store_done, join_backend, lib, log, stream,
}
use logger_benchmarks.Throughput.Program.{Program, arguments, double_of, formatted_line, poll_until}
use logger_benchmarks.Throughput.Tail.{end_marker, file_tail_contains}

module _ (F : Doubles) where
  open F use {Double}

  unfoldable pub fmtlog : Program F
  unfolding arguments
  fmtlog = record {
    log_file = codes "benchmark_fmtlog_backend_total_time.log";
    setup =
        set_affinity 1
        ∷ remove_file "benchmark_fmtlog_backend_total_time.log"
        ∷ lib "fmtlog::setLogFile" (lit "benchmark_fmtlog_backend_total_time.log" ∷ flag true ∷ [])
        ∷ start_backend
        ∷ log "FMTLOG" info "Warm up" []
        ∷ sleep_for 1_000_000_000
        ∷ [];
    ready = returned [];
    message = λ iteration.
        log "FMTLOG" info "Iteration: {} int: {} double: {}" (arguments F iteration) ∷ [];
    finish = returned (log "FMTLOG" error "End" [] ∷ store_done ∷ join_backend ∷ []);
    cleanup = [];
    line = formatted_line F;
  }

  unfoldable pub ms_binlog : Program F
  unfolding arguments
  ms_binlog = record {
    log_file = codes "benchmark_ms_binlog_backend_total_time.blog";
    setup =
        set_affinity 1
        ∷ remove_file "benchmark_ms_binlog_backend_total_time.blog"
        ∷ start_backend
        ∷ log "BINLOG_INFO" info "Warm up" []
        ∷ sleep_for 1_000_000_000
        ∷ [];
    ready = returned [];
    message = λ iteration.
        log "BINLOG_INFO" info "Iteration: {} int: {} double: {}" (arguments F iteration) ∷ [];
    finish = returned (log "BINLOG_ERROR" error "End" [] ∷ store_done ∷ join_backend ∷ []);
    cleanup = [];
    line = formatted_line F;
  }

  -- `file k` is the content of the log file in round `k` of the wait for the marker.
  unfoldable pub iyengar_nanolog : (ℕ → Option Bytes) → ℕ → Program F
  unfolding arguments poll_until double_of end_marker file_tail_contains
  iyengar_nanolog file fuel = record {
    log_file = codes "benchmark_iyengar_backend_total_time.log.1.txt";
    setup =
        set_affinity 5
        ∷ remove_file "benchmark_iyengar_backend_total_time.log.1.txt"
        ∷ lib "nanolog::initialize" (
            lit "nanolog::GuaranteedLogger()"
            ∷ lit "./"
            ∷ lit "benchmark_iyengar_backend_total_time.log"
            ∷ num 10_240
            ∷ [])
        ∷ set_affinity 1
        ∷ stream "LOG_CRIT" critical (lit "Warm up" ∷ [])
        ∷ sleep_for 1_000_000_000
        ∷ [];
    ready = returned [];
    message = λ iteration.
        stream "LOG_INFO" info (
          lit "Iteration: "
          ∷ num iteration
          ∷ lit " int: "
          ∷ num (iteration * 2 % 2 ^ 64)
          ∷ lit " double: "
          ∷ real (double_of F iteration)
          ∷ [])
        ∷ [];
    finish = poll_until F (λ k. file_tail_contains (file k) end_marker) 100_000 fuel 0 >>= λ waited.
        returned (stream "LOG_CRIT" critical (str end_marker ∷ []) ∷ waited);
    cleanup = [];
    line = formatted_line F;
  }
