-- ===== src/Latency/Quill.antt =====
-- benchmark_quill_call_site_latency.cpp and benchmark_quill_with_functions_call_site_latency.cpp.
use logger_benchmarks.Prelude.{ℕ, false, Option, some, List, [], ◌∷◌, ◌++◌, Bytes, String, codes}
use logger_benchmarks.Call.{
  BenchType, int_int_double, int_int_largestr, vector_largestr, info, PayloadOf, num, real, str,
  strs, lit, flag, Call, remove_file, sleep_for, lib, log,
}
use logger_benchmarks.Latency.Program.{Program}

-- the lambdas, which call `entry`
quill_log_func :
    {Double : Type 0}
    → String
    → (t : BenchType) → Option (ℕ → ℕ → PayloadOf Double t → List (Call Double))
quill_log_func entry int_int_double = some λ i j d.
    log entry info "Logging int: {}, int: {}, double: {}" (num i ∷ num j ∷ real d ∷ []) ∷ []
quill_log_func entry int_int_largestr =
    some λ i j s.
      log entry info "Logging int: {}, int: {}, string: {}" (num i ∷ num j ∷ str s ∷ []) ∷ []
quill_log_func entry vector_largestr = some λ i j s.
    log entry info "Logging int: {}, int: {}, vector: {}" (num i ∷ num j ∷ strs s ∷ []) ∷ []

-- `benchmark_type`
unfoldable pub type_label : BenchType → Bytes
type_label int_int_double = codes "[benchmark_type: int_int_double]"
type_label int_int_largestr = codes "[benchmark_type: int_int_largestr]"
type_label vector_largestr = codes "[benchmark_type: vector_largestr]"

quill_setup : {Double : Type 0} → String → List (Call Double)
quill_setup log_file =
    remove_file log_file
    ∷ lib "backend_options.cpu_affinity =" (num 5 ∷ [])
    ∷ lib "backend_options.sleep_duration =" (num 0 ∷ [])
    ∷ lib "quill::Backend::start" (lit "backend_options" ∷ [])
    ∷ sleep_for 1_000_000_000
    ∷ lib "cfg.set_open_mode" (lit "w" ∷ [])
    ∷ lib "cfg.set_filename_append_option" (lit "quill::FilenameAppendOption::None" ∷ [])
    ∷ lib "frontend_t::create_or_get_sink<quill::FileSink>"
        (lit log_file ∷ lit "cfg" ∷ lit "quill::FileEventNotifier{}" ∷ [])
    ∷ lib "quill::PatternFormatterOptions" (
        lit
          "%(time) [%(thread_id)] %(short_source_location:<28) LOG_%(log_level:<9) %(logger:<12) %(message)"
        ∷ lit "%H:%M:%S.%Qns"
        ∷ lit "quill::Timezone::GmtTime"
        ∷ flag false
        ∷ [])
    ∷ lib "frontend_t::create_or_get_logger" (lit "root" ∷ lit "std::move(file_sink)" ∷ [])
    ∷ []

quill_on_start : {Double : Type 0} → String → List (Call Double)
quill_on_start entry = log entry info "Warm up" [] ∷ lib "logger->flush_log" (num 0 ∷ []) ∷ []

quill_on_exit : {Double : Type 0} → List (Call Double)
quill_on_exit = lib "frontend_t::get_all_loggers().front()->flush_log" [] ∷ []

unfoldable pub quill : {Double : Type 0} → Program Double
unfolding quill_log_func type_label quill_setup quill_on_start quill_on_exit
quill = record {
  setup = quill_setup "benchmark_quill_unbounded_call_site_latency.log";
  log_func = quill_log_func "LOG_INFO";
  on_start = quill_on_start "LOG_INFO";
  on_exit = quill_on_exit;
  benchmark_name = λ t.
      codes "Logger: Quill - Benchmark: Caller Thread Latency, Unbounded"
      ++ (codes " - " ++ type_label t);
  cleanup = [];
}

unfoldable pub quill_with_functions : {Double : Type 0} → Program Double
unfolding quill_log_func type_label quill_setup quill_on_start quill_on_exit
quill_with_functions = record {
  setup = quill_setup "benchmark_quill_functions_unbounded_call_site_latency.log";
  log_func = quill_log_func "quill::info";
  on_start = quill_on_start "quill::info";
  on_exit = quill_on_exit;
  benchmark_name = λ t.
      codes "Logger: Quill - Benchmark: Caller Thread Latency, Macro Free Mode"
      ++ (codes " - " ++ type_label t);
  cleanup = [];
}
