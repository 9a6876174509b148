-- ===== src/Latency/Targets.antt =====
-- benchmarks/call_site_latency/CMakeLists.txt: the latency programs that are built, each with the
-- `BENCH_…` macro and the other macros that it is compiled with.
use logger_benchmarks.Prelude.{Bool, false, List, [], ◌∷◌, String}
use logger_benchmarks.Call.{BenchType, int_int_double, int_int_largestr, vector_largestr}
use logger_benchmarks.Latency.Program.{Program}
use logger_benchmarks.Latency.Quill.{quill, quill_with_functions}
use logger_benchmarks.Latency.Workers.{bqlog, platformlab_nanolog, reckless, spdlog, xtr}
use logger_benchmarks.Latency.Fmt.{fmtlog, ms_binlog}
use logger_benchmarks.Latency.Streams.{g3log, iyengar_nanolog}
use logger_benchmarks.Latency.Boost.{boost_log}

-- the macros of Quill that CMake defines, the last with its value
pub data Macro : Type 0 where
  quill_use_bounded_dropping_queue quill_use_huge_pages : Macro
  quill_enable_immediate_flush : Bool → Macro

pub record Target (Double : Type 0) : Type 0 where
  pub name : String
  pub program : Program Double
  pub bench : BenchType
  pub macros : List Macro

module _ {Double : Type 0} where
  abbrev pub target : String → Program Double → BenchType → List Macro → Target Double
  target name program bench macros = record {
    name = name;
    program = program;
    bench = bench;
    macros = macros;
  }

  -- `opened` is the answer of Boost's `open_record`.
  unfoldable pub targets : Bool → List (Target Double)
  targets opened =
      target "benchmark_quill_with_functions_unbounded_call_site_latency_int_int_double"
        quill_with_functions int_int_double (quill_enable_immediate_flush false ∷ [])
      ∷ target "benchmark_quill_with_functions_unbounded_call_site_latency_int_int_largestr"
          quill_with_functions int_int_largestr (quill_enable_immediate_flush false ∷ [])
      ∷ target "benchmark_quill_unbounded_call_site_latency_int_int_double" quill int_int_double
          (quill_enable_immediate_flush false ∷ [])
      ∷ target "benchmark_quill_unbounded_call_site_latency_int_int_largestr" quill int_int_largestr
          (quill_enable_immediate_flush false ∷ [])
      ∷ target "benchmark_quill_unbounded_call_site_latency_vector_largestr" quill vector_largestr
          (quill_enable_immediate_flush false ∷ [])
      ∷ target "benchmark_quill_bounded_call_site_latency_int_int_double" quill int_int_double
          (quill_use_bounded_dropping_queue ∷ quill_enable_immediate_flush false ∷ [])
      ∷ target "benchmark_quill_bounded_call_site_latency_int_int_largestr" quill int_int_largestr
          (quill_use_bounded_dropping_queue ∷ quill_enable_immediate_flush false ∷ [])
      ∷ target "benchmark_quill_bounded_call_site_latency_vector_largestr" quill vector_largestr
          (quill_use_bounded_dropping_queue ∷ quill_enable_immediate_flush false ∷ [])
      ∷ target "benchmark_quill_bounded_call_site_latency_int_int_double_huge_pages" quill
          int_int_double
          (quill_use_bounded_dropping_queue
            ∷ quill_use_huge_pages
            ∷ quill_enable_immediate_flush false
            ∷ [])
      ∷ target "benchmark_quill_bounded_call_site_latency_int_int_largestr_huge_pages" quill
          int_int_largestr
          (quill_use_bounded_dropping_queue
            ∷ quill_use_huge_pages
            ∷ quill_enable_immediate_flush false
            ∷ [])
      ∷ target "benchmark_quill_bounded_call_site_latency_vector_largestr_huge_pages" quill
          vector_largestr
          (quill_use_bounded_dropping_queue
            ∷ quill_use_huge_pages
            ∷ quill_enable_immediate_flush false
            ∷ [])
      ∷ target "benchmark_platformlab_call_site_latency_int_int_double" platformlab_nanolog
          int_int_double []
      ∷ target "benchmark_platformlab_call_site_latency_int_int_largestr" platformlab_nanolog
          int_int_largestr []
      ∷ target "benchmark_iyengar_nanolog_call_site_latency_int_int_double" iyengar_nanolog
          int_int_double []
      ∷ target "benchmark_iyengar_nanolog_call_site_latency_int_int_largestr" iyengar_nanolog
          int_int_largestr []
      ∷ target "benchmark_reckless_call_site_latency_int_int_double" reckless int_int_double []
      ∷ target "benchmark_reckless_call_site_latency_int_int_largestr" reckless int_int_largestr []
      ∷ target "benchmark_spdlog_call_site_latency_int_int_double" spdlog int_int_double []
      ∷ target "benchmark_spdlog_call_site_latency_int_int_largestr" spdlog int_int_largestr []
      ∷ target "benchmark_spdlog_call_site_latency_int_vector_largestr" spdlog vector_largestr []
      ∷ target "benchmark_g3log_call_site_latency_int_int_double" g3log int_int_double []
      ∷ target "benchmark_g3log_call_site_latency_int_int_largestr" g3log int_int_largestr []
      ∷ target "benchmark_ms_binlog_call_site_latency_int_int_double" ms_binlog int_int_double []
      ∷ target "benchmark_ms_binlog_call_site_latency_int_int_largestr" ms_binlog int_int_largestr
          []
      ∷ target "benchmark_ms_binlog_call_site_latency_int_vector_largestr" ms_binlog vector_largestr
          []
      ∷ target "benchmark_fmtlog_call_site_latency_int_int_double" fmtlog int_int_double []
      ∷ target "benchmark_fmtlog_call_site_latency_int_int_largestr" fmtlog int_int_largestr []
      ∷ target "benchmark_fmtlog_call_site_latency_int_vector_largestr" fmtlog vector_largestr []
      ∷ target "benchmark_xtr_call_site_latency_int_int_double" xtr int_int_double []
      ∷ target "benchmark_xtr_call_site_latency_int_int_largestr" xtr int_int_largestr []
      ∷ target "benchmark_xtr_call_site_latency_int_vector_largestr" xtr vector_largestr []
      ∷ target "benchmark_bqlog_call_site_latency_int_int_double" bqlog int_int_double []
      ∷ target "benchmark_bqlog_call_site_latency_int_int_largestr" bqlog int_int_largestr []
      ∷ target "benchmark_boost_log_call_site_latency_int_int_double" (boost_log opened)
          int_int_double []
      ∷ target "benchmark_boost_log_call_site_latency_int_int_largestr" (boost_log opened)
          int_int_largestr []
      ∷ target "benchmark_boost_log_call_site_latency_int_vector_largestr" (boost_log opened)
          vector_largestr []
      ∷ []
