-- ===== src/Latency/Boost.antt =====
-- benchmark_boost_log_call_site_latency.cpp.
use logger_benchmarks.Prelude.{
  ℕ, Bool, false, if◌then◌else◌, Option, some, List, [], ◌∷◌, ◌++◌, Bytes, codes,
}
use logger_benchmarks.Call.{
  BenchType, int_int_double, int_int_largestr, vector_largestr, info, PayloadOf, Arg, num, real,
  str, lit, flag, Call, set_affinity, remove_file, sleep_for, lib, stream,
}
use logger_benchmarks.Latency.Program.{Program}
use logger_benchmarks.Latency.Quill.{type_label}

-- `for (idx = 0; idx < v.size(); ++idx)`: a comma before all strings but the first
unfoldable pub quoted : {Double : Type 0} → List Bytes → List (Arg Double)
quoted [] = []
quoted (s ∷ []) = lit "\"" ∷ str s ∷ lit "\"" ∷ []
quoted (s ∷ s' ∷ v) = lit "\"" ∷ str s ∷ lit "\"" ∷ lit ", " ∷ quoted (s' ∷ v)

-- `opened` says whether `open_record` returns a record.
boost_log_func :
    {Double : Type 0}
    → Bool
    → (t : BenchType) → Option (ℕ → ℕ → PayloadOf Double t → List (Call Double))
unfolding quoted
boost_log_func opened int_int_double = some λ i j d.
    stream "BOOST_LOG_SEV" info
      (lit "Logging int: " ∷ num i ∷ lit ", int: " ∷ num j ∷ lit ", double: " ∷ real d ∷ [])
    ∷ []
boost_log_func opened int_int_largestr = some λ i j s.
    stream "BOOST_LOG_SEV" info
      (lit "Logging int: " ∷ num i ∷ lit ", int: " ∷ num j ∷ lit ", string: " ∷ str s ∷ [])
    ∷ []
boost_log_func opened vector_largestr = some λ i j v.
    lib "logger.open_record" (lit "keywords::severity = logging::trivial::info" ∷ [])
    ∷ (if opened
        then stream "logging::record_ostream" info (
            (lit "Logging int: " ∷ num i ∷ lit ", int: " ∷ num j ∷ lit ", vector: [" ∷ [])
            ++ (quoted v ++ lit "]" ∷ []))
          ∷ lib "stream.flush" []
          ∷ lib "logger.push_record" (lit "std::move(record)" ∷ [])
          ∷ []
        else [])

-- what the thread of the sink does before the library's own function
unfoldable pub boost_start_thread : {Double : Type 0} → List (Call Double)
boost_start_thread = set_affinity 5 ∷ lib "thread_func" [] ∷ []

boost_setup : {Double : Type 0} → List (Call Double)
boost_setup =
    remove_file "benchmark_boost_log_call_site_latency.log"
    ∷ lib "boost::make_shared<sinks::text_ostream_backend>" []
    ∷ lib "backend->add_stream" (lit "benchmark_boost_log_call_site_latency.log" ∷ [])
    ∷ lib "backend->auto_flush" (flag false ∷ [])
    ∷ lib "boost::make_shared<async_sink_t>" (lit "backend" ∷ lit "keywords::start_thread" ∷ [])
    ∷ lib "sink->set_formatter" (
        lit "TimeStamp"
        ∷ lit "%H:%M:%S.%f"
        ∷ lit " ["
        ∷ lit "ThreadID"
        ∷ lit "] "
        ∷ lit "LineID"
        ∷ lit " "
        ∷ lit "logging::trivial::severity"
        ∷ lit " "
        ∷ lit "root "
        ∷ lit "expr::smessage"
        ∷ [])
    ∷ lib "logging::core::get()->add_sink" (lit "sink" ∷ [])
    ∷ lib "logging::core::get()->add_global_attribute"
        (lit "LineID" ∷ lit "attrs::counter<unsigned int>" ∷ num 1 ∷ [])
    ∷ lib "logging::core::get()->add_global_attribute"
        (lit "ThreadID" ∷ lit "attrs::current_thread_id()" ∷ [])
    ∷ lib "logging::core::get()->add_global_attribute"
        (lit "TimeStamp" ∷ lit "attrs::local_clock()" ∷ [])
    ∷ sleep_for 100_000_000
    ∷ stream "BOOST_LOG_SEV" info (lit "Warm up" ∷ [])
    ∷ lib "sink->flush" []
    ∷ []

unfoldable pub boost_log : {Double : Type 0} → Bool → Program Double
unfolding boost_log_func boost_setup type_label
boost_log opened = record {
  setup = boost_setup;
  log_func = boost_log_func opened;
  on_start = stream "BOOST_LOG_SEV" info (lit "Warm up" ∷ []) ∷ lib "sink->flush" [] ∷ [];
  on_exit = lib "sink->flush" [] ∷ sleep_for 100_000_000 ∷ [];
  benchmark_name = λ t.
      codes "Logger: Boost.Log - Benchmark: Caller Thread Latency, Async"
      ++ (codes " - " ++ type_label t);
  cleanup =
      lib "logging::core::get()->remove_sink" (lit "sink" ∷ [])
      ∷ lib "sink->stop" []
      ∷ lib "sink->flush" []
      ∷ [];
}
