-- ===== src/Throughput/Boost.antt =====
-- boost_log_backend_total_time.cpp.
use logger_benchmarks.Prelude.{◌*◌, ◌%◌, ◌^◌, false, List, [], ◌∷◌, codes}
use logger_benchmarks.Platform.Doubles.{Doubles}
use logger_benchmarks.Platform.Outcome.{returned}
use logger_benchmarks.Call.{
  info, error, num, real, lit, flag, Call, set_affinity, remove_file, sleep_for, lib, stream,
}
use logger_benchmarks.Throughput.Program.{Program, arguments, double_of, streamed_line}

module _ (F : Doubles) where
  open F use {Double}

  -- what the thread of the sink does before the library's own function
  unfoldable pub boost_start_thread : List (Call Double)
  boost_start_thread = set_affinity 5 ∷ lib "thread_func" [] ∷ []

  unfoldable pub boost_log : Program F
  unfolding arguments double_of
  boost_log = record {
    log_file = codes "benchmark_boost_log_backend_total_time.log";
    setup =
        remove_file "benchmark_boost_log_backend_total_time.log"
        ∷ set_affinity 1
        ∷ lib "boost::make_shared<sinks::text_ostream_backend>" []
        ∷ lib "backend->add_stream" (lit "benchmark_boost_log_backend_total_time.log" ∷ [])
        ∷ lib "backend->auto_flush" (flag false ∷ [])
        ∷ lib "boost::make_shared<async_sink_t>" (lit "backend" ∷ lit "keywords::start_thread" ∷ [])
        ∷ lib "sink->set_formatter" (
            lit "TimeStamp"
            ∷ lit "%H:%M:%S.%f"
            ∷ lit " ["
            ∷ lit "ThreadID"
            ∷ lit "] "
            ∷ lit "LineID"
            ∷ lit " "
            ∷ lit "logging::trivial::severity"
            ∷ lit " "
            ∷ lit "root "
            ∷ lit "expr::smessage"
            ∷ [])
        ∷ lib "logging::core::get()->add_sink" (lit "sink" ∷ [])
        ∷ lib "logging::core::get()->add_global_attribute"
            (lit "LineID" ∷ lit "attrs::counter<unsigned int>" ∷ num 1 ∷ [])
        ∷ lib "logging::core::get()->add_global_attribute"
            (lit "ThreadID" ∷ lit "attrs::current_thread_id()" ∷ [])
        ∷ lib "logging::core::get()->add_global_attribute"
            (lit "TimeStamp" ∷ lit "attrs::local_clock()" ∷ [])
        ∷ sleep_for 100_000_000
        ∷ stream "BOOST_LOG_SEV" info (lit "Warm up" ∷ [])
        ∷ lib "sink->flush" []
        ∷ [];
    ready = returned [];
    message = λ iteration.
        stream "BOOST_LOG_SEV" info (
          lit "Iteration: "
          ∷ num iteration
          ∷ lit " int: "
          ∷ num (iteration * 2 % 2 ^ 64)
          ∷ lit " double: "
          ∷ real (double_of F iteration)
          ∷ [])
        ∷ [];
    finish = returned (stream "BOOST_LOG_SEV" error (lit "End" ∷ []) ∷ lib "sink->flush" [] ∷ []);
    cleanup = lib "logging::core::get()->remove_sink" (lit "sink" ∷ []) ∷ [];
    line = streamed_line F;
  }
