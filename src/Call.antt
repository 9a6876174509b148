-- ===== src/Call.antt =====
-- What a benchmark does, as a list of calls. A call into a logging library is recorded and not
-- interpreted: the libraries are vendored.
use logger_benchmarks.Prelude.{ℕ, List, Bytes, String, Bool}

-- The three `BENCH_…` macros, one of which a target defines.
pub data BenchType : Type 0 where
  int_int_double int_int_largestr vector_largestr : BenchType

pub data Level : Type 0 where
  info notice error critical : Level

module _ (Double : Type 0) where
  -- The type of the third argument of `log_func`.
  abbrev pub PayloadOf : BenchType → Type 0
  PayloadOf int_int_double = Double
  PayloadOf int_int_largestr = Bytes
  PayloadOf vector_largestr = List Bytes

  pub data Arg : Type 0 where
    num : ℕ → Arg
    real : Double → Arg
    str : Bytes → Arg
    strs : List Bytes → Arg
    flag : Bool → Arg
    lit : String → Arg  -- a literal of the source: text, or the name of an object or an enumerator

  pub data Call : Type 0 where
    set_affinity : ℕ → Call  -- set_thread_affinity, of the calling thread
    set_pthread_affinity : String → ℕ → Call  -- of the thread that the expression names
    remove_file : String → Call  -- std::remove
    sleep_for : ℕ → Call  -- std::this_thread::sleep_for, in nanoseconds
    start_backend : Call  -- std::thread backend(…)
    store_done : Call  -- done.store(true, std::memory_order_release)
    join_backend : Call  -- backend.join()
    lib : String → List Arg → Call  -- any other call of the logging library
    log : String → Level → String → List Arg → Call  -- entry point, level, format, arguments
    stream : String → Level → List Arg → Call  -- entry point, level, what `<<` inserts
