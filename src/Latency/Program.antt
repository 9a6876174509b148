-- ===== src/Latency/Program.antt =====
-- What the latency programs share: `THREAD_LIST_COUNT`, `ITERATIONS`, `MESSAGES_PER_ITERATION` and the
-- loop over the counts of threads.
use logger_benchmarks.Prelude.{
  ℕ, ◌+◌, Bool, if◌then◌else◌, Option, none, some, List, [], ◌∷◌, Bytes,
}
use logger_benchmarks.Prelude.Int.{ℤ, pos}
use logger_benchmarks.Platform.Doubles.{Doubles}
use logger_benchmarks.Platform.Random.{Random}
use logger_benchmarks.Platform.Outcome.{Outcome, returned, terminated, ◌>>=◌, ◌>>◌}
use logger_benchmarks.Call.{BenchType, PayloadOf, Call, set_affinity, set_pthread_affinity}
use logger_benchmarks.CallSite.Producer.{Callbacks}
use logger_benchmarks.CallSite.Run.{Machine, Ran, run_benchmark}

abbrev pub thread_list_count : List ℤ
thread_list_count = pos 1 ∷ pos 4 ∷ []

abbrev pub iterations : ℕ
iterations = 10_000

abbrev pub messages_per_iteration : ℕ
messages_per_iteration = 20

-- One program, for each macro that it may be compiled with; `log_func` is `none` where the source
-- declares none under that macro, so that the program does not compile.
pub record Program (Double : Type 0) : Type 0 where
  pub setup : List (Call Double)
  pub log_func : (t : BenchType) → Option (ℕ → ℕ → PayloadOf Double t → List (Call Double))
  pub on_start : List (Call Double)
  pub on_exit : List (Call Double)
  pub benchmark_name : BenchType → Bytes
  pub cleanup : List (Call Double)

-- What calls of the main thread do to the process: `set_thread_affinity` throws and
-- `set_pthread_affinity` aborts where the CPU is refused.
unfoldable pub perform : {Double : Type 0} → (ℕ → Bool) → List (Call Double) → Outcome (Unit {0})
perform allowed [] = returned tt
perform allowed (set_affinity cpu ∷ cs) = if allowed cpu then perform allowed cs else terminated
perform allowed (set_pthread_affinity handle cpu ∷ cs) =
    if allowed cpu then perform allowed cs else terminated
perform allowed (_ ∷ cs) = perform allowed cs

module _ (R : Random) (F : Doubles) (t : BenchType) (machines : ℕ → Machine) where
  -- the loop over `thread_count_array`; run number `k` reads from `machines k`
  unfoldable pub run_all_counts :
      Callbacks F.Double t → Bytes → ℕ → ℕ → List ℤ → Outcome (List (Ran F.Double))
  run_all_counts cb benchmark_name num_iterations k [] = returned []
  run_all_counts cb benchmark_name num_iterations k (thread_count ∷ counts) = do
    x ←
        run_benchmark R F t (machines k) cb num_iterations messages_per_iteration benchmark_name
          thread_count
    xs ← run_all_counts cb benchmark_name num_iterations (k + 1) counts
    returned (x ∷ xs)

  -- the body of a program behind the choice of its lambda
  unfoldable pub run_with :
      Program F.Double
      → (ℕ → ℕ → PayloadOf F.Double t → List (Call F.Double))
      → List ℤ
      → ℕ
      → Outcome (List (Ran F.Double))
  unfolding run_all_counts perform
  run_with p log_func thread_count_array num_iterations = do
    perform (machines 0).allowed p.setup
    xs ←
        run_all_counts
          (record { on_thread_start = p.on_start; log_func = log_func; on_thread_exit = p.on_exit })
          (p.benchmark_name t) num_iterations 0 thread_count_array
    perform (machines 0).allowed p.cleanup
    returned xs

  -- `main`: `none` if the program does not compile with the macro
  unfoldable pub main : Program F.Double → Option (Outcome (List (Ran F.Double)))
  unfolding run_with
  main p = elim (p.log_func t) [
    | none ↦ none
    | some f ↦ some (run_with p f thread_list_count iterations)
  ]
