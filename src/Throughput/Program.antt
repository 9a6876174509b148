-- ===== src/Throughput/Program.antt =====
-- What the throughput programs share: the timed loop over `total_iterations` and the line that they
-- print.
use logger_benchmarks.Prelude.{
  ℕ, suc, zero, ◌+◌, ◌-◌, ◌*◌, ◌/◌, ◌%◌, ◌^◌, Bool, if◌then◌else◌, List, [], ◌∷◌, ◌++◌, Bytes,
  codes, concat_upto,
}
use logger_benchmarks.Prelude.Decimal.{to_string}
use logger_benchmarks.Platform.Doubles.{Doubles}
use logger_benchmarks.Platform.Outcome.{Outcome, returned, waiting, ◌>>=◌, ◌>>◌}
use logger_benchmarks.Call.{Arg, num, real, Call, sleep_for}
use logger_benchmarks.Latency.Program.{perform}

abbrev pub total_iterations : ℕ
total_iterations = 4_000_000

module _ (F : Doubles) where
  open F use {Double, of_nat, div, print, print_fixed}

  -- `iteration`, `iteration * 2` and `static_cast<double>(iteration) / 2`
  unfoldable pub double_of : ℕ → Double
  double_of iteration = div (of_nat iteration) (of_nat 2)

  unfoldable pub arguments : ℕ → List (Arg Double)
  unfolding double_of
  arguments iteration =
      num iteration ∷ num (iteration * 2 % 2 ^ 64) ∷ real (double_of iteration) ∷ []

  -- messages per microsecond: `total_iterations / delta_d / 1e6`, `delta` in nanoseconds
  unfoldable pub throughput : ℕ → ℕ → Double
  throughput total delta =
      div (div (of_nat total) (div (of_nat delta) (of_nat 1_000_000_000))) (of_nat 1_000_000)

  unfoldable pub megabytes : ℕ → Double
  megabytes file_size = div (of_nat file_size) (of_nat (1024 * 1024))

  -- the line of `fmt::format`, and the `std::endl` behind it
  unfoldable pub formatted_line : ℕ → ℕ → ℕ → Bytes
  unfolding throughput megabytes
  formatted_line total delta file_size =
      codes "throughput is "
      ++ (print_fixed 2 (throughput total delta)
          ++ (codes " million msgs/sec average, total time elapsed: "
              ++ (to_string (delta / 1_000_000)
                  ++ (codes " ms, log file size "
                      ++ (print_fixed 2 (megabytes file_size) ++ codes " MB \n\n")))))

  -- the line that Boost's program writes by `<<`
  unfoldable pub streamed_line : ℕ → ℕ → ℕ → Bytes
  unfolding throughput megabytes
  streamed_line total delta file_size =
      codes "throughput is "
      ++ (print (throughput total delta)
          ++ (codes " million msgs/sec average, total time elapsed: "
              ++ (to_string (delta / 1_000_000)
                  ++ (codes " ms, log file size "
                      ++ (print (megabytes file_size) ++ codes " MB\n")))))

  -- One program: the file whose size it prints, what it does before the first reading of the clock,
  -- in an iteration of the timed loop, behind the loop up to the second reading, and at last. `ready`
  -- and `finish` may wait for the library, and then may not end.
  pub record Program : Type 0 where
    pub log_file : Bytes
    pub setup : List (Call Double)
    pub ready : Outcome (List (Call Double))
    pub message : ℕ → List (Call Double)
    pub finish : Outcome (List (Call Double))
    pub cleanup : List (Call Double)
    pub line : ℕ → ℕ → ℕ → Bytes

  -- What a program that ends has done, and what it has printed.
  pub record Finished : Type 0 where
    pub before : List (Call Double)
    pub timed : List (Call Double)
    pub behind : List (Call Double)
    pub output : Bytes

  -- What a program reads: the two clock readings, and the sizes of files at the end.
  pub record Measured : Type 0 where
    pub start_time : ℕ
    pub end_time : ℕ
    pub file_size : Bytes → ℕ

  unfoldable pub main : (ℕ → Bool) → Measured → ℕ → Program → Outcome Finished
  unfolding perform
  main allowed x total p = do
    perform allowed p.setup
    waited ← p.ready
    finish ← p.finish
    returned (record {
      before = p.setup ++ waited;
      timed = concat_upto total p.message ++ finish;
      behind = p.cleanup;
      output = p.line total (x.end_time - x.start_time) (x.file_size p.log_file);
    })

  -- `while (!test) sleep_for(pause);`, where `test k` is the answer in round `k`
  unfoldable pub poll_until : (ℕ → Bool) → ℕ → ℕ → ℕ → Outcome (List (Call Double))
  poll_until test pause zero k = waiting
  poll_until test pause (suc fuel) k =
      if test k
      then returned []
      else poll_until test pause fuel (k + 1) >>= λ calls. returned (sleep_for pause ∷ calls)
