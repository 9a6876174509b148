-- ===== src/CallSite/Report/Defs.antt =====
-- The text that `run_benchmark` prints, from the samples of a run.
use Prim.Native.Nat.{min}
use logger_benchmarks.Prelude.{
  ℕ, ◌-◌, ltb, ◌==◌, if◌then◌else◌, List, [], ◌∷◌, ◌++◌, map, Bytes, codes, length, get_or,
}
use logger_benchmarks.Prelude.Decimal.{to_string}
use logger_benchmarks.Prelude.Sort.{sort}
use logger_benchmarks.Platform.Doubles.{Doubles}

-- the beginning of both reports
unfoldable pub report_header : ℕ → ℕ → Bytes → Bytes
report_header thread_count total_messages benchmark_name =
    codes "Thread Count "
    ++ (to_string thread_count
        ++ (codes " - Total messages "
            ++ (to_string total_messages ++ (codes " - " ++ benchmark_name))))

unfoldable pub no_samples : Bytes
no_samples = codes "\n | no latency samples |\n\n"

-- the columns' heads
unfoldable pub column_heads : Bytes
column_heads = codes "\n |  50th | 75th | 90th | 95th | 99th | 99.9th | Worst |\n"

-- `<< value << "  |  "`, over all columns but the last
unfoldable pub cells : List ℕ → Bytes
cells [] = []
cells (x ∷ []) = to_string x
cells (x ∷ y ∷ ys) = to_string x ++ (codes "  |  " ++ cells (y ∷ ys))

module _ (F : Doubles) where
  open F use {Double, of_nat, decimal, mul, ceil, to_u64}

  unfoldable pub percentile_index : ℕ → Double → ℕ
  percentile_index sample_count percentile =
      let nearest_rank = to_u64 (ceil (mul (of_nat sample_count) percentile)) in
      min (sample_count - 1) (if nearest_rank == 0 then 0 else nearest_rank - 1)

  -- 0.5, 0.75, 0.9, 0.95, 0.99 and 0.999
  unfoldable pub reported_percentiles : List Double
  reported_percentiles =
      decimal 5 1 ∷ decimal 75 2 ∷ decimal 9 1 ∷ decimal 95 2 ∷ decimal 99 2 ∷ decimal 999 3 ∷ []

  -- the seven numbers of the row: the percentiles of the sorted samples, and the last of these
  unfoldable pub row : List ℕ → List ℕ
  row sorted =
      map (λ p. get_or sorted (percentile_index (length sorted) p) 0) reported_percentiles
      ++ get_or sorted (length sorted - 1) 0 ∷ []

  unfoldable pub report : ℕ → ℕ → Bytes → List ℕ → Bytes
  unfolding report_header no_samples column_heads cells row reported_percentiles percentile_index
  report thread_count total_messages benchmark_name latencies_combined =
      let sorted = sort ltb latencies_combined in
      let header = report_header thread_count total_messages benchmark_name in
      if length sorted == 0
      then header ++ no_samples
      else header ++ (column_heads ++ (codes " |  " ++ (cells (row sorted) ++ codes "  |\n\n")))
