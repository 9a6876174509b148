-- ===== src/Latency/Drain/Defs.antt =====
-- The loops of the backend threads: benchmark_fmtlog_call_site_latency.cpp,
-- benchmark_ms_binlog_call_site_latency.cpp, ms_binlog_backend_total_time.cpp.
use logger_benchmarks.Prelude.{
  ℕ, zero, suc, ◌+◌, Bool, true, false, not, ◌&&◌, ◌||◌, ◌==◌, if◌then◌else◌, List, [], ◌∷◌, ◌++◌,
  String,
}
use logger_benchmarks.Platform.Outcome.{Outcome, returned, waiting, ◌>>=◌}
use logger_benchmarks.Call.{flag, lit, Call, set_affinity, sleep_for, lib}

-- What the loops read in round `k`: `done.load(std::memory_order_acquire)`, and the `bytesConsumed` of
-- the round's `binlog::consume`; and how many rounds they may take.
pub record LoopReads : Type 0 where
  pub done : ℕ → Bool
  pub consumed : ℕ → ℕ
  pub fuel : ℕ

-- what both threads of Ms binLog begin with
unfoldable pub open_log_file : {Double : Type 0} → String → List (Call Double)
open_log_file name = lib "std::ofstream logfile" (lit name ∷ []) ∷ set_affinity 5 ∷ []

module _ {Double : Type 0} (r : LoopReads) where
  -- `do { fmtlog::poll(false); } while (!done.load());`, behind the calls `acc`
  unfoldable pub poll_loop : ℕ → ℕ → List (Call Double) → Outcome (List (Call Double))
  poll_loop zero k acc = waiting
  poll_loop (suc fuel) k acc =
      let acc' = acc ++ lib "fmtlog::poll" (flag false ∷ []) ∷ [] in
      elim (not (r.done k)) [ true ↦ poll_loop fuel (k + 1) acc' | false ↦ returned acc' ]

  unfoldable pub fmtlog_backend : Outcome (List (Call Double))
  unfolding poll_loop
  fmtlog_backend = do
    polled ← poll_loop r.fuel 0 (set_affinity 5 ∷ [])
    returned (polled ++ lib "fmtlog::poll" (flag true ∷ []) ∷ [])

  -- the loop of the latency program, which sleeps after a round that consumed nothing
  unfoldable pub pausing_loop : ℕ → ℕ → ℕ → List (Call Double) → Outcome (List (Call Double))
  pausing_loop zero k bytes_consumed acc = waiting
  pausing_loop (suc fuel) k bytes_consumed acc =
      let acc' =
        acc
        ++ ((if bytes_consumed == 0 then sleep_for 300 ∷ [] else [])
            ++ lib "binlog::consume" (lit "logfile" ∷ []) ∷ []) in
      elim (not (r.done k) || not (r.consumed k == 0)) [
        | true ↦ pausing_loop fuel (k + 1) (r.consumed k) acc'
        | false ↦ returned acc'
      ]

  -- the loop of the throughput program
  unfoldable pub busy_loop : ℕ → ℕ → List (Call Double) → Outcome (List (Call Double))
  busy_loop zero k acc = waiting
  busy_loop (suc fuel) k acc =
      let acc' = acc ++ lib "binlog::consume" (lit "logfile" ∷ []) ∷ [] in
      elim (r.done k && r.consumed k == 0) [
        | true ↦ returned acc'
        | false ↦ busy_loop fuel (k + 1) acc'
      ]

  -- A fresh `ConsumeResult` has consumed no bytes.
  unfoldable pub binlog_backend_latency : Outcome (List (Call Double))
  unfolding pausing_loop open_log_file
  binlog_backend_latency =
      pausing_loop r.fuel 0 0
        (open_log_file "binlog_call_site_latency_percentile_linux_benchmark.blog")

  unfoldable pub binlog_backend_throughput : Outcome (List (Call Double))
  unfolding busy_loop open_log_file
  binlog_backend_throughput =
      busy_loop r.fuel 0 (open_log_file "benchmark_ms_binlog_backend_total_time.blog")
