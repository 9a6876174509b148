-- ===== src/CallSite/Ticks/Defs.antt =====
-- `ns_per_rdtsc_tick` of call_site_latency_bench_common.h.
use logger_benchmarks.Prelude.{ℕ, zero, suc, ◌+◌, ◌-◌, ◌%◌, ◌^◌, List, [], ◌∷◌, get_or, map, ◌/◌}
use logger_benchmarks.Prelude.Sort.{sort}
use logger_benchmarks.Platform.Doubles.{Doubles}
use logger_benchmarks.Platform.Outcome.{Outcome, returned, ◌>>=◌}
use logger_benchmarks.CallSite.Wait.{spin}
use logger_benchmarks.CallSite.Producer.{Readings}

-- `spin_duration`, ten milliseconds in nanoseconds
abbrev pub spin_duration : ℕ
spin_duration = 10_000_000

-- The two readings that bound a trial: the counter and the clock are read in pairs, and a trial ends
-- with the first pair whose clock is `spin_duration` behind that of pair `beg`.
pub record Trial : Type 0 where
  pub beg : ℕ
  pub end_ : ℕ

module _ (F : Doubles) (r : Readings) where
  open F use {Double, of_nat, decimal, div, less}

  -- the busy loop of a trial; the test `elapsed_ns < spin_duration` is `end_ts < beg_ts + spin_duration`
  unfoldable pub run_trial : ℕ → Outcome Trial
  run_trial pos = do
    behind ← spin r.fuel r.clock (pos + 1) (r.clock pos + spin_duration)
    returned (record { beg = pos; end_ = behind - 1 })

  -- ticks by nanoseconds; the counter wraps at 64 bits
  unfoldable pub rate : Trial → Double
  rate x =
      div (of_nat ((r.tsc x.end_ + 2 ^ 64 - r.tsc x.beg) % 2 ^ 64))
        (of_nat (r.clock x.end_ - r.clock x.beg))

  unfoldable pub run_trials : ℕ → ℕ → Outcome (List Trial)
  unfolding run_trial
  run_trials zero pos = returned []
  run_trials (suc left) pos = do
    x ← run_trial pos
    xs ← run_trials left (x.end_ + 1)
    returned (x ∷ xs)

  -- `std::nth_element` at the middle of the rates, and the inverse of what stands there
  unfoldable pub median_tick : List Trial → Double
  unfolding rate
  median_tick xs =
      let rates = sort less (map rate xs) in div (of_nat 1) (get_or rates (13 / 2) (decimal 0 0))

  unfoldable pub ns_per_rdtsc_tick : Outcome Double
  unfolding median_tick
  ns_per_rdtsc_tick = do xs ← run_trials 13 0; returned (median_tick xs)
