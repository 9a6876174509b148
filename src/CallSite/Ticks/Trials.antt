-- ===== src/CallSite/Ticks/Trials.antt =====
-- The trials of `ns_per_rdtsc_tick`.
use mathlib.Core.Path.{subst}
use logger_benchmarks.Prelude.{
  ℕ, zero, suc, ◌+◌, ◌-◌, ◌≤◌, ◌<◌, ◌≡◌, refl, arith, List, [], ◌∷◌, length, All,
}
use logger_benchmarks.Platform.Doubles.{Doubles}
use logger_benchmarks.Platform.Outcome.{returned, >>=_returns, >>=-eq-returned, returned-injective}
use logger_benchmarks.CallSite.Wait.{spin, spin_total_from, spin-EndsAt}
use logger_benchmarks.CallSite.Producer.{Readings}
use logger_benchmarks.CallSite.Ticks.Defs.{
  spin_duration, Trial, run_trial, run_trials, ns_per_rdtsc_tick,
}

-- A trial spans at least `spin_duration`, and no pair of readings within it did so.
pub record IsTrial (r : Readings) (x : Trial) : Type 0 where
  pub long_enough : r.clock x.beg + spin_duration ≤ r.clock x.end_
  pub no_longer : (k : ℕ) → x.beg < k → k < x.end_ → r.clock k < r.clock x.beg + spin_duration

module _ (F : Doubles) (r : Readings) where
  run_trial-IsTrial : (pos : ℕ) {x : Trial} → run_trial F r pos ≡ returned x → IsTrial r x
  unfolding run_trial
  run_trial-IsTrial pos {x} h =
      let (behind, spun, out) =
        >>=-eq-returned (spin r.fuel r.clock (pos + 1) (r.clock pos + spin_duration)) _ h in
      let ends = spin-EndsAt r.fuel r.clock (pos + 1) (r.clock pos + spin_duration) spun in
      subst (IsTrial r) (returned-injective _ x out) (record {
        long_enough = ends.reached;
        no_longer = λ k a b. omega (arith, ends.early k (omega arith) b);
      })

  -- If the calibration trials end, there are as many as asked for, each spans at least 10 ms, and
  -- no earlier reading of the clock in it is 10 ms after its begin.
  pub run_trials-IsTrial :
      (left pos : ℕ) {xs : List Trial}
      → run_trials F r left pos ≡ returned xs
      → (length xs ≡ left) × All (IsTrial r) xs
  unfolding run_trials
  run_trials-IsTrial zero pos {xs} h =
      subst (λ ys. (length ys ≡ 0) × All (IsTrial r) ys) (returned-injective [] xs h) (refl, tt)
  run_trials-IsTrial (suc left) pos {xs} h =
      let (x, ran, more) = >>=-eq-returned (run_trial F r pos) _ h in
      let (rest, rans, out) = >>=-eq-returned (run_trials F r left (x.end_ + 1)) _ more in
      let (exact, long) = run_trials-IsTrial left (x.end_ + 1) rans in
      subst (λ ys. (length ys ≡ suc left) × All (IsTrial r) ys)
        (returned-injective (x ∷ rest) xs out)
        (omega (arith, exact), (run_trial-IsTrial pos ran, long))

  run_trials_total :
      ((k : ℕ) → r.clock k + spin_duration ≤ r.clock (k + r.fuel))
      → (left pos : ℕ) → (xs : List Trial) × (run_trials F r left pos ≡ returned xs)
  unfolding run_trials run_trial
  run_trials_total advances zero pos = ([], refl)
  run_trials_total advances (suc left) pos =
      let (behind, spun) =
        spin_total_from r.fuel r.clock pos spin_duration (omega arith) advances in
      >>=_returns (run_trial F r pos) _ (record { beg = pos; end_ = behind - 1 }) (rw spun)
        (let (xs, rans) = run_trials_total advances left (behind - 1 + 1) in
          >>=_returns (run_trials F r left (behind - 1 + 1)) _ xs rans (_, refl))

  -- The calibration ends if the clock advances by 10 ms while a trial takes the readings that it
  -- may take.
  pub ns_per_rdtsc_tick_total :
      ((k : ℕ) → r.clock k + spin_duration ≤ r.clock (k + r.fuel))
      → (tick : F.Double) × (ns_per_rdtsc_tick F r ≡ returned tick)
  unfolding ns_per_rdtsc_tick
  ns_per_rdtsc_tick_total advances =
      let (xs, rans) = run_trials_total advances 13 0 in
      >>=_returns (run_trials F r 13 0) _ xs rans (_, refl)
