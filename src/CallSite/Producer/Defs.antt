-- ===== src/CallSite/Producer/Defs.antt =====
-- `run_log_benchmark` of call_site_latency_bench.h, as the trace of what a thread does.
use logger_benchmarks.Prelude.{
  ℕ, zero, suc, ◌+◌, ◌-◌, ◌*◌, ◌%◌, ◌^◌, Bool, ◌==◌, if◌then◌else◌, none, List, [], ◌∷◌, ◌++◌, map,
  concat_upto,
}
use logger_benchmarks.Platform.Doubles.{Doubles}
use logger_benchmarks.Platform.Random.{Random}
use logger_benchmarks.Platform.Outcome.{Outcome, returned, ◌>>=◌, ◌>>◌, set_thread_affinity}
use logger_benchmarks.Call.{BenchType, PayloadOf, Call, set_affinity}
use logger_benchmarks.CallSite.Wait.{Pacing, wait}
use logger_benchmarks.CallSite.Payload.{payload, payload_seed}

-- MIN_WAIT_DURATION and MAX_WAIT_DURATION, in nanoseconds
abbrev pub min_wait_duration : ℕ
min_wait_duration = 2_000_000

abbrev pub max_wait_duration : ℕ
max_wait_duration = 2_200_000

-- One thing that a producer thread does.
pub data Action (Double : Type 0) : Type 0 where
  call : Call Double → Action Double
  stamp : Action Double  -- serialized_rdtsc()
  pause : Action Double  -- wait(…)

-- The callbacks that a benchmark hands to the harness.
pub record Callbacks (Double : Type 0) (t : BenchType) : Type 0 where
  pub on_thread_start : List (Call Double)
  pub log_func : ℕ → ℕ → PayloadOf Double t → List (Call Double)
  pub on_thread_exit : List (Call Double)

-- What a thread reads from the machine: its n-th reading of the time-stamp counter and of the steady
-- clock, and how many readings of the clock a pause may take.
pub record Readings : Type 0 where
  pub tsc : ℕ → ℕ
  pub clock : ℕ → ℕ
  pub fuel : ℕ

-- What a thread leaves: what it does before and after the start barrier, and its samples.
pub record Produced (Double : Type 0) : Type 0 where
  pub warm_up : List (Action Double)
  pub measured : List (Action Double)
  pub latencies : List ℕ

module _ (R : Random) (F : Doubles) (t : BenchType) where
  open F use {Double, of_nat, mul, div, to_u64}

  -- The variables of the loop over the iterations.
  pub record Local : Type 0 where
    pub gen : R.Engine
    pub pacing : Pacing R
    pub actions : List (Action Double)
    pub latencies : List ℕ

  module _ (cb : Callbacks Double t) (r : Readings) (messages thread : ℕ)
      (ns_rdtsc_tick : Double) where
    -- The sample of iteration `i`, whose two readings of the counter are number 2 i and 2 i + 1.
    unfoldable pub latency_of : ℕ → ℕ
    latency_of i =
        let start = r.tsc (2 * i) in
        let end_ = r.tsc (2 * i + 1) in
        to_u64
          (mul (div (of_nat ((end_ + 2 ^ 64 - start) % 2 ^ 64)) (of_nat messages)) ns_rdtsc_tick)

    unfoldable pub iterate : ℕ → ℕ → Local → Outcome Local
    unfolding latency_of
    iterate zero i s = returned s
    iterate (suc left) i s = do
      let (v, gen) = payload R F t i s.gen
      let logged = concat_upto messages (λ j. cb.log_func i j v)
      pacing ← wait R r.fuel r.clock min_wait_duration max_wait_duration thread s.pacing
      iterate left (i + 1) (record {
        gen = gen;
        pacing = pacing;
        actions = s.actions ++ (stamp ∷ map call logged ++ stamp ∷ pause ∷ []);
        latencies = s.latencies ++ latency_of i ∷ [];
      })

    unfoldable pub entry : Local
    entry = record {
      gen = R.seed (payload_seed thread);
      pacing = record { gen = none; pos = 0 };
      actions = [];
      latencies = [];
    }

    unfoldable pub run_log_benchmark : (ℕ → Bool) → ℕ → Outcome (Produced Double)
    unfolding iterate entry
    run_log_benchmark allowed num_iterations = do
      set_thread_affinity allowed thread
      let warm_up = call (set_affinity thread) ∷ map call cb.on_thread_start
      let leave = map call cb.on_thread_exit
      let body = iterate num_iterations 0 entry >>= λ s.
          returned
            (record { warm_up = warm_up; measured = s.actions ++ leave; latencies = s.latencies })
      if messages == 0
          then returned (record { warm_up = warm_up; measured = leave; latencies = [] })
          else body
