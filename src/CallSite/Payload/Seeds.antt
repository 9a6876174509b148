-- ===== src/CallSite/Payload/Seeds.antt =====
-- The seeds of the two engines of a thread in call_site_latency_bench.h.
use logger_benchmarks.Prelude.{ℕ, ◌^◌, ◌<◌, ◌≢◌, arith}
use logger_benchmarks.CallSite.Wait.{wait_seed}
use logger_benchmarks.CallSite.Payload.Defs.{payload_seed}

-- Of two different producers with indices below 2^30, the engines of the pauses have different
-- seeds, the engines of the payloads too, and the pauses of the first another seed than the
-- payloads of either.
pub seeds_apart :
    (i j : ℕ)
    → i < 2 ^ 30
    → j < 2 ^ 30
    → i ≢ j
    → (wait_seed i ≢ wait_seed j)
      × (payload_seed i ≢ payload_seed j)
      × (wait_seed i ≢ payload_seed j)
      × (wait_seed i ≢ payload_seed i)
unfolding wait_seed payload_seed
seeds_apart i j hi hj apart = omega arith
