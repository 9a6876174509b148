-- ===== src/CallSite/Wait/Defs.antt =====
-- `wait` of call_site_latency_bench.h.
use logger_benchmarks.Prelude.{ℕ, zero, suc, ◌+◌, ◌%◌, ◌^◌, ltb, Option, none, some, true, false}
use logger_benchmarks.Platform.Outcome.{Outcome, returned, waiting, ◌>>=◌}
use logger_benchmarks.Platform.Random.{Random}

-- `do { time_now = now(); } while (time_now < end_time);`, for `fuel` readings at most. The result
-- is the position behind the last reading.
unfoldable pub spin : ℕ → (ℕ → ℕ) → ℕ → ℕ → Outcome ℕ
spin zero clock pos end_time = waiting
spin (suc fuel) clock pos end_time = elim (ltb (clock pos) end_time) [
  | true ↦ spin fuel clock (pos + 1) end_time
  | false ↦ returned (pos + 1)
]

-- `static_cast<std::mt19937::result_type>(0x51ee'50a7u + stream_id)`, reduced as the engine does it
unfoldable pub wait_seed : ℕ → ℕ
wait_seed stream_id = (0x51ee_50a7 + stream_id) % 2 ^ 64 % 2 ^ 32

module _ (R : Random) where
  open R use {Engine, seed, uniform}

  -- What the pauses of one thread share: its `thread_local` engine, made by the first call, and how
  -- many readings of its clock it has taken.
  pub record Pacing : Type 0 where
    pub gen : Option Engine
    pub pos : ℕ

  unfoldable pub engine_of : ℕ → Option Engine → Engine
  unfolding wait_seed
  engine_of stream_id none = seed (wait_seed stream_id)
  engine_of stream_id (some g) = g

  unfoldable pub wait : ℕ → (ℕ → ℕ) → ℕ → ℕ → ℕ → Pacing → Outcome Pacing
  unfolding engine_of
  wait fuel clock min max stream_id p = do
    let start_time = clock p.pos
    let (drawn, gen) = uniform min max (engine_of stream_id p.gen)
    pos ← spin fuel clock (p.pos + 1) (start_time + drawn)
    returned (record { gen = some gen; pos = pos })
