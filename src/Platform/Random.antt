-- ===== src/Platform/Random.antt =====
-- `std::mt19937` with `std::uniform_int_distribution`, whose algorithm the standard leaves open.
use logger_benchmarks.Prelude.{ℕ, ◌≤◌}

pub record Random : Type 1 where
  pub Engine : Type 0
  pub seed : ℕ → Engine
  pub uniform : ℕ → ℕ → Engine → ℕ × Engine

-- A draw lies in the closed range of its distribution.
pub record DrawsInRange (R : Random) : Type 0 where
  pub in_range :
      (lo hi : ℕ) (g : R.Engine)
      → lo ≤ hi
      → (lo ≤ (R.uniform lo hi g).0) × ((R.uniform lo hi g).0 ≤ hi)
