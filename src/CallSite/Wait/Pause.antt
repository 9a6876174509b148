-- ===== src/CallSite/Wait/Pause.antt =====
-- The length of the pauses of `wait`, and when they end.
use mathlib.Core.Path.{subst}
use native.Mathlib.Nat.{zero-add}
use logger_benchmarks.Prelude.{
  ℕ, zero, suc, ◌+◌, ◌-◌, ◌≤◌, ◌<◌, ◌≡◌, ap, arith, ltb, Bool-cases, inl, inr, some, ltb→lt,
}
use logger_benchmarks.Platform.Outcome.{returned, >>=-eq-returned}
use logger_benchmarks.Platform.Random.{Random, DrawsInRange}
use logger_benchmarks.CallSite.Wait.Defs.{spin, Pacing, engine_of, wait}

-- The loop ends at the first reading that is not before the end time.
pub record EndsAt (clock : ℕ → ℕ) (pos end_time pos' : ℕ) : Type 0 where
  pub after : pos < pos'
  pub reached : end_time ≤ clock (pos' - 1)
  pub early : (k : ℕ) → pos ≤ k → k < pos' - 1 → clock k < end_time

back : (n : ℕ) → n + 1 - 1 ≡ n
back n = omega arith

pub spin-EndsAt :
    (fuel : ℕ) (clock : ℕ → ℕ) (pos end_time : ℕ) {pos' : ℕ}
    → spin fuel clock pos end_time ≡ returned pos'
    → EndsAt clock pos end_time pos'
unfolding spin
spin-EndsAt zero clock pos end_time h = cc
spin-EndsAt (suc fuel) clock pos end_time {pos'} h = elim (Bool-cases (ltb (clock pos) end_time)) [
  | inl soon ↦
      let rest = spin-EndsAt fuel clock (pos + 1) end_time {pos' = pos'} (rw (soon, spin) at h) in
      record {
        after = omega (arith, rest.after);
        reached = rest.reached;
        early = λ k le lt. grind (arith, rest.early, ltb→lt (clock pos) end_time soon);
      }
  | inr done ↦
      let last : pos + 1 ≡ pos' = ground arith in
      record {
        after = omega arith;
        reached = ground (arith, ap clock (back pos));
        early = λ k le lt. absurd (omega arith);
      }
]

-- Enough fuel: the distance to a reading that is late enough.
pub spin_total :
    (fuel : ℕ) (clock : ℕ → ℕ) (pos end_time k : ℕ)
    → pos ≤ k
    → k < pos + fuel
    → end_time ≤ clock k
    → (pos' : ℕ) × (spin fuel clock pos end_time ≡ returned pos')
unfolding spin
spin_total zero clock pos end_time k le lt late = absurd (omega arith)
spin_total (suc fuel) clock pos end_time k le lt late =
    elim (Bool-cases (ltb (clock pos) end_time)) [
      | inl soon ↦
          let (pos', e) =
            spin_total fuel clock (pos + 1) end_time k (grind arith) (omega arith) late in
          (pos', rw (soon, spin) e)
      | inr done ↦ (pos + 1, rw (done, spin))
    ]

-- A pause as the benchmark means it, between the readings at `p.pos` and before `p'.pos`.
pub record IsPause (clock : ℕ → ℕ) (min max pos pos' : ℕ) : Type 0 where
  pub some_readings : pos + 1 < pos'
  pub long_enough : clock pos + min ≤ clock (pos' - 1)
  pub no_longer : (k : ℕ) → pos < k → k < pos' - 1 → clock k < clock pos + max

module _ (R : Random) (draws : DrawsInRange R) (clock : ℕ → ℕ) (min max id : ℕ)
    (le : min ≤ max) where
  -- If draws lie in their range, a pause that ends has lasted at least min, and no reading of the
  -- clock between the first and the last was max or more after the first.
  pub wait-IsPause :
      (fuel : ℕ) (p : Pacing R) {p' : Pacing R}
      → wait R fuel clock min max id p ≡ returned p'
      → IsPause clock min max p.pos p'.pos
  unfolding wait
  wait-IsPause fuel p {p'} h =
      let (lo, hi) = draws.in_range min max (engine_of R id p.gen) le in
      let d = (R.uniform min max (engine_of R id p.gen)).0 in
      let (pos', spun, rest) =
        >>=-eq-returned (spin fuel clock (p.pos + 1) (clock p.pos + d)) _ h in
      let ends = spin-EndsAt fuel clock (p.pos + 1) (clock p.pos + d) spun in
      let same : pos' ≡ p'.pos = ground arith in
      subst (IsPause clock min max p.pos) same (record {
        some_readings = ends.after;
        long_enough = omega (arith, ends.reached);
        no_longer = λ k a b. omega (arith, ends.early k (omega arith) b);
      })

  -- A pause ends if draws lie in their range and a reading within the fuel is max or more after its
  -- start.
  pub wait_total :
      (fuel : ℕ) (p : Pacing R) (k : ℕ)
      → p.pos < k
      → k ≤ p.pos + fuel
      → clock p.pos + max ≤ clock k
      → (p' : Pacing R) × (wait R fuel clock min max id p ≡ returned p')
  unfolding wait
  wait_total fuel p k after near late =
      let (lo, hi) = draws.in_range min max (engine_of R id p.gen) le in
      let drawn = R.uniform min max (engine_of R id p.gen) in
      let (pos', e) =
        spin_total fuel clock (p.pos + 1) (clock p.pos + drawn.0) k (omega arith) (omega arith)
          (omega arith) in
      (record { gen = some drawn.1; pos = pos' }, rw e)

-- A clock that advances does so over at least one reading.
pub some_readings_of : (clock : ℕ → ℕ) (n d : ℕ) → 0 < d → clock 0 + d ≤ clock (0 + n) → 0 < n
some_readings_of clock zero d pos h = absurd (omega (arith, ap clock (zero-add 0)))
some_readings_of clock (suc n) d pos h = omega arith

-- The loop also ends within the fuel if the clock advances by the whole distance.
pub spin_total_from :
    (fuel : ℕ) (clock : ℕ → ℕ) (pos d : ℕ)
    → 0 < d
    → ((k : ℕ) → clock k + d ≤ clock (k + fuel))
    → (pos' : ℕ) × (spin fuel clock (pos + 1) (clock pos + d) ≡ returned pos')
spin_total_from fuel clock pos d positive advances =
    let some_fuel = some_readings_of clock fuel d positive (advances 0) in
    spin_total fuel clock (pos + 1) (clock pos + d) (pos + fuel) (omega arith) (omega arith)
      (advances pos)
