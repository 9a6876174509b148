-- ===== src/Latency/Drain/Rounds.antt =====
-- The rounds of the backend threads of fmtlog and Ms binLog.
use mathlib.Core.Path.{subst}
use native.Mathlib.Numerals.{add-one}
use logger_benchmarks.Prelude.{
  ℕ, zero, suc, ◌+◌, ◌<◌, ◌≤◌, ◌≡◌, ap, arith, Bool, true, false, not, ◌&&◌, ◌||◌, ◌==◌,
  if◌then◌else◌, List, [], ◌∷◌, ◌++◌, append_assoc, append-nil, dec_lt, concat_upto,
}
use logger_benchmarks.Platform.Outcome.{returned}
use logger_benchmarks.Call.{flag, lit, Call, set_affinity, sleep_for, lib}
use logger_benchmarks.Latency.Drain.Defs.{
  LoopReads, poll_loop, fmtlog_backend, pausing_loop, busy_loop, open_log_file,
  binlog_backend_latency, binlog_backend_throughput,
}

-- A test holds in round `n` for the first time.
pub record IsFirst (test : ℕ → Bool) (n : ℕ) : Type 0 where
  pub holds : test n ≡ true
  pub before : (k : ℕ) → k < n → test k ≡ false

module _ (r : LoopReads) where
  -- the round in which the backend thread of Ms binLog stops
  abbrev pub stops : ℕ → Bool
  stops k = r.done k && r.consumed k == 0

  -- the bytes of the round before, none before the first
  abbrev pub bytes_before : ℕ → ℕ
  bytes_before zero = 0
  bytes_before (suc k) = r.consumed k

  abbrev goes_on : ℕ → Bool
  goes_on k = not (r.done k) || not (r.consumed k == 0)

  goes_on-stops : (k : ℕ) (b : Bool) → stops k ≡ b → goes_on k ≡ not b
  goes_on-stops k b h = ground arith

module _ {Double : Type 0} (r : LoopReads) where
  -- the calls of `n` rounds behind `acc`
  abbrev rounds : (ℕ → List (Call Double)) → List (Call Double) → ℕ → List (Call Double)
  rounds round acc n = acc ++ concat_upto n round

  rounds_step :
      (round : ℕ → List (Call Double)) (acc : List (Call Double)) (k : ℕ)
      → rounds round acc k ++ round k ≡ rounds round acc (k + 1)
  unfolding concat_upto
  rounds_step round acc k = rw (add-one, append_assoc)

  abbrev pub poll_round : ℕ → List (Call Double)
  poll_round k = lib "fmtlog::poll" (flag false ∷ []) ∷ []

  abbrev pub busy_round : ℕ → List (Call Double)
  busy_round k = lib "binlog::consume" (lit "logfile" ∷ []) ∷ []

  abbrev pub pausing_round : ℕ → List (Call Double)
  pausing_round k =
      (if bytes_before r k == 0 then sleep_for 300 ∷ [] else [])
      ++ lib "binlog::consume" (lit "logfile" ∷ []) ∷ []

  module _ (n : ℕ) (acc : List (Call Double)) where
    poll_loop-rounds :
        IsFirst r.done n
        → (fuel k : ℕ) → k ≤ n
        → n < k + fuel
        → poll_loop r fuel k (rounds poll_round acc k) ≡ returned (rounds poll_round acc (n + 1))
    unfolding poll_loop
    poll_loop-rounds first zero k le lt = absurd (omega arith)
    poll_loop-rounds first (suc fuel) k le lt = elim (dec_lt k n) [
      | yes early ↦
          rw (first.before k early, poll_loop, rounds_step poll_round acc k)
            (poll_loop-rounds first fuel (k + 1) (omega arith) (omega arith))
      | no last ↦
          let same : n ≡ k = omega arith in
          let seen = subst (λ x. r.done x ≡ true) same first.holds in
          rw (same, seen, poll_loop) (ap returned (rounds_step poll_round acc k))
    ]

    busy_loop-rounds :
        IsFirst (stops r) n
        → (fuel k : ℕ) → k ≤ n
        → n < k + fuel
        → busy_loop r fuel k (rounds busy_round acc k) ≡ returned (rounds busy_round acc (n + 1))
    unfolding busy_loop
    busy_loop-rounds first zero k le lt = absurd (omega arith)
    busy_loop-rounds first (suc fuel) k le lt = elim (dec_lt k n) [
      | yes early ↦
          rw (first.before k early, busy_loop, rounds_step busy_round acc k)
            (busy_loop-rounds first fuel (k + 1) (omega arith) (omega arith))
      | no last ↦
          let same : n ≡ k = omega arith in
          let seen = subst (λ x. stops r x ≡ true) same first.holds in
          rw (same, seen, busy_loop) (ap returned (rounds_step busy_round acc k))
    ]

    pausing_loop-rounds :
        IsFirst (stops r) n
        → (fuel k : ℕ) → k ≤ n
        → n < k + fuel
        → pausing_loop r fuel k (bytes_before r k) (rounds pausing_round acc k)
          ≡ returned (rounds pausing_round acc (n + 1))
    unfolding pausing_loop
    pausing_loop-rounds first zero k le lt = absurd (omega arith)
    pausing_loop-rounds first (suc fuel) k le lt = elim (dec_lt k n) [
      | yes early ↦
          rw
            (
              goes_on-stops r k false (first.before k early),
              pausing_loop,
              rounds_step pausing_round acc k,
            )
            (subst
              (λ x.
                pausing_loop r fuel (k + 1) x (rounds pausing_round acc (k + 1))
                ≡ returned (rounds pausing_round acc (n + 1)))
              {x = bytes_before r (k + 1)} (rw add-one)
              (pausing_loop-rounds first fuel (k + 1) (omega arith) (omega arith)))
      | no last ↦
          let same : n ≡ k = omega arith in
          let seen = subst (λ x. stops r x ≡ true) same first.holds in
          rw (same, goes_on-stops r k true seen, pausing_loop)
            (ap returned (rounds_step pausing_round acc k))
    ]

  rounds_none :
      (round : ℕ → List (Call Double)) (acc : List (Call Double)) → rounds round acc 0 ≡ acc
  unfolding concat_upto
  rounds_none round acc = append-nil acc

  -- The backend thread of fmtlog polls once a round up to the first round that sees done, and then
  -- once more with force.
  pub fmtlog_backend-rounds :
      (n : ℕ)
      → IsFirst r.done n
      → n < r.fuel
      → fmtlog_backend r
        ≡ returned (
            (set_affinity 5 ∷ concat_upto (n + 1) poll_round)
            ++ lib "fmtlog::poll" (flag true ∷ []) ∷ [])
  unfolding fmtlog_backend
  fmtlog_backend-rounds n first enough =
      let acc = set_affinity 5 ∷ [] in
      rw (
        subst (λ x. poll_loop r r.fuel 0 x ≡ returned (rounds poll_round acc (n + 1)))
          (rounds_none poll_round acc)
          (poll_loop-rounds n acc first r.fuel 0 (omega arith) (omega arith)))

  -- The backend threads of Ms binLog consume up to the first round that consumes nothing after done
  -- is set, and stop there; the one of the latency programs sleeps before the first round and
  -- before each round that follows an empty one.
  pub binlog_backends-rounds :
      (n : ℕ)
      → IsFirst (stops r) n
      → n < r.fuel
      → (binlog_backend_throughput r
          ≡ returned (
              open_log_file "benchmark_ms_binlog_backend_total_time.blog"
              ++ concat_upto (n + 1) busy_round))
        × (binlog_backend_latency r
            ≡ returned (
                open_log_file "binlog_call_site_latency_percentile_linux_benchmark.blog"
                ++ concat_upto (n + 1) pausing_round))
  unfolding binlog_backend_throughput binlog_backend_latency
  binlog_backends-rounds n first enough =
      let busy_file = open_log_file "benchmark_ms_binlog_backend_total_time.blog" in
      let pausing_file = open_log_file "binlog_call_site_latency_percentile_linux_benchmark.blog" in
      (
        subst (λ x. busy_loop r r.fuel 0 x ≡ returned (rounds busy_round busy_file (n + 1)))
            (rounds_none busy_round busy_file)
            (busy_loop-rounds n busy_file first r.fuel 0 (omega arith) (omega arith)),
        subst
            (λ x.
              pausing_loop r r.fuel 0 0 x ≡ returned (rounds pausing_round pausing_file (n + 1)))
            (rounds_none pausing_round pausing_file)
            (pausing_loop-rounds n pausing_file first r.fuel 0 (omega arith) (omega arith)),
      )
