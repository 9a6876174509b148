-- ===== src/Throughput/Waits.antt =====
-- The waits of the throughput programs: spdlog's for an empty queue, and Iyengar NanoLog's for the marker
-- in its file.
use logger_benchmarks.Prelude.{
  ℕ, zero, suc, ◌+◌, ◌≡◌, ◌≤◌, ◌<◌, refl, arith, Bool, true, ◌==◌, List, [], ◌∷◌, ◌++◌, Option,
  some, Bytes, Bool-cases, inl, inr, length,
}
use logger_benchmarks.Platform.Doubles.{Doubles}
use logger_benchmarks.Platform.Outcome.{returned, >>=-eq-returned, >>=_returns}
use logger_benchmarks.Call.{Call, sleep_for, stream, critical, str}
use logger_benchmarks.Latency.Program.{perform}
use logger_benchmarks.Throughput.Program.{Program, Finished, Measured, main, poll_until}
use logger_benchmarks.Throughput.Tail.{
  end_marker, file_tail_contains, max_tail_size, Holds, file_tail_contains_sound,
  file_tail_contains_complete,
}
use logger_benchmarks.Throughput.Workers.{spdlog}
use logger_benchmarks.Throughput.Fmt.{iyengar_nanolog}

module _ (F : Doubles) where
  open F use {Double}

  poll_until_sound :
      (test : ℕ → Bool) (pause fuel k : ℕ) {c : List (Call Double)}
      → poll_until F test pause fuel k ≡ returned c
      → (n : ℕ) × (test n ≡ true)
  unfolding poll_until
  poll_until_sound test pause zero k h = cc
  poll_until_sound test pause (suc fuel) k h = elim (Bool-cases (test k)) [
    | inl yes_ ↦ (k, yes_)
    | inr no_ ↦
        let (_, again, _) =
          >>=-eq-returned (poll_until F test pause fuel (k + 1)) _ (rw no_ at h) in
        poll_until_sound test pause fuel (k + 1) again
  ]

  poll_until_total :
      (test : ℕ → Bool) (pause fuel k n : ℕ)
      → k ≤ n
      → n < k + fuel
      → test n ≡ true
      → (c : List (Call Double)) × (poll_until F test pause fuel k ≡ returned c)
  unfolding poll_until
  poll_until_total test pause zero k n le lt yes_ = absurd (omega arith)
  poll_until_total test pause (suc fuel) k n le lt yes_ = elim (Bool-cases (test k)) [
    | inl now ↦ ([], rw now)
    | inr later ↦
        let (c, e) = poll_until_total test pause fuel (k + 1) n (grind arith) (omega arith) yes_ in
        (sleep_for pause ∷ c, rw (later, e))
  ]

  -- a program ends if its CPUs may be set and both waits end
  main_total :
      (allowed : ℕ → Bool) (x : Measured F) (n : ℕ) (p : Program F)
      (waited finish : List (Call Double))
      → perform allowed p.setup ≡ returned tt
      → p.ready ≡ returned waited
      → p.finish ≡ returned finish
      → (out : Finished F) × (main F allowed x n p ≡ returned out)
  unfolding main
  main_total allowed x n p waited finish h e e' =
      >>=_returns (perform allowed p.setup) _ tt h
        (>>=_returns p.ready _ waited e (>>=_returns p.finish _ finish e' (_, refl)))

  -- If the program of spdlog ends, the thread pool has reported an empty queue in its wait before
  -- the clock is started.
  pub spdlog_starts_empty :
      (queue_size : ℕ → ℕ) (fuel : ℕ) (allowed : ℕ → Bool) (x : Measured F) (n : ℕ)
      (out : Finished F)
      → main F allowed x n (spdlog F queue_size fuel) ≡ returned out
      → (k : ℕ) × (queue_size k ≡ 0)
  unfolding main spdlog
  spdlog_starts_empty queue_size fuel allowed x n out h =
      let (_, _, h1) = >>=-eq-returned (perform allowed (spdlog F queue_size fuel).setup) _ h in
      let (c, waited, _) = >>=-eq-returned (poll_until F _ _ fuel 0) _ h1 in
      let (k, empty) = poll_until_sound (λ k. queue_size k == 0) _ fuel 0 {c = c} waited in
      (k, ground arith)

  -- The program of spdlog ends if CPU 1 may be set and the queue is empty in some round within the
  -- fuel.
  pub spdlog_total :
      (queue_size : ℕ → ℕ) (fuel : ℕ) (allowed : ℕ → Bool) (x : Measured F) (n k : ℕ)
      → allowed 1 ≡ true
      → k < fuel
      → queue_size k ≡ 0
      → (out : Finished F) × (main F allowed x n (spdlog F queue_size fuel) ≡ returned out)
  unfolding main spdlog perform
  spdlog_total queue_size fuel allowed x n k permitted within empty =
      let (c, waited) =
        poll_until_total (λ k. queue_size k == 0) 5_000_000 fuel 0 k (omega arith) (omega arith)
          (ground arith) in
      main_total allowed x n (spdlog F queue_size fuel) c _ (rw permitted) waited refl

  -- If the program of Iyengar NanoLog ends, in some round of its wait the log file could be opened
  -- and held the end marker.
  pub iyengar_stops_written :
      (file : ℕ → Option Bytes) (fuel : ℕ) (allowed : ℕ → Bool) (x : Measured F) (n : ℕ)
      (out : Finished F)
      → main F allowed x n (iyengar_nanolog F file fuel) ≡ returned out
      → (k : ℕ) × ((content : Bytes) × (file k ≡ some content) × Holds content end_marker)
  unfolding main iyengar_nanolog
  iyengar_stops_written file fuel allowed x n out h =
      let (_, _, h1) = >>=-eq-returned (perform allowed (iyengar_nanolog F file fuel).setup) _ h in
      let (_, finished, _) = >>=-eq-returned (iyengar_nanolog F file fuel).finish _ h1 in
      let (c, waited, _) = >>=-eq-returned (poll_until F _ _ fuel 0) _ finished in
      let (k, found) =
        poll_until_sound (λ k. file_tail_contains (file k) end_marker) _ fuel 0 {c = c} waited in
      (k, file_tail_contains_sound (file k) end_marker found)

  -- The program of Iyengar NanoLog ends if CPUs 5 and 1 may be set and, in some round within the
  -- fuel, the file holds the marker within its last 4096 bytes.
  pub iyengar_total :
      (file : ℕ → Option Bytes) (fuel : ℕ) (allowed : ℕ → Bool) (x : Measured F) (n k : ℕ)
      (front rest : Bytes)
      → allowed 5 ≡ true
      → allowed 1 ≡ true
      → k < fuel
      → file k ≡ some (front ++ (end_marker ++ rest))
      → length (end_marker ++ rest) ≤ max_tail_size
      → (out : Finished F) × (main F allowed x n (iyengar_nanolog F file fuel) ≡ returned out)
  unfolding main iyengar_nanolog perform end_marker
  iyengar_total file fuel allowed x n k front rest p5 p1 within written near =
      let found : file_tail_contains (file k) end_marker ≡ true =
        rw written (file_tail_contains_complete front end_marker rest (omega arith) near) in
      let (c, waited) =
        poll_until_total (λ k. file_tail_contains (file k) end_marker) 100_000 fuel 0 k
          (omega arith) (omega arith) found in
      main_total allowed x n (iyengar_nanolog F file fuel) []
        (stream "LOG_CRIT" critical (str end_marker ∷ []) ∷ c) (rw (p5, p1)) refl (rw waited)
