-- ===== src/CallSite/Run/Messages.antt =====
-- The number of library calls that `run_benchmark` makes behind the start barrier.
use native.Mathlib.Nat.{mod-eq_of_lt}
use logger_benchmarks.Prelude.{
  ℕ, zero, suc, ◌+◌, ◌*◌, ◌%◌, ◌^◌, ◌<◌, ◌≡◌, refl, ap, arith, Bool, true, false, ◌==◌, List, [],
  ◌∷◌, ◌++◌, map, Bytes, length, concat_upto, length-concat_upto, sum_upto, sum_upto_ext,
  sum_upto_step, sum_upto_zero, sum_upto-const, Bool-cases, inl, inr,
}
use logger_benchmarks.Prelude.Int.{pos}
use logger_benchmarks.Prelude.Sort.{count_if}
use logger_benchmarks.Platform.Doubles.{Doubles}
use logger_benchmarks.Platform.Random.{Random}
use logger_benchmarks.Platform.Outcome.{returned, set_thread_affinity}
use logger_benchmarks.Call.{BenchType, PayloadOf, Call}
use logger_benchmarks.CallSite.Share.{messages_for_thread, sum-messages_for_thread}
use logger_benchmarks.CallSite.Producer.{
  Action, call, stamp, pause, Callbacks, Readings, Produced, run_log_benchmark, engine_at,
  iteration, messages_of, run_log_benchmark-Closed,
}
use logger_benchmarks.CallSite.Payload.{payload}
use logger_benchmarks.CallSite.Run.Defs.{Machine, Ran, run_benchmark, Spawned, run_benchmark-IsRun}

abbrev is_call : {Double : Type 0} → Action Double → Bool
is_call (call c) = true
is_call stamp = false
is_call pause = false

-- how many calls a list of actions makes
abbrev pub calls_in : {Double : Type 0} → List (Action Double) → ℕ
calls_in = count_if is_call

module _ {Double : Type 0} where
  calls_in-append : (xs ys : List (Action Double)) → calls_in (xs ++ ys) ≡ calls_in xs + calls_in ys
  calls_in-append [] ys = omega arith
  calls_in-append (x ∷ xs) ys = omega (arith, calls_in-append xs ys)

  calls_in-map : (cs : List (Call Double)) → calls_in (map call cs) ≡ length cs
  calls_in-map [] = refl
  calls_in-map (c ∷ cs) = omega (arith, calls_in-map cs)

  calls_in-concat_upto :
      (n : ℕ) (f : ℕ → List (Action Double))
      → calls_in (concat_upto n f) ≡ sum_upto n (λ i. calls_in (f i))
  unfolding concat_upto sum_upto
  calls_in-concat_upto zero f = refl
  calls_in-concat_upto (suc n) f =
      omega (arith, calls_in-append (concat_upto n f) (f n), calls_in-concat_upto n f)

-- Each call of `log_func` makes one call of the logging library.
abbrev pub LogsOnce : {Double : Type 0} {t : BenchType} → Callbacks Double t → Type 0
LogsOnce {Double} {t} cb = (i j : ℕ) (v : PayloadOf Double t) → length (cb.log_func i j v) ≡ 1

module _ (R : Random) (F : Doubles) (t : BenchType) (cb : Callbacks F.Double t)
    (once : LogsOnce cb) where
  calls_in-iteration :
      (r : Readings) (messages thread : ℕ) (tick : F.Double) (i : ℕ)
      → calls_in (iteration R F t cb r messages thread tick i) ≡ messages
  unfolding iteration messages_of
  calls_in-iteration r messages thread tick i =
      let v = (payload R F t i (engine_at R F t cb r messages thread tick i)).0 in
      let cs = concat_upto messages (λ j. cb.log_func i j v) in
      omega (
        arith,
        calls_in-append (stamp ∷ map call cs) (stamp ∷ pause ∷ []),
        calls_in-map cs,
        length-concat_upto messages (λ j. cb.log_func i j v),
        sum_upto_ext messages (λ j. length (cb.log_func i j v)) (λ _. 1) (λ j _. once i j v),
        sum_upto-const messages 1,
      )

  calls_of_producer :
      (r : Readings) (messages thread : ℕ) (tick : F.Double) (allowed : ℕ → Bool) (n : ℕ)
      {p : Produced F.Double}
      → run_log_benchmark R F t cb r messages thread tick allowed n ≡ returned p
      → calls_in p.measured ≡ n * messages + length cb.on_thread_exit
  unfolding run_log_benchmark set_thread_affinity
  calls_of_producer r messages thread tick allowed n {p} h = elim (Bool-cases (messages == 0)) [
    | inl idle ↦
        let none : messages ≡ 0 = ground arith in
        let same : p.measured ≡ map call cb.on_thread_exit = ground arith in
        rw (same, none) (omega (arith, calls_in-map cb.on_thread_exit))
    | inr busy ↦
        let (_, acts, _) =
          run_log_benchmark-Closed R F t cb r messages thread tick allowed n {p = p} busy h in
        let each = iteration R F t cb r messages thread tick in
        omega (
          arith,
          ap calls_in acts,
          calls_in-append (concat_upto n each) (map call cb.on_thread_exit),
          calls_in-map cb.on_thread_exit,
          calls_in-concat_upto n each,
          sum_upto_ext n (λ i. calls_in (each i)) (λ _. messages)
              (λ i _. calls_in-iteration r messages thread tick i),
          sum_upto-const n messages,
        )
  ]

-- what the producers call behind the barrier, together
abbrev pub calls_of : {Double : Type 0} → List (Produced Double) → ℕ
calls_of [] = 0
calls_of (p ∷ ps) = calls_in p.measured + calls_of ps

module _ (R : Random) (F : Doubles) (t : BenchType) (m : Machine) (cb : Callbacks F.Double t)
    (once : LogsOnce cb) (num_iterations messages : ℕ) (fits : messages < 2 ^ 64) where
  calls_of_spawned :
      (n : ℕ) (tick : F.Double) (i e : ℕ) (ps : List (Produced F.Double))
      → i + length ps ≡ e
      → Spawned R F t m cb num_iterations messages n tick i ps
      → calls_of ps + num_iterations * sum_upto i (messages_for_thread messages n)
        ≡ num_iterations * sum_upto e (messages_for_thread messages n)
          + length ps * length cb.on_thread_exit
  calls_of_spawned n tick i e [] at h = let same : i ≡ e = omega arith in rw same (omega arith)
  calls_of_spawned n tick i e (p ∷ ps) at (ran, h) = omega (
    arith,
    calls_of_producer R F t cb once (m.readings (i + 1)) _ (i + 1) tick m.allowed num_iterations
        ran,
    calls_of_spawned n tick (i + 1) e ps (omega arith) h,
    ap (λ (x : ℕ). num_iterations * x) (sum_upto_step i (messages_for_thread messages n)),
  )

  -- If each call of log_func makes one library call, and the numbers of messages fit 64 bits, a run
  -- that ends with a positive count of threads makes, behind the start barrier, as many logging
  -- calls as its report gives as total messages, beside those of the exit callbacks.
  pub calls-total_messages :
      (benchmark_name : Bytes) (n : ℕ) {x : Ran F.Double}
      → 0 < n
      → num_iterations * messages < 2 ^ 64
      → run_benchmark R F t m cb num_iterations messages benchmark_name (pos n) ≡ returned x
      → calls_of x.producers ≡ num_iterations * messages % 2 ^ 64 + n * length cb.on_thread_exit
  calls-total_messages name n {x} positive small h =
      let run = run_benchmark-IsRun R F t m cb num_iterations messages name n positive h in
      let calls =
        calls_of_spawned n run.tick 0 n x.producers (omega (arith, run.all_threads)) run.spawned in
      omega (
        arith,
        calls,
        ap (λ (x : ℕ). num_iterations * x) (sum-messages_for_thread messages n positive fits),
        ap (λ (x : ℕ). num_iterations * x) (sum_upto_zero (messages_for_thread messages n)),
        ap (λ (x : ℕ). x * length cb.on_thread_exit) run.all_threads,
        mod-eq_of_lt small,
      )
