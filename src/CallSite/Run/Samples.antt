-- ===== src/CallSite/Run/Samples.antt =====
-- The number of samples of `run_benchmark`.
use Prim.Native.Nat.{min}
use logger_benchmarks.Prelude.{
  ℕ, ◌+◌, ◌*◌, ◌^◌, ◌≤◌, ◌<◌, ◌≡◌, refl, ap, arith, ◌==◌, if◌then◌else◌, List, [], ◌∷◌, Bytes,
  length, length-append, dec_le,
}
use logger_benchmarks.Prelude.Int.{pos}
use logger_benchmarks.Platform.Doubles.{Doubles}
use logger_benchmarks.Platform.Random.{Random}
use logger_benchmarks.Platform.Outcome.{returned}
use logger_benchmarks.Call.{BenchType}
use logger_benchmarks.CallSite.Share.{messages_for_thread, messages_for_thread-eq-zero}
use logger_benchmarks.CallSite.Producer.{Callbacks, Produced, length-latencies}
use logger_benchmarks.CallSite.Run.Defs.{
  Machine, Ran, combined, run_benchmark, Spawned, run_benchmark-IsRun,
}

module _ (F : Doubles) where
  length-combined_nil : length (combined {Double = F.Double} []) ≡ 0
  unfolding combined
  length-combined_nil = refl

  length-combined_cons :
      (p : Produced F.Double) (ps : List (Produced F.Double))
      → length (combined (p ∷ ps)) ≡ length p.latencies + length (combined ps)
  unfolding combined
  length-combined_cons p ps = length-append p.latencies (combined ps)

-- Thread `i` adds the samples of all iterations, unless no message is left for it.
own_samples :
    (k messages n i : ℕ)
    → i < n
    → messages < 2 ^ 64
    → (if messages_for_thread messages n i == 0 then 0 else k) + k * min i messages
      ≡ k * min (i + 1) messages
own_samples k messages n i lt fits =
    let none_left = messages_for_thread-eq-zero messages n i lt fits in
    elim (dec_le messages i) [
      | yes le ↦
          let e : min (i + 1) messages ≡ min i messages = omega arith in
          ground (arith, none_left.1 le)
      | no more ↦
          let e : min (i + 1) messages ≡ i + 1 = omega arith in
          let e' : min i messages ≡ i = omega arith in grind (arith, none_left.0)
    ]

module _ (R : Random) (F : Doubles) (t : BenchType) (m : Machine) (cb : Callbacks F.Double t)
    (num_iterations messages : ℕ) (fits : messages < 2 ^ 64) where
  samples_of :
      (n : ℕ) (tick : F.Double) (i e : ℕ) (ps : List (Produced F.Double))
      → i + length ps ≡ e
      → e ≤ n
      → Spawned R F t m cb num_iterations messages n tick i ps
      → length (combined ps) + num_iterations * min i messages ≡ num_iterations * min e messages
  samples_of n tick i e [] at le h =
      let same : i ≡ e = omega arith in rw same (omega (arith, length-combined_nil F))
  samples_of n tick i e (p ∷ ps) at le (ran, h) = omega (
    arith,
    length-combined_cons F p ps,
    length-latencies R F t cb (m.readings (i + 1)) _ (i + 1) tick m.allowed num_iterations ran,
    own_samples num_iterations messages n i (omega arith) fits,
    samples_of n tick (i + 1) e ps (omega arith) le h,
  )

  -- If the messages of an iteration fit 64 bits, a run that ends with a positive count of threads
  -- has one sample for each iteration of each thread that has messages to log.
  pub length-combined :
      (benchmark_name : Bytes) (n : ℕ) {x : Ran F.Double}
      → 0 < n
      → run_benchmark R F t m cb num_iterations messages benchmark_name (pos n) ≡ returned x
      → length (combined x.producers) ≡ num_iterations * min n messages
  length-combined name n {x} positive h =
      let run = run_benchmark-IsRun R F t m cb num_iterations messages name n positive h in
      let none_yet : min 0 messages ≡ 0 = omega arith in
      omega (
        arith,
        ap (λ (x : ℕ). num_iterations * x) none_yet,
        samples_of n run.tick 0 n x.producers (omega (arith, run.all_threads)) (omega arith)
            run.spawned,
      )
