-- ===== src/CallSite/Run/Printed.antt =====
-- Which samples the report of `run_benchmark` is about.
use logger_benchmarks.Prelude.{
  ℕ, zero, suc, ◌*◌, ◌%◌, ◌^◌, ◌≡◌, refl, sym, ap, ◌∙◌, List, [], ◌∷◌, ◌++◌, length, Bytes,
  append-nil, append_assoc, concat_upto,
}
use logger_benchmarks.Platform.Doubles.{Doubles}
use logger_benchmarks.Platform.Random.{Random}
use logger_benchmarks.Call.{BenchType}
use logger_benchmarks.CallSite.Report.{report}
use logger_benchmarks.CallSite.Producer.{Callbacks, Produced}
use logger_benchmarks.CallSite.Run.Defs.{Machine, Ran, combined, IsRun}
use logger_benchmarks.CallSite.Run.Ends.{producer_at}

concat_upto-suc {ℓ} :
    {A : Type ℓ} (n : ℕ) (f : ℕ → List A)
    → concat_upto (suc n) f ≡ f 0 ++ concat_upto n (λ i. f (suc i))
unfolding concat_upto
concat_upto-suc zero f = sym (append-nil (f 0))
concat_upto-suc (suc n) f =
    ap (λ l. l ++ f (suc n)) (concat_upto-suc n f)
    ∙ append_assoc (f 0) (concat_upto n (λ i. f (suc i))) (f (suc n))

-- the samples of thread `i`
abbrev pub samples_at : {Double : Type 0} → List (Produced Double) → ℕ → List ℕ
samples_at ps i = (producer_at ps i).latencies

combined-concat_upto :
    {Double : Type 0} (ps : List (Produced Double))
    → combined ps ≡ concat_upto (length ps) (samples_at ps)
unfolding combined concat_upto
combined-concat_upto [] = refl
combined-concat_upto (p ∷ ps) =
    ap (λ l. p.latencies ++ l) (combined-concat_upto ps)
    ∙ sym (concat_upto-suc (length ps) (samples_at (p ∷ ps)))

module _ (R : Random) (F : Doubles) (t : BenchType) (m : Machine) (cb : Callbacks F.Double t)
    (num_iterations messages : ℕ) where
  -- the text on `std::cout` of a run with these producers, one per thread
  abbrev pub PrintsSamples : Bytes → ℕ → Ran F.Double → Type 0
  PrintsSamples name n x =
      (length x.producers ≡ n)
      × (x.output
          ≡ report F n (num_iterations * messages % 2 ^ 64) name
              (concat_upto n (samples_at x.producers)))

  pub IsRun-PrintsSamples :
      (name : Bytes) (n : ℕ) (x : Ran F.Double)
      → IsRun R F t m cb num_iterations messages name n x
      → PrintsSamples name n x
  IsRun-PrintsSamples name n x run =
      let all =
        combined-concat_upto x.producers
        ∙ ap (λ k. concat_upto k (samples_at x.producers)) run.all_threads in
      (run.all_threads, run.printed ∙ ap (report F n (num_iterations * messages % 2 ^ 64) name) all)
