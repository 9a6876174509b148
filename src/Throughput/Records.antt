-- ===== src/Throughput/Records.antt =====
-- What the throughput programs log, compared.
use mathlib.Core.Path.{subst}
use logger_benchmarks.Prelude.{
  ap, ℕ, zero, suc, ◌*◌, ◌%◌, ◌^◌, ◌+◌, ◌≡◌, refl, arith, Bool, List, [], ◌∷◌, ◌++◌, ◌⨾◌,
  concat_upto, Bool-cases, inl, inr, Option, Bytes, sym, ◌∙◌,
}
use logger_benchmarks.Platform.Doubles.{Doubles}
use logger_benchmarks.Platform.Outcome.{returned, >>=-eq-returned, returned-injective}
use logger_benchmarks.Call.{
  Level, info, notice, critical, Arg, num, real, str, Call, log, stream, set_affinity,
  set_pthread_affinity, remove_file, sleep_for, start_backend, store_done, join_backend, lib,
}
use logger_benchmarks.Latency.Program.{perform}
use logger_benchmarks.Latency.Records.{values, records}
use logger_benchmarks.Throughput.Program.{
  Program, Finished, Measured, main, double_of, arguments, poll_until,
}
use logger_benchmarks.Throughput.Tail.{end_marker}
use logger_benchmarks.Throughput.Targets.{Watched, programs}
use logger_benchmarks.Throughput.Quill.{quill, quill_with_functions}
use logger_benchmarks.Throughput.Workers.{bqlog, bqlog_binary, nanolog, reckless, spdlog, xtr}
use logger_benchmarks.Throughput.Fmt.{fmtlog, ms_binlog, iyengar_nanolog}
use logger_benchmarks.Throughput.Boost.{boost_log}

module _ {Double : Type 0} where
  pub records-append : (cs ds : List (Call Double)) → records (cs ++ ds) ≡ records cs ++ records ds
  records-append [] ds = refl
  records-append (set_affinity cpu ∷ cs) ds = records-append cs ds
  records-append (set_pthread_affinity handle cpu ∷ cs) ds = records-append cs ds
  records-append (remove_file name ∷ cs) ds = records-append cs ds
  records-append (sleep_for ns ∷ cs) ds = records-append cs ds
  records-append (start_backend ∷ cs) ds = records-append cs ds
  records-append (store_done ∷ cs) ds = records-append cs ds
  records-append (join_backend ∷ cs) ds = records-append cs ds
  records-append (lib name as_ ∷ cs) ds = records-append cs ds
  records-append (log entry level format as_ ∷ cs) ds =
      ap (λ rs. (level, values as_) ∷ rs) (records-append cs ds)
  records-append (stream entry level as_ ∷ cs) ds =
      ap (λ rs. (level, values as_) ∷ rs) (records-append cs ds)

  records-concat_upto :
      (n : ℕ) (f : ℕ → List (Call Double)) (g : ℕ → List (Level × List (Arg Double)))
      → ((i : ℕ) → records (f i) ≡ g i)
      → records (concat_upto n f) ≡ concat_upto n g
  unfolding concat_upto
  records-concat_upto zero f g h = refl
  records-concat_upto (suc n) f g h = rw (records-append, records-concat_upto n f g h, h)

module _ (F : Doubles) where
  open F use {Double}

  poll_until-silent :
      (test : ℕ → Bool) (pause fuel k : ℕ) {c : List (Call Double)}
      → poll_until F test pause fuel k ≡ returned c
      → records c ≡ []
  unfolding poll_until
  poll_until-silent test pause zero k h = cc
  poll_until-silent test pause (suc fuel) k {c} h = elim (Bool-cases (test k)) [
    | inl yes_ ↦ let same : [] ≡ c = ground arith in subst (λ x. records x ≡ []) same refl
    | inr no_ ↦
        let (rest, again, e) =
          >>=-eq-returned (poll_until F test pause fuel (k + 1)) _ (rw no_ at h) in
        let silent = poll_until-silent test pause fuel (k + 1) again in
        subst (λ x. records x ≡ []) (returned-injective _ c e) silent
  ]

  -- the data of iteration `i`, at a level: `i`, twice `i`, and half of it as a double
  abbrev pub data_of : Level → ℕ → Level × List (Arg Double)
  data_of level i = (level, num i ∷ num (i * 2 % 2 ^ 64) ∷ real (double_of F i) ∷ [])

  -- one record, whatever it is
  abbrev pub IsOne : List (Call Double) → Type 0
  IsOne cs = (r : Level × List (Arg Double)) × (records cs ≡ r ∷ [])

  -- What a program that ends has logged: one record before the clock is read, between its readings those
  -- of the `n` iterations in order and one more, and nothing behind it.
  abbrev pub Logged : Level → ℕ → Finished F → Type 0
  Logged level n out =
      IsOne out.before
      × ((r : Level × List (Arg Double)) × (records out.timed
            ≡ concat_upto n (λ i. data_of level i ∷ []) ++ r ∷ []))
      × (records out.behind ≡ [])

  abbrev pub LogsIterations : Level → Program F → Type 0
  LogsIterations level p =
      (allowed : ℕ → Bool) (x : Measured F) (n : ℕ) (out : Finished F)
      → main F allowed x n p ≡ returned out
      → Logged level n out

  -- the same of the parts of a program
  record PartsLog (level : Level) (p : Program F) : Type 0 where
    warm_up : IsOne p.setup
    quiet : (c : List (Call Double)) → p.ready ≡ returned c → records c ≡ []
    each : (i : ℕ) → records (p.message i) ≡ data_of level i ∷ []
    last : (c : List (Call Double)) → p.finish ≡ returned c → IsOne c
    at_last : records p.cleanup ≡ []

  logs_iterations : (level : Level) (p : Program F) → PartsLog level p → LogsIterations level p
  unfolding main
  logs_iterations level p parts allowed x n out h =
      let (_, _, h1) = >>=-eq-returned (perform allowed p.setup) _ h in
      let (waited, e1, h2) = >>=-eq-returned p.ready _ h1 in
      let (finish, e2, h3) = >>=-eq-returned p.finish _ h2 in
      let (first, f) = parts.warm_up in
      let (final, l) = parts.last finish e2 in
      subst (Logged level n) (returned-injective _ out h3) (
        (first, rw (records-append, parts.quiet waited e1, f)),
        (
          final,
          rw (
            records-append,
            records-concat_upto n p.message (λ i. data_of level i ∷ []) parts.each,
            l,
          ),
        ),
        parts.at_last,
      )

  -- The parts of a program that waits for nothing.
  plain :
      (level : Level) (p : Program F) (c : List (Call Double))
      → p.ready ≡ returned []
      → p.finish ≡ returned c
      → IsOne p.setup
      → ((i : ℕ) → records (p.message i) ≡ data_of level i ∷ [])
      → IsOne c
      → records p.cleanup ≡ []
      → LogsIterations level p
  plain level p c ready finish warm_up each last at_last = logs_iterations level p (record {
    warm_up = warm_up;
    quiet = λ c' e. subst (λ y. records y ≡ []) (returned-injective [] c' (sym ready ∙ e)) refl;
    each = each;
    last = λ c' e. subst IsOne (returned-injective c c' (sym finish ∙ e)) last;
    at_last = at_last;
  })

  spdlog-LogsIterations :
      (queue_size : ℕ → ℕ) (fuel : ℕ) → LogsIterations info (spdlog F queue_size fuel)
  unfolding spdlog
  spdlog-LogsIterations queue_size fuel = logs_iterations info (spdlog F queue_size fuel) (record {
    warm_up = (_, refl);
    quiet = λ c e. poll_until-silent _ _ fuel 0 {c = c} e;
    each = λ i. refl;
    last = λ c e. subst IsOne (returned-injective _ c e) (_, refl);
    at_last = refl;
  })

  iyengar-LogsIterations :
      (file : ℕ → Option Bytes) (fuel : ℕ) → LogsIterations info (iyengar_nanolog F file fuel)
  unfolding iyengar_nanolog
  iyengar-LogsIterations file fuel = logs_iterations info (iyengar_nanolog F file fuel) (record {
    warm_up = (_, refl);
    quiet = λ c e. subst (λ y. records y ≡ []) (returned-injective [] c e) refl;
    each = λ i. refl;
    last = λ c e.
        let (waited, w, e') = >>=-eq-returned (poll_until F _ _ fuel 0) _ e in
        subst IsOne (returned-injective _ c e')
          ((critical, str end_marker ∷ []), rw (poll_until-silent _ _ fuel 0 {c = waited} w));
    at_last = refl;
  })

  -- Programs at their levels, one by one.
  abbrev pub AllLog : List Level → List (Program F) → Type 0
  AllLog [] [] = Unit
  AllLog (level ∷ levels) (p ∷ ps) = LogsIterations level p × AllLog levels ps
  AllLog _ _ = ⊥

  -- NanoLog logs at NOTICE, the others at INFO.
  abbrev pub program_levels : List Level
  program_levels =
      info ∷ info ∷ info ∷ info ∷ info ∷ info ∷ info ∷ info ∷ notice ∷ info ∷ info ∷ info ∷ []

  -- Every throughput program that ends has logged one record before it starts the clock, between
  -- the two clock readings the data of each iteration, in order and at level info, or NOTICE for
  -- NanoLog, and one record more, and nothing behind the clock.
  pub programs-LogsIterations : (w : Watched) → AllLog program_levels (programs F w)
  unfolding programs quill quill_with_functions bqlog bqlog_binary nanolog reckless xtr fmtlog
      ms_binlog boost_log arguments
  programs-LogsIterations w =
      plain info _ _ refl refl (_, refl) (λ i. refl) (_, refl) refl
      ⨾ plain info _ _ refl refl (_, refl) (λ i. refl) (_, refl) refl
      ⨾ plain info _ _ refl refl (_, refl) (λ i. refl) (_, refl) refl
      ⨾ spdlog-LogsIterations w.queue_size w.fuel
      ⨾ plain info _ _ refl refl (_, refl) (λ i. refl) (_, refl) refl
      ⨾ plain info _ _ refl refl (_, refl) (λ i. refl) (_, refl) refl
      ⨾ plain info _ _ refl refl (_, refl) (λ i. refl) (_, refl) refl
      ⨾ iyengar-LogsIterations w.file w.fuel
      ⨾ plain notice _ _ refl refl (_, refl) (λ i. refl) (_, refl) refl
      ⨾ plain info _ _ refl refl (_, refl) (λ i. refl) (_, refl) refl
      ⨾ plain info _ _ refl refl (_, refl) (λ i. refl) (_, refl) refl
      ⨾ plain info _ _ refl refl (_, refl) (λ i. refl) (_, refl) refl
      ⨾ tt
