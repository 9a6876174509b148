-- ===== src/Latency/Records.antt =====
-- What the latency programs hand to their libraries, compared.
use logger_benchmarks.Prelude.{
  ℕ, true, ◌≡◌, refl, arith, Option, none, some, List, [], ◌∷◌, ◌++◌, map, Bytes, All, append-nil,
  ap, ◌⨾◌, codes, if◌then◌else◌,
}
use logger_benchmarks.Call.{
  BenchType, int_int_double, int_int_largestr, vector_largestr, Level, info, notice, PayloadOf, Arg,
  num, real, str, strs, lit, flag, Call, log, stream,
}
use logger_benchmarks.Latency.Quill.{quill, quill_with_functions}
use logger_benchmarks.Latency.Workers.{bqlog, platformlab_nanolog, reckless, spdlog, xtr}
use logger_benchmarks.Latency.Fmt.{fmtlog, ms_binlog}
use logger_benchmarks.Latency.Streams.{g3log, iyengar_nanolog}
use logger_benchmarks.Latency.Boost.{boost_log, quoted}
use logger_benchmarks.Latency.Targets.{Target, targets}
use logger_benchmarks.Throughput.Tail.{holds_text, begins_with}

module _ {Double : Type 0} where
  -- the data among arguments: numbers, doubles and strings, a vector by its strings
  abbrev pub values : List (Arg Double) → List (Arg Double)
  values [] = []
  values (num n ∷ as_) = num n ∷ values as_
  values (real d ∷ as_) = real d ∷ values as_
  values (str s ∷ as_) = str s ∷ values as_
  values (strs v ∷ as_) = map str v ++ values as_
  values (flag b ∷ as_) = values as_
  values (lit s ∷ as_) = values as_

  -- the records that calls log, each with its level and its data
  abbrev pub records : List (Call Double) → List (Level × List (Arg Double))
  records [] = []
  records (log entry level format as_ ∷ cs) = (level, values as_) ∷ records cs
  records (stream entry level as_ ∷ cs) = (level, values as_) ∷ records cs
  records (_ ∷ cs) = records cs

  -- the payload as data
  abbrev pub payload_values : (t : BenchType) → PayloadOf Double t → List (Arg Double)
  payload_values int_int_double d = real d ∷ []
  payload_values int_int_largestr s = str s ∷ []
  payload_values vector_largestr v = map str v

  -- The lambda is there, and logs one record: at the level, with `i`, `j` and the payload.
  abbrev pub LogsRecord :
      Level → (t : BenchType) → Option (ℕ → ℕ → PayloadOf Double t → List (Call Double)) → Type 0
  LogsRecord level t none = ⊥
  LogsRecord level t (some f) =
      (i j : ℕ) (v : PayloadOf Double t)
      → records (f i j v) ≡ (level, num i ∷ num j ∷ payload_values t v) ∷ []

  -- the data that Boost's lambda inserts for a vector: its strings
  values-quoted :
      (v : List Bytes) (rest : List (Arg Double))
      → values (quoted v ++ rest) ≡ map str v ++ values rest
  unfolding quoted
  values-quoted [] rest = refl
  values-quoted (s ∷ []) rest = refl
  values-quoted (s ∷ s' ∷ v) rest = ap (λ xs. str s ∷ xs) (values-quoted (s' ∷ v) rest)

  -- NanoLog has no INFO and logs at NOTICE; the others log at INFO.
  abbrev pub level_of : Target Double → Level
  level_of x = if holds_text (codes x.name) (codes "_platformlab_") then notice else info

  -- The target compiles, and its lambda logs the record.
  abbrev pub TargetLogs : Target Double → Type 0
  TargetLogs x = LogsRecord (level_of x) x.bench (x.program.log_func x.bench)

module _ (Double : Type 0) where
  stream_vector :
      LogsRecord info vector_largestr ((boost_log {Double = Double} true).log_func vector_largestr)
  unfolding boost_log
  stream_vector i j v = rw (values-quoted, append-nil)

  -- Every latency target that CMake builds compiles, and its lambda hands its library one record
  -- with i, j and the payload, at level NOTICE for the targets of NanoLog (platformlab) and info
  -- for the others; for the vector target of Boost if open_record gives a record.
  pub targets-TargetLogs : All TargetLogs (targets {Double = Double} true)
  unfolding targets holds_text begins_with quill quill_with_functions bqlog platformlab_nanolog
      reckless spdlog xtr fmtlog ms_binlog g3log iyengar_nanolog boost_log
  targets-TargetLogs =
      (λ i j v. refl)
      ⨾ (λ i j v. refl)
      ⨾ (λ i j v. refl)
      ⨾ (λ i j v. refl)
      ⨾ (λ i j v. rw append-nil)
      ⨾ (λ i j v. refl)
      ⨾ (λ i j v. refl)
      ⨾ (λ i j v. rw append-nil)
      ⨾ (λ i j v. refl)
      ⨾ (λ i j v. refl)
      ⨾ (λ i j v. rw append-nil)
      ⨾ (λ i j v. refl)
      ⨾ (λ i j v. refl)
      ⨾ (λ i j v. refl)
      ⨾ (λ i j v. refl)
      ⨾ (λ i j v. refl)
      ⨾ (λ i j v. refl)
      ⨾ (λ i j v. refl)
      ⨾ (λ i j v. refl)
      ⨾ (λ i j v. rw append-nil)
      ⨾ (λ i j v. refl)
      ⨾ (λ i j v. refl)
      ⨾ (λ i j v. refl)
      ⨾ (λ i j v. refl)
      ⨾ (λ i j v. rw append-nil)
      ⨾ (λ i j v. refl)
      ⨾ (λ i j v. refl)
      ⨾ (λ i j v. rw append-nil)
      ⨾ (λ i j v. ground arith)
      ⨾ (λ i j v. ground arith)
      ⨾ (λ i j v. ground (arith, append-nil {A = Arg Double} (map (λ x. str x) v)))
      ⨾ (λ i j v. refl)
      ⨾ (λ i j v. refl)
      ⨾ (λ i j v. refl)
      ⨾ (λ i j v. refl)
      ⨾ stream_vector
      ⨾ tt
