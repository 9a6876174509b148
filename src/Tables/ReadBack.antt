-- ===== src/Tables/ReadBack.antt =====
-- What the tables read from a report of `run_benchmark`.
use Prim.Native.Nat.{min}
use native.Mathlib.Nat.{mul-le-mul}
use logger_benchmarks.Prelude.{
  ℕ, ◌*◌, ◌%◌, ◌≤◌, ◌<◌, ◌≡◌, refl, sym, ap, ◌∙◌, arith, false, ◌==◌, ltb, none, some, List, [],
  ◌∷◌, ◌++◌, map, Bytes, codes, length, All, All-append, append_assoc, append-nil, ◌^◌,
}
use logger_benchmarks.Prelude.Decimal.{to_string}
use logger_benchmarks.Prelude.Sort.{sort, length-sort}
use logger_benchmarks.Platform.Doubles.{Doubles}
use logger_benchmarks.CallSite.Report.{
  report, report_header, no_samples, column_heads, cells, row, reported_percentiles, percentile,
}
use logger_benchmarks.Prelude.Int.{pos}
use logger_benchmarks.Platform.Random.{Random}
use logger_benchmarks.Platform.Outcome.{returned}
use logger_benchmarks.Call.{BenchType}
use logger_benchmarks.CallSite.Producer.{Callbacks}
use logger_benchmarks.CallSite.Run.{
  Machine, Ran, combined, no_threads, run_benchmark, run_benchmark-IsRun, length-combined,
}
use logger_benchmarks.Tables.Columns.{
  is_space, is_digit, skip_spaces, take_digits, behind_bar, column_end, column, columns, search_row,
}
use logger_benchmarks.Tables.Numbers.{IsDigit, to_string-Reads, first, columns-cells}

abbrev pub NoBar : ℕ → Type 0
NoBar c = (c == b'|') ≡ false

search_skip : (c : ℕ) (s : Bytes) → NoBar c → search_row (c ∷ s) ≡ search_row s
unfolding search_row behind_bar
search_skip c s h = rw (h, search_row)

search_skip_prefix : (s t : Bytes) → All NoBar s → search_row (s ++ t) ≡ search_row t
search_skip_prefix [] t h = refl
search_skip_prefix (c ∷ s) t (hc, h) = search_skip c (s ++ t) hc ∙ search_skip_prefix s t h

digits-NoBar : (s : Bytes) → All IsDigit s → All NoBar s
digits-NoBar [] h = tt
digits-NoBar (c ∷ s) (hc, h) = (ground arith, digits-NoBar s h)

report_header-NoBar :
    (thread_count total_messages : ℕ) (name : Bytes)
    → All NoBar name
    → All NoBar (report_header thread_count total_messages name)
unfolding report_header
report_header-NoBar n m name h =
    let of_number = λ (k : ℕ). digits-NoBar (to_string k) (to_string-Reads k).1 in
    All-append NoBar (codes "Thread Count ") _ (ground arith) (
      All-append NoBar (to_string n) _ (of_number n) (
        All-append NoBar (codes " - Total messages ") _ (ground arith) (
          All-append NoBar (to_string m) _ (of_number m)
            (All-append NoBar (codes " - ") name (ground arith) h))))

search_here : (s : Bytes) (xs : List ℕ) → columns 6 s ≡ some xs → search_row (b'|' ∷ s) ≡ some xs
unfolding search_row behind_bar
search_here s xs h = rw (h, search_row)

-- No column of the heads is a number.
search_heads :
    (s : Bytes) → search_row (column_heads ++ (codes " |  " ++ s)) ≡ search_row (codes "|  " ++ s)
unfolding column_heads search_row columns column column_end behind_bar take_digits skip_spaces
    is_space is_digit
search_heads s = refl

abbrev tail : Bytes
tail = codes "  |\n\n"

report_parts :
    (F : Doubles) (n m : ℕ) (name : Bytes) (samples : List ℕ) (rest : Bytes)
    → 0 < length samples
    → report F n m name samples ++ rest
      ≡ report_header n m name
        ++ (column_heads ++ (codes " |  " ++ (cells (row F (sort ltb samples)) ++ (tail ++ rest))))
unfolding report column_heads
report_parts F n m name samples rest some_samples =
    let nonempty : (length (sort ltb samples) == 0) ≡ false =
      ground (arith, length-sort ltb samples) in
    let shown = codes " |  " ++ (cells (row F (sort ltb samples)) ++ tail) in
    rw nonempty (
      append_assoc (report_header n m name) (column_heads ++ shown) rest
      ∙ ap (λ s. report_header n m name ++ (column_heads ++ (codes " |  " ++ s)))
          (append_assoc (cells (row F (sort ltb samples))) tail rest))

length-row : (F : Doubles) (sorted : List ℕ) → 6 < length (row F sorted)
unfolding row reported_percentiles
length-row F sorted = omega arith

first-row :
    (F : Doubles) (samples : List ℕ)
    → first 6 (row F (sort ltb samples)) ≡ map (percentile F samples) (reported_percentiles F)
unfolding row reported_percentiles
first-row F samples = refl

-- If the name of the benchmark holds no bar, the first match of the expression of the table
-- generator in a report of one sample or more is its first six percentiles, whatever stands behind
-- the report.
pub search_row-report :
    (F : Doubles) (thread_count total_messages : ℕ) (name : Bytes) (samples : List ℕ) (rest : Bytes)
    → All NoBar name
    → 0 < length samples
    → search_row (report F thread_count total_messages name samples ++ rest)
      ≡ some (map (percentile F samples) (reported_percentiles F))
search_row-report F n m name samples rest clean some_samples =
    let r = row F (sort ltb samples) in
    let cut : columns 6 (codes "  " ++ (cells r ++ (tail ++ rest))) ≡ some (first 6 r) =
      columns-cells 6 r (tail ++ rest) (length-row F (sort ltb samples)) in
    ap search_row (report_parts F n m name samples rest some_samples)
    ∙ search_skip_prefix (report_header n m name) _ (report_header-NoBar n m name clean)
    ∙ search_heads (cells r ++ (tail ++ rest))
    ∙ search_here (codes "  " ++ (cells r ++ (tail ++ rest))) (first 6 r) cut
    ∙ ap some (first-row F samples)

-- If the name holds no bar, the expression of the table generator matches nowhere in a report
-- without samples, nor in the one for no threads.
pub search_row-nothing :
    (F : Doubles) (thread_count total_messages : ℕ) (name : Bytes)
    → All NoBar name
    → (search_row (report F thread_count total_messages name []) ≡ none)
      × (search_row (no_threads {Double = F.Double} name).output ≡ none)
unfolding report no_threads no_samples search_row columns column column_end behind_bar take_digits
    skip_spaces is_space is_digit sort
search_row-nothing F n m name clean = (
  search_skip_prefix (report_header n m name) no_samples (report_header-NoBar n m name clean),
  search_skip_prefix (codes "Thread Count 0 - Total messages 0 - ") (name ++ no_samples)
        (ground arith)
      ∙ search_skip_prefix name no_samples clean,
)

module _ (R : Random) (F : Doubles) (t : BenchType) (m : Machine) (cb : Callbacks F.Double t)
    (num_iterations messages : ℕ) where
  -- If the name of the benchmark holds no bar and the messages of an iteration fit 64 bits: in the
  -- output of a run that ends, with threads, iterations and messages, the expression of the table
  -- generator first matches the six reported percentiles of the samples of all its threads.
  pub run_benchmark-read :
      (name : Bytes) (n : ℕ) {x : Ran F.Double}
      → All NoBar name
      → 0 < n
      → 0 < num_iterations
      → 0 < messages
      → messages < 2 ^ 64
      → run_benchmark R F t m cb num_iterations messages name (pos n) ≡ returned x
      → search_row x.output
        ≡ some (map (percentile F (combined x.producers)) (reported_percentiles F))
  run_benchmark-read name n {x} clean positive busy some_messages fits h =
      let run = run_benchmark-IsRun R F t m cb num_iterations messages name n positive h in
      let count = length-combined R F t m cb num_iterations messages fits name n positive h in
      let least : 1 * 1 ≤ num_iterations * min n messages =
        mul-le-mul {n₁ = 1} {m₁ = 1} (omega arith) (omega arith) in
      ap search_row (run.printed ∙ sym (append-nil _))
      ∙ search_row-report F n (num_iterations * messages % 2 ^ 64) name (combined x.producers) []
          clean (omega (arith, count, least))
