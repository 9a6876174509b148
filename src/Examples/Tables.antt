-- ===== src/Examples/Tables.antt =====
-- The theorems on the table generator, at concrete inputs.
use logger_benchmarks.Prelude.{ℕ, ◌/◌, ◌≡◌, refl, arith, some, [], ◌∷◌, ◌++◌, map, All, codes, List}
use logger_benchmarks.Prelude.Decimal.{to_string}
use logger_benchmarks.CallSite.Report.{report, percentile, reported_percentiles}
use logger_benchmarks.CallSite.Run.{combined}
use logger_benchmarks.Throughput.Program.{throughput, formatted_line}
use logger_benchmarks.Call.{vector_largestr}
use logger_benchmarks.Tables.{
  column, columns, column_end, behind_bar, take_digits, skip_spaces, is_space, is_digit,
  number_from, search_row, NoBar, search_row-report, run_benchmark-read, IsDecimal, search_line,
  match_line, literal, spaces, some_digits, fraction, search_line-formatted_line,
}
use logger_benchmarks.Examples.Instances.{fractions, lcg, machine}
use logger_benchmarks.Examples.Harness.{vectors, name, ran}

-- a row with a number that is not one in its first place of six
row_of_text :
    search_row (codes "| x |  7 | 1 |\n|  10  |  2|3 |4 |  5  |  66  |  7  |")
    ≡ some (10 ∷ 2 ∷ 3 ∷ 4 ∷ 5 ∷ 66 ∷ [])
unfolding search_row columns column column_end behind_bar take_digits skip_spaces is_space is_digit
    number_from
row_of_text = refl

name-NoBar : All NoBar name
name-NoBar = ground arith

abbrev samples : List ℕ
samples = 31 ∷ 8 ∷ 120 ∷ 8 ∷ 15 ∷ []

search_row-report_example :
    search_row (report fractions 4 200 name samples ++ codes "Thread Count 0")
    ≡ some (map (percentile fractions samples) (reported_percentiles fractions))
search_row-report_example =
    search_row-report fractions 4 200 name samples (codes "Thread Count 0") name-NoBar (omega arith)

run_benchmark-read_example :
    search_row ran.0.output
    ≡ some (map (percentile fractions (combined ran.0.producers)) (reported_percentiles fractions))
run_benchmark-read_example =
    run_benchmark-read lcg fractions vector_largestr machine vectors 2 3 name 4 name-NoBar
      (omega arith) (omega arith) (omega arith) (omega arith) ran.1

-- a line behind another, and a throughput without a point
line_of_text :
    search_line
      (codes "bench: x\nthroughput is  5 million msgs/sec average, total time elapsed: 870 ms, log")
    ≡ some (codes "5", 870)
unfolding search_line match_line literal spaces some_digits fraction take_digits skip_spaces
    is_space is_digit number_from
line_of_text = refl

-- four messages in 1,500 nanoseconds
fast-IsDecimal : IsDecimal (fractions.print_fixed 2 (throughput fractions 4 1_500))
unfolding throughput to_string
fast-IsDecimal = record {
  whole = codes "2";
  behind = codes "66";
  split = refl;
  whole_digits = omega arith;
  behind_digits = omega arith;
  some_whole = omega arith;
  some_behind = omega arith;
}

search_line-formatted_line_example :
    search_line (formatted_line fractions 4 1_500 70)
    ≡ some (fractions.print_fixed 2 (throughput fractions 4 1_500), 1_500 / 1_000_000)
search_line-formatted_line_example = search_line-formatted_line fractions 4 1_500 70 fast-IsDecimal
