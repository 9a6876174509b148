-- ===== src/Examples/Totals.antt =====
-- The theorems on the throughput programs, at concrete inputs.
use logger_benchmarks.Prelude.{
  ℕ, ◌≡◌, ◌≤◌, refl, arith, ◌==◌, if◌then◌else◌, none, some, ◌++◌, Bytes, codes, length, ltb,
}
use logger_benchmarks.Platform.Outcome.{returned}
use logger_benchmarks.Throughput.Program.{Finished, Measured, main}
use logger_benchmarks.Throughput.Tail.{
  end_marker, max_tail_size, Holds, file_tail_contains_complete, file_tail_contains_sound,
}
use logger_benchmarks.Throughput.Fmt.{iyengar_nanolog}
use logger_benchmarks.Throughput.Targets.{Watched, programs}
use logger_benchmarks.Throughput.Records.{AllLog, program_levels, programs-LogsIterations}
use logger_benchmarks.Throughput.Waits.{iyengar_stops_written, iyengar_total}
use logger_benchmarks.Examples.Instances.{fractions, machine}

-- a file with two records and the marker behind them
abbrev written : Bytes
written = codes "Iteration: 0\nIteration: 1\n" ++ (end_marker ++ codes "\n")

-- The queue is empty in round 2, and the marker is written by round 3.
abbrev watched : Watched
watched = record {
  date_str = codes "20260102";
  queue_size = λ k. if k == 2 then 0 else 1;
  file = λ k. if ltb k 3 then none else some written;
  fuel = 5;
}

abbrev measured : Measured fractions
measured = record { start_time = 1_000; end_time = 3_000_001_000; file_size = length }

programs-LogsIterations_example :
    AllLog fractions (program_levels fractions) (programs fractions watched)
programs-LogsIterations_example = programs-LogsIterations fractions watched

file_tail_contains_sound_example :
    (content : Bytes) × (some written ≡ some content) × Holds content end_marker
unfolding end_marker
file_tail_contains_sound_example = file_tail_contains_sound (some written) end_marker (
    file_tail_contains_complete (codes "Iteration: 0\nIteration: 1\n") end_marker (codes "\n")
      (omega arith) (omega arith))

near : length (end_marker ++ codes "\n") ≤ max_tail_size
unfolding end_marker
near = omega arith

abbrev iyengar_ended :
    (out : Finished fractions) × (main fractions machine.allowed measured 3
        (iyengar_nanolog fractions watched.file 5)
      ≡ returned out)
iyengar_ended =
    iyengar_total fractions watched.file 5 machine.allowed measured 3 3
      (codes "Iteration: 0\nIteration: 1\n") (codes "\n") refl refl (omega arith) refl near

iyengar_stops_written_example :
    (k : ℕ) × ((content : Bytes) × (watched.file k ≡ some content) × Holds content end_marker)
iyengar_stops_written_example =
    iyengar_stops_written fractions watched.file 5 machine.allowed measured 3 iyengar_ended.0
      iyengar_ended.1
