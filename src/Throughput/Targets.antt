-- ===== src/Throughput/Targets.antt =====
-- benchmarks/backend_total_time/CMakeLists.txt: the throughput programs that are built.
use logger_benchmarks.Prelude.{ℕ, Option, List, [], ◌∷◌, Bytes}
use logger_benchmarks.Platform.Doubles.{Doubles}
use logger_benchmarks.Throughput.Program.{Program}
use logger_benchmarks.Throughput.Quill.{quill, quill_with_functions}
use logger_benchmarks.Throughput.Workers.{bqlog, bqlog_binary, nanolog, reckless, spdlog, xtr}
use logger_benchmarks.Throughput.Fmt.{fmtlog, ms_binlog, iyengar_nanolog}
use logger_benchmarks.Throughput.Boost.{boost_log}

-- What the programs read of their libraries: the date, the lengths of spdlog's queue, the contents of
-- Iyengar NanoLog's file, and how many rounds the two waits may take.
pub record Watched : Type 0 where
  pub date_str : Bytes
  pub queue_size : ℕ → ℕ
  pub file : ℕ → Option Bytes
  pub fuel : ℕ

unfoldable pub programs : (F : Doubles) → Watched → List (Program F)
programs F w =
    quill F
    ∷ quill_with_functions F
    ∷ fmtlog F
    ∷ spdlog F w.queue_size w.fuel
    ∷ xtr F
    ∷ ms_binlog F
    ∷ reckless F
    ∷ iyengar_nanolog F w.file w.fuel
    ∷ nanolog F
    ∷ bqlog F w.date_str
    ∷ bqlog_binary F w.date_str
    ∷ boost_log F
    ∷ []
