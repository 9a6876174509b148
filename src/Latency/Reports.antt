-- ===== src/Latency/Reports.antt =====
-- The two reports of a latency program of benchmarks/call_site_latency.
use logger_benchmarks.Platform.Doubles.{Doubles}
use logger_benchmarks.Platform.Random.{Random}
use logger_benchmarks.Call.{Call}
use logger_benchmarks.Latency.Program.{Program}
