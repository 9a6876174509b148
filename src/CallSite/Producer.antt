-- ===== src/CallSite/Producer.antt =====
-- `run_log_benchmark` of call_site_latency_bench.h, compiled with `BENCH_WITHOUT_PERF`: what one
-- producer thread does and the latencies that it records.
mod Defs
mod Trace
mod Total
unfoldable pub use Defs.*
unfoldable pub use Trace.*
pub use Total.*
