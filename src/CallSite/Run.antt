-- ===== src/CallSite/Run.antt =====
-- `run_benchmark` of call_site_latency_bench.h, compiled with `BENCH_WITHOUT_PERF`: one run of all
-- producers and its report. The order of the threads' steps is the matter of `Barrier`.
mod Defs
mod Samples
mod Messages
mod Total
mod Ends
mod Printed
unfoldable pub use Defs.*
pub use Samples.*
pub use Messages.*
pub use Total.*
pub use Ends.*
pub use Printed.*
