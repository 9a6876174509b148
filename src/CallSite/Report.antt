-- ===== src/CallSite/Report.antt =====
-- The end of `run_benchmark` of call_site_latency_bench.h: what it prints of the samples.
mod Defs
mod Ranks
unfoldable pub use Defs.*
pub use Ranks.*
