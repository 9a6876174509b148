-- ===== src/CallSite/Ticks.antt =====
-- `ns_per_rdtsc_tick` of call_site_latency_bench_common.h: how long a tick of the time-stamp counter is.
mod Defs
mod Trials
unfoldable pub use Defs.*
pub use Trials.*
