-- ===== src/CallSite/Wait.antt =====
-- `wait` of call_site_latency_bench.h: the pause between two iterations of a producer.
-- The clock is the sequence of the readings that the thread takes, in nanoseconds.
mod Defs
mod Pause
unfoldable pub use Defs.*
pub use Pause.*
