-- ===== src/CallSite/Payload.antt =====
-- The value that an iteration of `run_log_benchmark` logs, for each `BENCH_…` macro.
mod Defs
mod Strings
mod Seeds
unfoldable pub use Defs.*
pub use Strings.*
pub use Seeds.*
