-- ===== src/CallSite/Barrier.antt =====
-- `wait_for_all_threads_to_start` of call_site_latency_bench.h and the threads that
-- `run_benchmark` spawns, interleaved in any order, each with what `run_log_benchmark` does in it.
mod Defs
mod Family
mod Invariant
mod Progress
pub use Defs.*
pub use Invariant.*
pub use Progress.*
pub use Family.{update}
