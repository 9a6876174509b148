-- ===== src/Latency.antt =====
-- benchmarks/call_site_latency/benchmark_*_call_site_latency.cpp: the programs that measure the latency
-- of a logging call, one for each library, over the harness of `CallSite`.
pub mod Program
pub mod Quill
pub mod Fmt
pub mod Workers
pub mod Streams
pub mod Boost
pub mod Drain
pub mod Targets
pub mod Records
pub mod Runs
pub mod Reports
pub mod Options
