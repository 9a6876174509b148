-- ===== src/CallSite.antt =====
-- benchmarks/call_site_latency/call_site_latency_bench.h and call_site_latency_bench_common.h: the
-- harness that all latency benchmarks share.
pub mod Share
pub mod Wait
pub mod Payload
pub mod Producer
pub mod Barrier
pub mod Ticks
pub mod Report
pub mod Run
