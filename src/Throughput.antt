-- ===== src/Throughput.antt =====
-- benchmarks/backend_total_time/*_backend_total_time.cpp: the programs that measure how long a library
-- takes until all messages are in its file.
pub mod Program
pub mod Tail
pub mod Quill
pub mod Workers
pub mod Fmt
pub mod Boost
pub mod Targets
pub mod Records
pub mod Waits
