-- ===== src/Throughput/Tail.antt =====
-- `file_tail_contains` of iyengar_nanolog_backend_total_time.cpp.
mod Defs
mod Search
unfoldable pub use Defs.*
pub use Search.*
