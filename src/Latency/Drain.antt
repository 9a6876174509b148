-- ===== src/Latency/Drain.antt =====
-- The backend threads that the programs of fmtlog and Ms binLog run themselves, in both families of
-- benchmarks. They read the flag `done` and what the library consumed, one reading a round.
mod Defs
mod Rounds
unfoldable pub use Defs.*
pub use Rounds.*
