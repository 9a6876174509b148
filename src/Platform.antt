-- ===== src/Platform.antt =====
-- What the benchmarks take from outside: doubles, the random engine, the clocks of the machine.
-- Each is a parameter; the laws that a theorem relies on are a record of their own.
pub mod Doubles
pub mod Random
pub mod Outcome
