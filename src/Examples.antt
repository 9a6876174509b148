-- ===== src/Examples.antt =====
-- The theorems at concrete inputs, and runs of the definitions.
mod Instances
mod Harness
mod Barrier
mod Programs
mod Totals
mod Tables
mod Queue
mod Events
mod Codecs
