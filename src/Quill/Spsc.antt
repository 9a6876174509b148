-- ===== src/Quill/Spsc.antt =====
-- The queue between a logging thread and the backend, `BoundedSPSCQueue` of
-- quill/include/quill/core/BoundedSPSCQueue.h.
pub mod Slots
pub mod Defs
pub mod Invariant
pub mod Producer
pub mod Consumer
pub mod Progress
pub mod Runs
pub mod Kept
pub mod Fifo
