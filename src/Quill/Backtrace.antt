-- ===== src/Quill/Backtrace.antt =====
-- The store of the last events of a logger: `BacktraceStorage` of
-- quill/include/quill/backend/BacktraceStorage.h.
pub mod Defs
pub mod Events
