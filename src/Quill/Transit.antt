-- ===== src/Quill/Transit.antt =====
-- The backend's buffer of decoded events of one thread: `TransitEventBuffer` of
-- quill/include/quill/backend/TransitEventBuffer.h.
pub mod Defs
pub mod Valid
pub mod Queue
pub mod Expand
