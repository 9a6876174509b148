-- ===== src/Quill.antt =====
-- The parts of the logging library quill/ that the programs of quill log with.
pub mod Errors
pub mod Powers
pub mod Codec
pub mod SizeCache
pub mod Spsc
pub mod Transit
pub mod Backtrace
pub mod Levels
