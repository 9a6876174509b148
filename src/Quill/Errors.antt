-- ===== src/Quill/Errors.antt =====
-- `QuillError` of quill/include/quill/core/QuillError.h, as a value.
use logger_benchmarks.Prelude.{Bytes}

-- A value, or the message of the `QuillError` that is thrown.
pub data Result (A : Type 0) : Type 0 where
  value : A → Result A
  quill_error : Bytes → Result A
