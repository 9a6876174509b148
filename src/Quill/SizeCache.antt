-- ===== src/Quill/SizeCache.antt =====
-- The vector that the codecs keep lengths in, `InlinedVector` of
-- quill/include/quill/core/InlinedVector.h.
pub mod Defs
pub mod Refine
