-- ===== src/Quill/Codec.antt =====
-- How quill puts the arguments of a log statement into its queue and takes them out again: the
-- codecs of quill/include/quill/core/Codec.h and of quill/include/quill/std.
pub mod Defs
pub mod Faithful
pub mod Scalar
pub mod Text
pub mod CString
pub mod CharArray
pub mod Elements
pub mod Sequence
pub mod SequenceFaithful
pub mod Arrays
pub mod Product
pub mod Associative
pub mod SetFaithful
pub mod MapFaithful
pub mod Pack
pub mod PackFaithful
pub mod Statement
pub mod Types
