-- ===== src/Quill/Codec/Types.antt =====
-- All the types that the codecs of quill build up, with the codec that the compiler picks for each,
-- by structural recursion; sets and maps are left to their own modules.
use Prim.Native.Nat.{ℕ, ◌+◌, ◌%◌, ◌^◌, ◌<◌}
use logger_benchmarks.Prelude.{Bytes, Option, some, List, ◌++◌, ◌≡◌, length}
use logger_benchmarks.Quill.Codec.Defs.{Codec}
use logger_benchmarks.Quill.Codec.Faithful.{IsFaithful}
use logger_benchmarks.Quill.Codec.Scalar.{ScalarKind, scalar, scalar-IsFaithful}
use logger_benchmarks.Quill.Codec.Text.{text, text-IsFaithful}
use logger_benchmarks.Quill.Codec.CString.{c_string, c_string-IsFaithful}
use logger_benchmarks.Quill.Codec.CharArray.{char_array, char_array-IsFaithful}
use logger_benchmarks.Quill.Codec.Sequence.{vector, linked_list, deque, forward_list}
use logger_benchmarks.Quill.Codec.SequenceFaithful.{
  vector-IsFaithful, linked_list-IsFaithful, deque-IsFaithful, forward_list-IsFaithful,
}
use logger_benchmarks.Quill.Codec.Arrays.{array, c_array, array-IsFaithful, c_array-IsFaithful}
use logger_benchmarks.Quill.Codec.Product.{optional, pair, optional-IsFaithful, pair-IsFaithful}
use logger_benchmarks.Quill.Codec.Pack.{
  Pack, no_members, with_member, tuple, compute_encoded_size_and_cache_string_lengths, encode,
  decode_and_store_args,
}
use logger_benchmarks.Quill.Codec.PackFaithful.{
  IsFaithfulPack, no_members-IsFaithfulPack, with_member-IsFaithfulPack, tuple-IsFaithful,
}
use logger_benchmarks.Quill.Codec.Statement.{statement_lem}

mutual
  pub data ArgType : Type 0 where
    scalar_type : ScalarKind → ℕ → ArgType
    string_type : ArgType
    c_string_type : ArgType
    char_array_type : ArgType
    vector_of : ArgType → ArgType
    list_of : ArgType → ArgType
    deque_of : ArgType → ArgType
    forward_list_of : ArgType → ArgType
    array_of : ArgType → ℕ → ArgType
    c_array_of : ArgType → ℕ → ArgType
    optional_of : ArgType → ArgType
    pair_of : ArgType → ArgType → ArgType
    tuple_of : ArgTypes → ArgType

  pub data ArgTypes : Type 0 where
    nil : ArgTypes
    cons : ArgType → ArgTypes → ArgTypes

-- what the caller logs
unfoldable mutual
  pub Value : ArgType → Type 0
  Value (scalar_type kind w) = ℕ
  Value string_type = Bytes
  Value c_string_type = Option Bytes
  Value char_array_type = Bytes
  Value (vector_of t) = List (Value t)
  Value (list_of t) = List (Value t)
  Value (deque_of t) = List (Value t)
  Value (forward_list_of t) = List (Value t)
  Value (array_of t n) = List (Value t)
  Value (c_array_of t n) = List (Value t)
  Value (optional_of t) = Option (Value t)
  Value (pair_of t u) = Value t × Value u
  Value (tuple_of ts) = Values ts

  pub Values : ArgTypes → Type 0
  Values nil = Unit
  Values (cons t ts) = Value t × Values ts

-- what the backend gets
unfoldable mutual
  pub View : ArgType → Type 0
  View (scalar_type kind w) = ℕ
  View string_type = Bytes
  View c_string_type = Bytes
  View char_array_type = Bytes
  View (vector_of t) = List (View t)
  View (list_of t) = List (View t)
  View (deque_of t) = List (View t)
  View (forward_list_of t) = List (View t)
  View (array_of t n) = List (View t)
  View (c_array_of t n) = List (View t)
  View (optional_of t) = Option (View t)
  View (pair_of t u) = View t × View u
  View (tuple_of ts) = Views ts

  pub Views : ArgTypes → Type 0
  Views nil = Unit
  Views (cons t ts) = View t × Views ts

unfoldable mutual
  unfolding Value Values View Views

  pub codec_of : (t : ArgType) → Codec (Value t) (View t)
  codec_of (scalar_type kind w) = scalar kind w
  codec_of string_type = text
  codec_of c_string_type = c_string
  codec_of char_array_type = char_array
  codec_of (vector_of t) = vector (codec_of t)
  codec_of (list_of t) = linked_list (codec_of t)
  codec_of (deque_of t) = deque (codec_of t)
  codec_of (forward_list_of t) = forward_list (codec_of t)
  codec_of (array_of t n) = array (codec_of t) n
  codec_of (c_array_of t n) = c_array (codec_of t) n
  codec_of (optional_of t) = optional (codec_of t)
  codec_of (pair_of t u) = pair (codec_of t) (codec_of u)
  codec_of (tuple_of ts) = tuple (pack_of ts)

  pub pack_of : (ts : ArgTypes) → Pack (Values ts) (Views ts)
  pack_of nil = no_members
  pack_of (cons t ts) = with_member (codec_of t) (pack_of ts)

unfoldable mutual
  unfolding codec_of pack_of Value Values View Views

  pub codec_of-IsFaithful : (t : ArgType) → IsFaithful (codec_of t)
  codec_of-IsFaithful (scalar_type kind w) = scalar-IsFaithful kind w
  codec_of-IsFaithful string_type = text-IsFaithful
  codec_of-IsFaithful c_string_type = c_string-IsFaithful
  codec_of-IsFaithful char_array_type = char_array-IsFaithful
  codec_of-IsFaithful (vector_of t) = vector-IsFaithful (codec_of-IsFaithful t)
  codec_of-IsFaithful (list_of t) = linked_list-IsFaithful (codec_of-IsFaithful t)
  codec_of-IsFaithful (deque_of t) = deque-IsFaithful (codec_of-IsFaithful t)
  codec_of-IsFaithful (forward_list_of t) = forward_list-IsFaithful (codec_of-IsFaithful t)
  codec_of-IsFaithful (array_of t n) = array-IsFaithful (codec_of-IsFaithful t) n
  codec_of-IsFaithful (c_array_of t n) = c_array-IsFaithful (codec_of-IsFaithful t) n
  codec_of-IsFaithful (optional_of t) = optional-IsFaithful (codec_of-IsFaithful t)
  codec_of-IsFaithful (pair_of t u) =
      pair-IsFaithful (codec_of-IsFaithful t) (codec_of-IsFaithful u)
  codec_of-IsFaithful (tuple_of ts) = tuple-IsFaithful (pack_of-IsFaithfulPack ts)

  pub pack_of-IsFaithfulPack : (ts : ArgTypes) → IsFaithfulPack (pack_of ts)
  pack_of-IsFaithfulPack nil = no_members-IsFaithfulPack
  pack_of-IsFaithfulPack (cons t ts) =
      with_member-IsFaithfulPack (codec_of-IsFaithful t) (pack_of-IsFaithfulPack ts)

module _ (ts : ArgTypes) where
  open pack_of-IsFaithfulPack ts use {Fits, pushed, bytes, view}

  -- For all lists of argument types that the modelled codecs build up without sets and maps, if the
  -- arguments fit and fewer than 2^32 lengths are cached: encode writes the bytes of the arguments
  -- behind the buffer and consumes all cached lengths, the size that was computed beforehand is the
  -- number of those bytes modulo 2^64, and decode_and_store_args reads the arguments back from them
  -- and leaves the rest.
  pub decode_and_store_args-encode :
      (stale : List ℕ) (buffer : Bytes) (args : Values ts) (rest : Bytes)
      → Fits args
      → length stale + length (pushed args) < 2 ^ 32
      → let (size, cache) = compute_encoded_size_and_cache_string_lengths (pack_of ts) stale args in
        (encode (pack_of ts) buffer cache args ≡ some (buffer ++ bytes args, length (pushed args)))
        × (size ≡ length (bytes args) % 2 ^ 64)
        × (decode_and_store_args (pack_of ts) (bytes args ++ rest) ≡ some (view args, rest))
  decode_and_store_args-encode = statement_lem (pack_of-IsFaithfulPack ts)
