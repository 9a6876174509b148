-- ===== src/Quill/Codec/Sequence.antt =====
-- The codecs of quill/include/quill/std/Vector.h, List.h, Deque.h and ForwardList.h, over the codec
-- of the elements. A container is the list of its elements in the order of its iterators.
use Prim.Native.Nat.{ℕ}
use logger_benchmarks.Prelude.{Bytes, Option, none, List, false, ◌>>=◌, length, if◌then◌else◌}
use logger_benchmarks.Quill.Codec.Defs.{
  Codec, ObjectRepresentation, add_sizes, encode_each, decode_each,
}
use logger_benchmarks.Quill.Codec.Scalar.{size_codec}
use logger_benchmarks.Quill.Codec.Elements.{
  size_of_elements, encode_elements, encode_counted, decode_counted,
}

module _ {A D : Type 0} (c : Codec A D) where
  -- `std::is_arithmetic_v<T> && !std::is_same_v<T, bool>`
  unfoldable pub use_memcpy_fast_path : Option (ObjectRepresentation A)
  use_memcpy_fast_path = if c.is_bool then none else c.arithmetic

  unfoldable pub vector_size : List ℕ → List A → ℕ × List ℕ
  vector_size cache arg = size_of_elements c use_memcpy_fast_path cache 8 arg

  unfoldable pub encode_vector : List ℕ → Bytes × ℕ → List A → Option (Bytes × ℕ)
  encode_vector cache w arg = size_codec.encode cache w (length arg) >>= λ w'.
      encode_elements c use_memcpy_fast_path cache w' arg

  unfoldable pub decode_vector : Bytes → Option (List D × Bytes)
  decode_vector buffer = decode_counted c buffer

  -- `Codec<std::vector<T>>`
  abbrev pub vector : Codec (List A) (List D)
  vector = record {
    arithmetic = none;
    is_bool = false;
    keeps_cache = false;
    compute_encoded_size = vector_size;
    encode = encode_vector;
    decode_arg = decode_vector;
  }

  unfoldable pub list_size : List ℕ → List A → ℕ × List ℕ
  list_size cache arg = size_of_elements c c.arithmetic cache 8 arg

  unfoldable pub encode_list : List ℕ → Bytes × ℕ → List A → Option (Bytes × ℕ)
  encode_list cache w arg = encode_counted c cache w arg

  unfoldable pub decode_list : Bytes → Option (List D × Bytes)
  decode_list buffer = decode_counted c buffer

  -- `Codec<std::list<T>>`
  abbrev pub linked_list : Codec (List A) (List D)
  linked_list = record {
    arithmetic = none;
    is_bool = false;
    keeps_cache = false;
    compute_encoded_size = list_size;
    encode = encode_list;
    decode_arg = decode_list;
  }

  unfoldable pub deque_size : List ℕ → List A → ℕ × List ℕ
  deque_size cache arg = size_of_elements c c.arithmetic cache 8 arg

  unfoldable pub encode_deque : List ℕ → Bytes × ℕ → List A → Option (Bytes × ℕ)
  encode_deque cache w arg = encode_counted c cache w arg

  unfoldable pub decode_deque : Bytes → Option (List D × Bytes)
  decode_deque buffer = decode_counted c buffer

  -- `Codec<std::deque<T>>`
  abbrev pub deque : Codec (List A) (List D)
  deque = record {
    arithmetic = none;
    is_bool = false;
    keeps_cache = false;
    compute_encoded_size = deque_size;
    encode = encode_deque;
    decode_arg = decode_deque;
  }

  unfoldable pub forward_list_size : List ℕ → List A → ℕ × List ℕ
  forward_list_size cache arg = add_sizes c cache 8 arg

  -- the loop that counts, and the one that encodes
  unfoldable pub encode_forward_list : List ℕ → Bytes × ℕ → List A → Option (Bytes × ℕ)
  encode_forward_list cache w arg =
      size_codec.encode cache w (length arg) >>= λ w'. encode_each c cache w' arg

  -- `emplace_after` the last one inserted
  unfoldable pub decode_forward_list : Bytes → Option (List D × Bytes)
  decode_forward_list buffer = size_codec.decode_arg buffer >>= λ n. decode_each c n.0 n.1

  -- `Codec<std::forward_list<T>>`
  abbrev pub forward_list : Codec (List A) (List D)
  forward_list = record {
    arithmetic = none;
    is_bool = false;
    keeps_cache = false;
    compute_encoded_size = forward_list_size;
    encode = encode_forward_list;
    decode_arg = decode_forward_list;
  }
