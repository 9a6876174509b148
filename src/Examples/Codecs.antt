-- ===== src/Examples/Codecs.antt =====
-- The theorems on the codecs of quill, at concrete inputs.
use logger_benchmarks.Prelude.{
  ℕ, Bytes, Option, some, none, List, [], ◌∷◌, ◌++◌, length, ◌≡◌, refl, arith, codes, ◌%◌, ◌^◌, ◌+◌,
  ◌<◌, map,
}
use logger_benchmarks.Quill.Codec.Scalar.{arithmetic_kind, scalar, scalar-IsFaithful}
use logger_benchmarks.Quill.Codec.CString.{c_string, c_string-IsFaithful}
use logger_benchmarks.Quill.Codec.Text.{text-IsFaithful, clamp_encoded_string_length}
use logger_benchmarks.Quill.Codec.Elements.{encode_counted, counted_bytes}
use logger_benchmarks.Quill.Codec.Faithful.{concat_map}
use logger_benchmarks.Quill.Codec.Sequence.{encode_vector}
use logger_benchmarks.Quill.Codec.SequenceFaithful.{vector-IsFaithful, encode_vector-encode_counted}
use logger_benchmarks.Quill.Codec.Product.{pair-IsFaithful}
use logger_benchmarks.Quill.Codec.Associative.{Container, insert_all, encode_map, decode_map}
use logger_benchmarks.Quill.Codec.MapFaithful.{decode_map-encode_map}
use logger_benchmarks.Quill.Codec.Pack.{
  no_members, with_member, compute_encoded_size_and_cache_string_lengths, encode,
  decode_and_store_args, compute_total_encoded_size, encode_members, decode_members,
}
use logger_benchmarks.Quill.Codec.PackFaithful.{
  no_members-IsFaithfulPack, with_member-IsFaithfulPack,
}
use logger_benchmarks.Quill.Codec.Statement.{decode_members-encode_members}
use logger_benchmarks.Quill.Codec.Types.{
  ArgTypes, cons, nil, scalar_type, string_type, c_string_type, vector_of, pack_of,
  pack_of-IsFaithfulPack, codec_of-IsFaithful, decode_and_store_args-encode, Values, Value,
}

-- LOG_INFO(logger, "{} {} {}", std::vector<std::string>, char const*, uint32_t)
abbrev three_types : ArgTypes
three_types =
    cons (vector_of string_type) (cons c_string_type (cons (scalar_type arithmetic_kind 4) nil))

abbrev name : Option Bytes
name = some (codes "ab" ++ 0 ∷ codes "cd")

three_args : Values three_types
unfolding Values Value
three_args = (codes "x" ∷ [] ∷ [], (name, (258, tt)))

three_fit : (pack_of-IsFaithfulPack three_types).Fits three_args
unfolding three_args Values Value pack_of-IsFaithfulPack codec_of-IsFaithful
    with_member-IsFaithfulPack no_members-IsFaithfulPack vector-IsFaithful text-IsFaithful
    c_string-IsFaithful scalar-IsFaithful
three_fit = (((tt, (tt, tt)), omega arith), (omega arith, (omega arith, tt)))

three_cached :
    length {A = ℕ} (7 ∷ []) + length ((pack_of-IsFaithfulPack three_types).pushed three_args)
    < 2 ^ 32
unfolding three_args Values Value pack_of-IsFaithfulPack codec_of-IsFaithful
    with_member-IsFaithfulPack no_members-IsFaithfulPack vector-IsFaithful text-IsFaithful
    c_string-IsFaithful scalar-IsFaithful
three_cached = omega arith

decode_and_store_args-encode_example :
    let (size, cache) =
      compute_encoded_size_and_cache_string_lengths (pack_of three_types) (7 ∷ []) three_args in
    let bytes = (pack_of-IsFaithfulPack three_types).bytes three_args in
    (encode (pack_of three_types) (1 ∷ []) cache three_args
      ≡ some (1 ∷ bytes, length ((pack_of-IsFaithfulPack three_types).pushed three_args)))
    × (size ≡ length bytes % 2 ^ 64)
    × (decode_and_store_args (pack_of three_types) (bytes ++ [])
        ≡ some ((pack_of-IsFaithfulPack three_types).view three_args, []))
decode_and_store_args-encode_example =
    decode_and_store_args-encode three_types (7 ∷ []) (1 ∷ []) three_args [] three_fit three_cached

-- a vector of two 16-bit numbers, in one copy
encode_vector-encode_counted_example :
    encode_vector (scalar arithmetic_kind 2) [] ([], 0) (1 ∷ 513 ∷ [])
    ≡ encode_counted (scalar arithmetic_kind 2) [] ([], 0) (1 ∷ 513 ∷ [])
unfolding scalar-IsFaithful
encode_vector-encode_counted_example =
    encode_vector-encode_counted (scalar-IsFaithful arithmetic_kind 2) [] [] 0 (1 ∷ 513 ∷ []) []
      (omega arith, (omega arith, tt)) (omega arith) refl

-- a container that keeps its entries in the order of their insertion, the last in front
abbrev entries : Container (ℕ × Bytes) (List (ℕ × Bytes))
entries = record { empty = []; insert = λ e es. e ∷ es }

abbrev two_entries : List (ℕ × Option Bytes)
two_entries = (5, name) ∷ (6, none) ∷ []

decode_map-encode_map_example :
    let q = pair-IsFaithful (scalar-IsFaithful arithmetic_kind 1) c_string-IsFaithful in
    (encode_map (scalar arithmetic_kind 1) c_string entries (3 ∷ 1 ∷ []) ([], 0) two_entries
      ≡ some (counted_bytes q two_entries, length (concat_map q.pushed two_entries)))
    × (decode_map
          (scalar arithmetic_kind 1)
          c_string
          entries
          (counted_bytes q two_entries ++ 0 ∷ [])
        ≡ some (insert_all entries [] (map q.view two_entries), 0 ∷ []))
unfolding pair-IsFaithful scalar-IsFaithful c_string-IsFaithful clamp_encoded_string_length
decode_map-encode_map_example =
    decode_map-encode_map (scalar-IsFaithful arithmetic_kind 1) c_string-IsFaithful entries
      (3 ∷ 1 ∷ []) [] 0 two_entries [] (0 ∷ [])
      (((omega arith, omega arith), ((omega arith, omega arith), tt)), omega arith) (omega arith)
      refl

abbrev two_members : ℕ × (Option Bytes × Unit {0})
two_members = (258, (name, tt))

-- a type with a number and a C string as members, within a statement that has cached a length
decode_members-encode_members_example :
    let m =
      with_member-IsFaithfulPack
        (scalar-IsFaithful arithmetic_kind 4)
        (with_member-IsFaithfulPack c_string-IsFaithful no_members-IsFaithfulPack) in
    let members = with_member (scalar arithmetic_kind 4) (with_member c_string no_members) in
    let (size, cache') = compute_total_encoded_size members (9 ∷ []) two_members in
    (encode_members members cache' ([], 1) two_members
      ≡ some (m.bytes two_members, 1 + length (m.pushed two_members)))
    × (size ≡ length (m.bytes two_members) % 2 ^ 64)
    × (decode_members members (m.bytes two_members ++ []) ≡ some (m.view two_members, []))
unfolding with_member-IsFaithfulPack no_members-IsFaithfulPack scalar-IsFaithful c_string-IsFaithful
decode_members-encode_members_example =
    decode_members-encode_members
      (with_member-IsFaithfulPack (scalar-IsFaithful arithmetic_kind 4)
        (with_member-IsFaithfulPack c_string-IsFaithful no_members-IsFaithfulPack))
      (9 ∷ []) [] two_members [] (omega arith, (omega arith, tt)) (omega arith)
