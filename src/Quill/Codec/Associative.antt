-- ===== src/Quill/Codec/Associative.antt =====
-- The codecs of quill/include/quill/std/Set.h, UnorderedSet.h, Map.h and UnorderedMap.h, over the
-- codecs of keys and values. What the caller logs is the list of the elements in the order of the
-- container's iterators, the same in both passes; what the backend builds is a container of the
-- standard library, known by its empty one and its insertion.
use Prim.Native.Nat.{ℕ, zero, suc, ◌+◌, ◌*◌, ◌%◌, ◌^◌}
use logger_benchmarks.Prelude.{Bytes, Option, some, none, List, [], ◌∷◌, false, ◌>>=◌, length}
use logger_benchmarks.Quill.Codec.Defs.{Codec, ObjectRepresentation, add_size}
use logger_benchmarks.Quill.Codec.Scalar.{size_codec}
use logger_benchmarks.Quill.Codec.Elements.{size_of_elements, encode_counted}

pub record Container (E C : Type 0) : Type 0 where
  pub empty : C
  pub insert : E → C → C

module _ {E C : Type 0} (container : Container E C) where
  -- insertions one after the other
  abbrev pub insert_all : C → List E → C
  insert_all arg [] = arg
  insert_all arg (e ∷ es) = insert_all (container.insert e arg) es

module _ {K D C : Type 0} (c : Codec K D) (container : Container D C) where
  -- `for (size_t i = 0; i < n; ++i) arg.emplace(Codec<Key>::decode_arg(buffer));`
  unfoldable pub emplace_each : ℕ → C → Bytes → Option (C × Bytes)
  emplace_each zero arg buffer = some (arg, buffer)
  emplace_each (suc n) arg buffer =
      c.decode_arg buffer >>= λ d. emplace_each n (container.insert d.0 arg) d.1

  unfoldable pub set_size : List ℕ → List K → ℕ × List ℕ
  set_size cache arg = size_of_elements c c.arithmetic cache 8 arg

  unfoldable pub encode_set : List ℕ → Bytes × ℕ → List K → Option (Bytes × ℕ)
  encode_set cache w arg = encode_counted c cache w arg

  unfoldable pub decode_set : Bytes → Option (C × Bytes)
  decode_set buffer = size_codec.decode_arg buffer >>= λ n. emplace_each n.0 container.empty n.1

  -- `Codec<std::set<Key>>`, and of `std::multiset`
  abbrev pub set : Codec (List K) C
  set = record {
    arithmetic = none;
    is_bool = false;
    keeps_cache = false;
    compute_encoded_size = set_size;
    encode = encode_set;
    decode_arg = decode_set;
  }

  unfoldable pub unordered_set_size : List ℕ → List K → ℕ × List ℕ
  unordered_set_size cache arg = size_of_elements c c.arithmetic cache 8 arg

  unfoldable pub encode_unordered_set : List ℕ → Bytes × ℕ → List K → Option (Bytes × ℕ)
  encode_unordered_set cache w arg = encode_counted c cache w arg

  -- `reserve` changes no contents
  unfoldable pub decode_unordered_set : Bytes → Option (C × Bytes)
  decode_unordered_set buffer =
      size_codec.decode_arg buffer >>= λ n. emplace_each n.0 container.empty n.1

  -- `Codec<std::unordered_set<Key>>`, and of `std::unordered_multiset`
  abbrev pub unordered_set : Codec (List K) C
  unordered_set = record {
    arithmetic = none;
    is_bool = false;
    keeps_cache = false;
    compute_encoded_size = unordered_set_size;
    encode = encode_unordered_set;
    decode_arg = decode_unordered_set;
  }

module _ {K D T E : Type 0} (c : Codec K D) (d : Codec T E) where
  -- the loop over `elem.first` and `elem.second`
  unfoldable pub add_entry_sizes : List ℕ → ℕ → List (K × T) → ℕ × List ℕ
  add_entry_sizes cache total_size [] = (total_size, cache)
  add_entry_sizes cache total_size ((key, value) ∷ elems) =
      let (size, cache') = c.compute_encoded_size cache key in
      let (more, cache'') = d.compute_encoded_size cache' value in
      add_entry_sizes cache'' (add_size (add_size total_size size) more) elems

  -- `(sizeof(Key) + sizeof(T)) * arg.size()` when both are arithmetic, or the loop;
  -- the sizes of two types do not add up to more than a `size_t`
  unfoldable pub size_of_entries :
      Option (ObjectRepresentation K)
      → Option (ObjectRepresentation T)
      → List ℕ
      → List (K × T)
      → ℕ × List ℕ
  size_of_entries (some r) (some s) cache arg =
      (add_size 8 (((r.sizeof + s.sizeof) * length arg) % 2 ^ 64), cache)
  size_of_entries (some r) none cache arg = add_entry_sizes cache 8 arg
  size_of_entries none s cache arg = add_entry_sizes cache 8 arg

  unfoldable pub encode_entries : List ℕ → Bytes × ℕ → List (K × T) → Option (Bytes × ℕ)
  encode_entries cache w [] = some w
  encode_entries cache w ((key, value) ∷ elems) = c.encode cache w key >>= λ w'.
      d.encode cache w' value >>= λ w''. encode_entries cache w'' elems

module _ {K D T E C : Type 0} (c : Codec K D) (d : Codec T E)
    (container : Container (D × E) C) where
  -- one `arg.insert({key, value})` a round
  unfoldable pub insert_each : ℕ → C → Bytes → Option (C × Bytes)
  insert_each zero arg buffer = some (arg, buffer)
  insert_each (suc n) arg buffer = c.decode_arg buffer >>= λ k.
      d.decode_arg k.1 >>= λ v. insert_each n (container.insert (k.0, v.0) arg) v.1

  unfoldable pub map_size : List ℕ → List (K × T) → ℕ × List ℕ
  map_size cache arg = size_of_entries c d c.arithmetic d.arithmetic cache arg

  unfoldable pub encode_map : List ℕ → Bytes × ℕ → List (K × T) → Option (Bytes × ℕ)
  encode_map cache w arg =
      size_codec.encode cache w (length arg) >>= λ w'. encode_entries c d cache w' arg

  unfoldable pub decode_map : Bytes → Option (C × Bytes)
  decode_map buffer = size_codec.decode_arg buffer >>= λ n. insert_each n.0 container.empty n.1

  -- `Codec<std::map<Key, T>>`, and of `std::multimap`
  abbrev pub map_codec : Codec (List (K × T)) C
  map_codec = record {
    arithmetic = none;
    is_bool = false;
    keeps_cache = false;
    compute_encoded_size = map_size;
    encode = encode_map;
    decode_arg = decode_map;
  }

  unfoldable pub unordered_map_size : List ℕ → List (K × T) → ℕ × List ℕ
  unordered_map_size cache arg = size_of_entries c d c.arithmetic d.arithmetic cache arg

  unfoldable pub encode_unordered_map : List ℕ → Bytes × ℕ → List (K × T) → Option (Bytes × ℕ)
  encode_unordered_map cache w arg =
      size_codec.encode cache w (length arg) >>= λ w'. encode_entries c d cache w' arg

  unfoldable pub decode_unordered_map : Bytes → Option (C × Bytes)
  decode_unordered_map buffer =
      size_codec.decode_arg buffer >>= λ n. insert_each n.0 container.empty n.1

  -- `Codec<std::unordered_map<Key, T>>`, and of `std::unordered_multimap`
  abbrev pub unordered_map_codec : Codec (List (K × T)) C
  unordered_map_codec = record {
    arithmetic = none;
    is_bool = false;
    keeps_cache = false;
    compute_encoded_size = unordered_map_size;
    encode = encode_unordered_map;
    decode_arg = decode_unordered_map;
  }
