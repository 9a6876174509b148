-- ===== src/Quill/Codec/Defs.antt =====
-- The interface of the codecs, `Codec<Arg>` of quill/include/quill/core/Codec.h, with the loops
-- over elements that the codecs of containers share.
--
-- A value of `A` is what the caller logs, one of `D` what the backend gets. The buffer that is
-- written is the bytes so far; it goes with `conditional_arg_size_cache_index`. A read takes bytes
-- off the front. `none` is a throw of the cache, or a read behind the end of the buffer.
use Prim.Native.Nat.{ℕ, zero, suc, ◌+◌, ◌%◌, ◌^◌}
use logger_benchmarks.Prelude.{Bytes, Option, some, List, [], ◌∷◌, ◌++◌, Bool, ◌>>=◌, get_elem?}

-- An arithmetic type: `sizeof(T)` and the bytes of its values.
pub record ObjectRepresentation (A : Type 0) : Type 0 where
  pub sizeof : ℕ
  pub object_bytes : A → Bytes

-- `arithmetic` and `is_bool` are what the `if constexpr` tests ask of the type, and `keeps_cache`
-- whether it is one of arithmetic, `void*`, `std::string` and `std::string_view`.
pub record Codec (A D : Type 0) : Type 0 where
  pub arithmetic : Option (ObjectRepresentation A)
  pub is_bool : Bool
  pub keeps_cache : Bool
  pub compute_encoded_size : List ℕ → A → ℕ × List ℕ
  pub encode : List ℕ → Bytes × ℕ → A → Option (Bytes × ℕ)
  pub decode_arg : Bytes → Option (D × Bytes)

-- `size_t` addition and multiplication
abbrev pub add_size : ℕ → ℕ → ℕ
add_size a b = (a + b) % 2 ^ 64

-- `conditional_arg_size_cache[conditional_arg_size_cache_index++]`, the index a `uint32_t`
abbrev pub next_cached : List ℕ → ℕ → Option (ℕ × ℕ)
next_cached cache i = get_elem? cache i >>= λ len. some (len, (i + 1) % 2 ^ 32)

module _ {A D : Type 0} (c : Codec A D) where
  -- `for (auto const& elem : arg) total_size += Codec<T>::compute_encoded_size(cache, elem);`
  unfoldable pub add_sizes : List ℕ → ℕ → List A → ℕ × List ℕ
  add_sizes cache total_size [] = (total_size, cache)
  add_sizes cache total_size (elem ∷ elems) =
      let (size, cache') = c.compute_encoded_size cache elem in
      add_sizes cache' (add_size total_size size) elems

  -- `for (auto const& elem : arg) Codec<T>::encode(buffer, cache, index, elem);`
  unfoldable pub encode_each : List ℕ → Bytes × ℕ → List A → Option (Bytes × ℕ)
  encode_each cache w [] = some w
  encode_each cache w (elem ∷ elems) = c.encode cache w elem >>= λ w'. encode_each cache w' elems

  -- `for (size_t i = 0; i < n; ++i)` one `Codec<T>::decode_arg(buffer)`
  unfoldable pub decode_each : ℕ → Bytes → Option (List D × Bytes)
  decode_each zero buffer = some ([], buffer)
  decode_each (suc n) buffer =
      c.decode_arg buffer >>= λ d. decode_each n d.1 >>= λ r. some (d.0 ∷ r.0, r.1)

  -- `args_store->push_back(decode_arg(buffer));`
  unfoldable pub decode_and_store_arg : Bytes → List D → Option (List D × Bytes)
  decode_and_store_arg buffer args_store =
      c.decode_arg buffer >>= λ d. some (args_store ++ d.0 ∷ [], d.1)
