-- ===== src/Quill/Codec/Elements.antt =====
-- What the codecs of quill/include/quill/std do with the elements of a container: one copy of them
-- all where the type is arithmetic, one codec call for each otherwise.
use Prim.Native.Nat.{ℕ, ◌+◌, ◌*◌, ◌%◌, ◌^◌, ◌<◌}
use logger_benchmarks.Prelude.{
  Bytes, Option, some, none, List, [], ◌∷◌, ◌++◌, ◌≡◌, refl, ap, ◌∙◌, sym, ◌>>=◌, length,
  append-nil, append_assoc, arith, length-append, All, map,
}
use logger_benchmarks.Prelude.Slices.{pairs, drop}
use logger_benchmarks.Quill.Codec.Defs.{
  Codec, ObjectRepresentation, add_size, add_sizes, encode_each, decode_each,
}
use logger_benchmarks.Quill.Codec.Faithful.{
  IsFaithful, Represents, concat_map, sizes_each, encodes_each, decodes_each,
}
use logger_benchmarks.Quill.Codec.Scalar.{le_bytes, size_codec, le_value-le_bytes}

module _ {A D : Type 0} (c : Codec A D) where
  -- `total_size += sizeof(T) * arg.size()`, or the loop over the elements
  unfoldable pub size_of_elements :
      Option (ObjectRepresentation A) → List ℕ → ℕ → List A → ℕ × List ℕ
  size_of_elements (some r) cache total_size arg =
      (add_size total_size ((r.sizeof * length arg) % 2 ^ 64), cache)
  size_of_elements none cache total_size arg = add_sizes c cache total_size arg

  -- `std::memcpy(buffer, arg.data(), sizeof(T) * arg.size()); buffer += sizeof(T) * arg.size();`,
  -- or the loop over the elements
  unfoldable pub encode_elements :
      Option (ObjectRepresentation A) → List ℕ → Bytes × ℕ → List A → Option (Bytes × ℕ)
  encode_elements (some r) cache (buffer, i) arg = some (buffer ++ concat_map r.object_bytes arg, i)
  encode_elements none cache w arg = encode_each c cache w arg

  -- `Codec<size_t>::encode(…, arg.size())`, then the loop over the elements
  unfoldable pub encode_counted : List ℕ → Bytes × ℕ → List A → Option (Bytes × ℕ)
  encode_counted cache w arg =
      size_codec.encode cache w (length arg) >>= λ w'. encode_each c cache w' arg

  -- `size_t const number_of_elements = Codec<size_t>::decode_arg(buffer);`, then the loop
  unfoldable pub decode_counted : Bytes → Option (List D × Bytes)
  decode_counted buffer = size_codec.decode_arg buffer >>= λ n. decode_each c n.0 n.1

module _ {A D : Type 0} {c : Codec A D} (l : IsFaithful c) where
  open l use {Fits, pushed, bytes, view}

  abbrev InOneCopy : Option (ObjectRepresentation A) → List A → Type 0
  InOneCopy none xs = Unit
  InOneCopy (some r) xs =
      (concat_map pushed xs ≡ [])
      × (concat_map bytes xs ≡ concat_map r.object_bytes xs)
      × (length (concat_map bytes xs) ≡ r.sizeof * length xs)

  -- `kind` is what the codec of the container takes for arithmetic.
  abbrev pub Takes : Option (ObjectRepresentation A) → Type 0
  Takes kind = (v : A) → Fits v → Represents kind (pushed v) (bytes v) v

  in_one_copy :
      (kind : Option (ObjectRepresentation A)) (xs : List A)
      → Takes kind
      → All Fits xs
      → InOneCopy kind xs
  in_one_copy none xs takes fits = tt
  in_one_copy (some r) [] takes fits = (refl, refl, omega arith)
  in_one_copy (some r) (x ∷ xs) takes (fit, fits) =
      let (nothing, same, long) = takes x fit in
      let (nothings, sames, longs) = in_one_copy (some r) xs takes fits in
      (
        rw (nothing, nothings),
        rw (same, sames),
        omega (arith, long, longs, length-append (bytes x) (concat_map bytes xs)),
      )

  pub sizes_elements :
      (kind : Option (ObjectRepresentation A)) (cache : List ℕ) (total : ℕ) (xs : List A)
      → Takes kind
      → total < 2 ^ 64
      → All Fits xs
      → size_of_elements c kind cache total xs
        ≡ ((total + length (concat_map bytes xs)) % 2 ^ 64, cache ++ concat_map pushed xs)
  unfolding size_of_elements
  sizes_elements none cache total xs takes small fits = sizes_each l cache total xs small fits
  sizes_elements (some r) cache total xs takes small fits =
      let (nothing, same, long) = in_one_copy (some r) xs takes fits in
      rw nothing (pairs (omega (arith, long)) (sym (append-nil cache)))

  pub encodes_elements :
      (kind : Option (ObjectRepresentation A)) (cache : List ℕ) (buffer : Bytes) (i : ℕ)
      (xs : List A) (later : List ℕ)
      → Takes kind
      → All Fits xs
      → length cache < 2 ^ 32
      → drop i cache ≡ concat_map pushed xs ++ later
      → encode_elements c kind cache (buffer, i) xs
        ≡ some (buffer ++ concat_map bytes xs, i + length (concat_map pushed xs))
  unfolding encode_elements
  encodes_elements none cache buffer i xs later takes fits small here =
      encodes_each l cache buffer i xs later fits small here
  encodes_elements (some r) cache buffer i xs later takes fits small here =
      let (nothing, same, long) = in_one_copy (some r) xs takes fits in
      rw (nothing, same) (ap some (pairs refl (omega arith)))

  -- the encoding of a container that starts with the number of its elements
  abbrev pub counted_bytes : List A → Bytes
  counted_bytes xs = le_bytes 8 (length xs) ++ concat_map bytes xs

  pub length-counted_bytes :
      (xs : List A) → length (counted_bytes xs) ≡ 8 + length (concat_map bytes xs)
  length-counted_bytes xs =
      omega (arith, length-append (le_bytes 8 (length xs)) (concat_map bytes xs))

  pub encodes_counted :
      (cache : List ℕ) (buffer : Bytes) (i : ℕ) (xs : List A) (later : List ℕ)
      → All Fits xs
      → length cache < 2 ^ 32
      → drop i cache ≡ concat_map pushed xs ++ later
      → encode_counted c cache (buffer, i) xs
        ≡ some (buffer ++ counted_bytes xs, i + length (concat_map pushed xs))
  unfolding encode_counted
  encodes_counted cache buffer i xs later fits small here =
      encodes_each l cache (buffer ++ le_bytes 8 (length xs)) i xs later fits small here
      ∙ ap some (pairs (append_assoc buffer (le_bytes 8 (length xs)) (concat_map bytes xs)) refl)

  pub decodes_counted :
      (xs : List A) (rest : Bytes)
      → All Fits xs
      → length xs < 2 ^ 64
      → decode_counted c (counted_bytes xs ++ rest) ≡ some (map view xs, rest)
  unfolding decode_counted
  decodes_counted xs rest fits small =
      ap (λ n. decode_each c n (concat_map bytes xs ++ rest))
        (le_value-le_bytes 8 (length xs) small)
      ∙ decodes_each l xs rest fits
