-- ===== src/Quill/Codec/Arrays.antt =====
-- The codecs of quill/include/quill/std/Array.h, for `T[N]` and for `std::array<T, N>`. The number
-- of elements is in the type and not in the encoding.
use Prim.Native.Nat.{ℕ, suc, ◌*◌, ◌%◌, ◌^◌}
use mathlib.Core.Bool.{false≢true}
use mathlib.Core.Path.{subst}
use logger_benchmarks.Prelude.{
  Bytes, Option, some, none, List, [], ◌∷◌, ◌++◌, false, ◌≡◌, refl, ap, ◌∙◌, sym, length,
  append-nil, arith, All, map, if◌then◌else◌, ltb, lt→ltb,
}
use logger_benchmarks.Prelude.Slices.{pairs}
use logger_benchmarks.Quill.Codec.Defs.{
  Codec, ObjectRepresentation, add_sizes, encode_each, decode_each,
}
use logger_benchmarks.Quill.Codec.Faithful.{IsFaithful, concat_map, decodes_each}
use logger_benchmarks.Quill.Codec.Elements.{
  size_of_elements, encode_elements, sizes_elements, encodes_elements, Takes,
}

module _ {A D : Type 0} (c : Codec A D) (n : ℕ) where
  -- `sizeof(T) * N`, or the loop
  unfoldable pub size_of_array : Option (ObjectRepresentation A) → List ℕ → List A → ℕ × List ℕ
  size_of_array (some r) cache arg = ((r.sizeof * n) % 2 ^ 64, cache)
  size_of_array none cache arg = add_sizes c cache 0 arg

  unfoldable pub c_array_size : List ℕ → List A → ℕ × List ℕ
  c_array_size cache arg = size_of_array c.arithmetic cache arg

  unfoldable pub encode_c_array : List ℕ → Bytes × ℕ → List A → Option (Bytes × ℕ)
  encode_c_array cache w arg = encode_elements c c.arithmetic cache w arg

  unfoldable pub decode_c_array : Bytes → Option (List D × Bytes)
  decode_c_array buffer = decode_each c n buffer

  -- `Codec<T[N]>`
  abbrev pub c_array : Codec (List A) (List D)
  c_array = record {
    arithmetic = none;
    is_bool = false;
    keeps_cache = false;
    compute_encoded_size = c_array_size;
    encode = encode_c_array;
    decode_arg = decode_c_array;
  }

  unfoldable pub array_size : List ℕ → List A → ℕ × List ℕ
  array_size cache arg = size_of_array c.arithmetic cache arg

  -- nothing is copied when `N` is 0
  unfoldable pub encode_arithmetic_array :
      Option (ObjectRepresentation A) → List ℕ → Bytes × ℕ → List A → Option (Bytes × ℕ)
  encode_arithmetic_array (some r) cache (buffer, i) arg =
      some ((if ltb 0 n then buffer ++ concat_map r.object_bytes arg else buffer), i)
  encode_arithmetic_array none cache w arg = encode_each c cache w arg

  unfoldable pub encode_array : List ℕ → Bytes × ℕ → List A → Option (Bytes × ℕ)
  encode_array cache w arg = encode_arithmetic_array c.arithmetic cache w arg

  unfoldable pub decode_array : Bytes → Option (List D × Bytes)
  decode_array buffer = decode_each c n buffer

  -- `Codec<std::array<T, N>>`
  abbrev pub array : Codec (List A) (List D)
  array = record {
    arithmetic = none;
    is_bool = false;
    keeps_cache = false;
    compute_encoded_size = array_size;
    encode = encode_array;
    decode_arg = decode_array;
  }

module _ {A D : Type 0} {c : Codec A D} (l : IsFaithful c) (n : ℕ) where
  open l use {Fits, pushed, bytes, view, represents}

  -- `N` elements that fit
  abbrev pub Holds : List A → Type 0
  Holds xs = All Fits xs × (length xs ≡ n)

  pub sizes_array :
      (kind : Option (ObjectRepresentation A)) (cache : List ℕ) (xs : List A)
      → Takes l kind
      → Holds xs
      → size_of_array c n kind cache xs
        ≡ (length (concat_map bytes xs) % 2 ^ 64, cache ++ concat_map pushed xs)
  unfolding size_of_array size_of_elements
  sizes_array none cache xs takes (fits, long) =
      sizes_elements l none cache 0 xs takes (omega arith) fits
      ∙ pairs (ap (λ k. k % 2 ^ 64) (omega arith)) refl
  sizes_array (some r) cache xs takes (fits, long) =
      subst
        (λ k.
          ◌≡◌ {A = ℕ × List ℕ} ((r.sizeof * k) % 2 ^ 64, cache)
            (length (concat_map bytes xs) % 2 ^ 64, cache ++ concat_map pushed xs))
        long
        (pairs (omega arith) refl
          ∙ sizes_elements l (some r) cache 0 xs takes (omega arith) fits
          ∙ pairs (ap (λ k. k % 2 ^ 64) (omega arith)) refl)

  pub encodes_arithmetic_array :
      (kind : Option (ObjectRepresentation A)) (cache : List ℕ) (w : Bytes × ℕ) (xs : List A)
      → length xs ≡ n
      → encode_arithmetic_array c n kind cache w xs ≡ encode_elements c kind cache w xs
  unfolding encode_arithmetic_array encode_elements
  encodes_arithmetic_array none cache w xs long = refl
  encodes_arithmetic_array (some r) cache (buffer, i) [] long =
      subst
        (λ k.
          ◌≡◌ {A = Option (Bytes × ℕ)} (some ((if ltb 0 k then buffer ++ [] else buffer), i))
            (some (buffer ++ [], i)))
        long (ap some (pairs (sym (append-nil buffer)) refl))
  encodes_arithmetic_array (some r) cache (buffer, i) (x ∷ xs) long =
      let bs = concat_map r.object_bytes (x ∷ xs) in
      subst
        (λ k.
          ◌≡◌ {A = Option (Bytes × ℕ)} (some ((if ltb 0 k then buffer ++ bs else buffer), i))
            (some (buffer ++ bs, i)))
        long (rw (lt→ltb 0 (suc (length xs)) (omega arith)))

  pub decodes_array :
      (xs : List A) (rest : Bytes)
      → Holds xs
      → decode_each c n (concat_map bytes xs ++ rest) ≡ some (map view xs, rest)
  decodes_array xs rest (fits, long) =
      subst (λ k. decode_each c k (concat_map bytes xs ++ rest) ≡ some (map view xs, rest)) long
        (decodes_each l xs rest fits)

  unfoldable pub c_array-IsFaithful : IsFaithful (c_array c n)
  unfolding c_array_size encode_c_array decode_c_array
  c_array-IsFaithful = record {
    Fits = Holds;
    pushed = concat_map pushed;
    bytes = concat_map bytes;
    view = map view;
    sizes = λ cache xs fit. sizes_array c.arithmetic cache xs represents fit;
    encodes = λ cache buffer i xs later fit small here.
        encodes_elements l c.arithmetic cache buffer i xs later represents fit.0 small here;
    decodes = decodes_array;
    caches = λ e _. absurd (false≢true e);
    represents = λ _ _. tt;
  }

  unfoldable pub array-IsFaithful : IsFaithful (array c n)
  unfolding array_size encode_array decode_array
  array-IsFaithful = record {
    Fits = Holds;
    pushed = concat_map pushed;
    bytes = concat_map bytes;
    view = map view;
    sizes = λ cache xs fit. sizes_array c.arithmetic cache xs represents fit;
    encodes = λ cache buffer i xs later fit small here.
        encodes_arithmetic_array c.arithmetic cache (buffer, i) xs fit.1
        ∙ encodes_elements l c.arithmetic cache buffer i xs later represents fit.0 small here;
    decodes = decodes_array;
    caches = λ e _. absurd (false≢true e);
    represents = λ _ _. tt;
  }
