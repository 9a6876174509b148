-- ===== src/Quill/Codec/SequenceFaithful.antt =====
-- The codecs of vectors, lists, deques and forward lists keep what they owe, given that the codec of
-- the elements does.
use Prim.Native.Nat.{ℕ, ◌+◌, ◌%◌, ◌^◌, ◌<◌}
use mathlib.Core.Bool.{false≢true}
use logger_benchmarks.Prelude.{
  Bytes, Option, some, none, List, ◌++◌, false, ◌≡◌, refl, ap, ◌∙◌, sym, length, append_assoc,
  arith, All, map, Bool-cases, inl, inr,
}
use logger_benchmarks.Prelude.Slices.{pairs, drop}
use logger_benchmarks.Quill.Codec.Defs.{Codec, ObjectRepresentation}
use logger_benchmarks.Quill.Codec.Faithful.{IsFaithful, concat_map}
use logger_benchmarks.Quill.Codec.Scalar.{le_bytes}
use logger_benchmarks.Quill.Codec.Elements.{
  size_of_elements, encode_counted, decode_counted, sizes_elements, encodes_elements,
  encodes_counted, decodes_counted, counted_bytes, length-counted_bytes, Takes,
}
use logger_benchmarks.Quill.Codec.Sequence.{
  use_memcpy_fast_path, vector_size, encode_vector, decode_vector, vector, list_size, encode_list,
  decode_list, linked_list, deque_size, encode_deque, decode_deque, deque, forward_list_size,
  encode_forward_list, decode_forward_list, forward_list,
}

module _ {A D : Type 0} {c : Codec A D} (l : IsFaithful c) where
  open l use {Fits, pushed, bytes, view, represents}

  -- The elements fit, and so does their number.
  abbrev pub AllFit : List A → Type 0
  AllFit xs = All Fits xs × (length xs < 2 ^ 64)

  -- A codec that writes the number of elements and then each of them.
  unfoldable pub counted-IsFaithful :
      (kind : Option (ObjectRepresentation A)) (size : List ℕ → List A → ℕ × List ℕ)
      (encode : List ℕ → Bytes × ℕ → List A → Option (Bytes × ℕ))
      (decode : Bytes → Option (List D × Bytes))
      → Takes l kind
      → ((cache : List ℕ) (xs : List A) → size cache xs ≡ size_of_elements c kind cache 8 xs)
      → ((cache : List ℕ) (w : Bytes × ℕ) (xs : List A)
          → encode cache w xs ≡ encode_counted c cache w xs)
      → ((buffer : Bytes) → decode buffer ≡ decode_counted c buffer)
      → IsFaithful (record {
        arithmetic = none;
        is_bool = false;
        keeps_cache = false;
        compute_encoded_size = size;
        encode = encode;
        decode_arg = decode;
      })
  counted-IsFaithful kind size encode decode takes sized encoded decoded = record {
    Fits = AllFit;
    pushed = concat_map pushed;
    bytes = counted_bytes l;
    view = map view;
    sizes = λ cache xs fit.
        sized cache xs
        ∙ sizes_elements l kind cache 8 xs takes (omega arith) fit.0
        ∙ pairs (ap (λ n. n % 2 ^ 64) (sym (length-counted_bytes l xs))) refl;
    encodes = λ cache buffer i xs later fit small here.
        encoded cache (buffer, i) xs ∙ encodes_counted l cache buffer i xs later fit.0 small here;
    decodes =
        λ xs rest fit. decoded (counted_bytes l xs ++ rest) ∙ decodes_counted l xs rest fit.0 fit.1;
    caches = λ e _. absurd (false≢true e);
    represents = λ _ _. tt;
  }

  unfoldable pub linked_list-IsFaithful : IsFaithful (linked_list c)
  unfolding list_size encode_list decode_list counted-IsFaithful
  linked_list-IsFaithful =
      counted-IsFaithful c.arithmetic (list_size c) (encode_list c) (decode_list c) represents
        (λ _ _. refl) (λ _ _ _. refl) (λ _. refl)

  unfoldable pub deque-IsFaithful : IsFaithful (deque c)
  unfolding deque_size encode_deque decode_deque counted-IsFaithful
  deque-IsFaithful =
      counted-IsFaithful c.arithmetic (deque_size c) (encode_deque c) (decode_deque c) represents
        (λ _ _. refl) (λ _ _ _. refl) (λ _. refl)

  unfoldable pub forward_list-IsFaithful : IsFaithful (forward_list c)
  unfolding forward_list_size encode_forward_list decode_forward_list size_of_elements
      encode_counted decode_counted counted-IsFaithful
  forward_list-IsFaithful =
      counted-IsFaithful none (forward_list_size c) (encode_forward_list c) (decode_forward_list c)
        (λ _ _. tt) (λ _ _. refl) (λ _ _ _. refl) (λ _. refl)

  pub fast_path-Takes : Takes l (use_memcpy_fast_path c)
  unfolding use_memcpy_fast_path
  fast_path-Takes v fit = elim (Bool-cases c.is_bool) [
    | inl bit ↦ rw bit tt
    | inr other ↦ rw other (represents v fit)
  ]

  pub encodes_vector :
      (cache : List ℕ) (buffer : Bytes) (i : ℕ) (xs : List A) (later : List ℕ)
      → All Fits xs
      → length cache < 2 ^ 32
      → drop i cache ≡ concat_map pushed xs ++ later
      → encode_vector c cache (buffer, i) xs
        ≡ some (buffer ++ counted_bytes l xs, i + length (concat_map pushed xs))
  unfolding encode_vector
  encodes_vector cache buffer i xs later fits small here =
      encodes_elements l (use_memcpy_fast_path c) cache (buffer ++ le_bytes 8 (length xs)) i xs
        later fast_path-Takes fits small here
      ∙ ap some (pairs (append_assoc buffer (le_bytes 8 (length xs)) (concat_map bytes xs)) refl)

  -- The copy of all elements writes what the loop over them writes.
  unfoldable pub vector-IsFaithful : IsFaithful (vector c)
  unfolding vector_size decode_vector
  vector-IsFaithful = record {
    Fits = AllFit;
    pushed = concat_map pushed;
    bytes = counted_bytes l;
    view = map view;
    sizes = λ cache xs fit.
        sizes_elements l (use_memcpy_fast_path c) cache 8 xs fast_path-Takes (omega arith) fit.0
        ∙ pairs (ap (λ n. n % 2 ^ 64) (sym (length-counted_bytes l xs))) refl;
    encodes = λ cache buffer i xs later fit small here.
        encodes_vector cache buffer i xs later fit.0 small here;
    decodes = λ xs rest fit. decodes_counted l xs rest fit.0 fit.1;
    caches = λ e _. absurd (false≢true e);
    represents = λ _ _. tt;
  }

  -- If the elements fit, fewer than 2^32 lengths are cached and those of the elements come next,
  -- encode_vector, which copies arithmetic elements in one piece, writes the same bytes as the
  -- element by element encoding of a list.
  pub encode_vector-encode_counted :
      (cache : List ℕ) (buffer : Bytes) (i : ℕ) (xs : List A) (later : List ℕ)
      → All Fits xs
      → length cache < 2 ^ 32
      → drop i cache ≡ concat_map pushed xs ++ later
      → encode_vector c cache (buffer, i) xs ≡ encode_counted c cache (buffer, i) xs
  encode_vector-encode_counted cache buffer i xs later fits small here =
      encodes_vector cache buffer i xs later fits small here
      ∙ sym (encodes_counted l cache buffer i xs later fits small here)
