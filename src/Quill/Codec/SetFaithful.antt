-- ===== src/Quill/Codec/SetFaithful.antt =====
-- The codecs of sets keep what they owe: the backend's container is the result of inserting
-- what each element reads back as, in the order of the caller's container.
use Prim.Native.Nat.{◌%◌, ◌^◌}
use mathlib.Core.Bool.{false≢true}
use logger_benchmarks.Prelude.{
  Bytes, some, List, [], ◌∷◌, ◌++◌, ◌≡◌, refl, ap, ◌∙◌, sym, ◌>>=◌, length, append_assoc, arith,
  All, map,
}
use logger_benchmarks.Prelude.Slices.{pairs}
use logger_benchmarks.Quill.Codec.Defs.{Codec}
use logger_benchmarks.Quill.Codec.Faithful.{IsFaithful, concat_map}
use logger_benchmarks.Quill.Codec.Scalar.{size_codec, le_value-le_bytes}
use logger_benchmarks.Quill.Codec.Elements.{
  sizes_elements, encodes_counted, counted_bytes, length-counted_bytes,
}
use logger_benchmarks.Quill.Codec.SequenceFaithful.{AllFit}
use logger_benchmarks.Quill.Codec.Associative.{
  Container, insert_all, emplace_each, set_size, encode_set, decode_set, set, unordered_set_size,
  encode_unordered_set, decode_unordered_set, unordered_set,
}

module _ {K D C : Type 0} {c : Codec K D} (l : IsFaithful c) (container : Container D C) where
  open l use {Fits, pushed, bytes, view, represents}

  emplaces_each :
      (xs : List K) (arg : C) (rest : Bytes)
      → All Fits xs
      → emplace_each c container (length xs) arg (concat_map bytes xs ++ rest)
        ≡ some (insert_all container arg (map view xs), rest)
  unfolding emplace_each
  emplaces_each [] arg rest fits = refl
  emplaces_each (x ∷ xs) arg rest (fit, fits) =
      rw
        (
          append_assoc (bytes x) (concat_map bytes xs) rest,
          l.decodes x (concat_map bytes xs ++ rest) fit,
        )
        (emplaces_each xs (container.insert (view x) arg) rest fits)

  pub emplaces_counted :
      (xs : List K) (rest : Bytes)
      → AllFit l xs
      → (size_codec.decode_arg (counted_bytes l xs ++ rest) >>= λ n.
          emplace_each c container n.0 container.empty n.1)
        ≡ some (insert_all container container.empty (map view xs), rest)
  emplaces_counted xs rest (fits, small) =
      ap (λ n. emplace_each c container n container.empty (concat_map bytes xs ++ rest))
        (le_value-le_bytes 8 (length xs) small)
      ∙ emplaces_each xs container.empty rest fits

  unfoldable pub set-IsFaithful : IsFaithful (set c container)
  unfolding set_size encode_set decode_set
  set-IsFaithful = record {
    Fits = AllFit l;
    pushed = concat_map pushed;
    bytes = counted_bytes l;
    view = λ xs. insert_all container container.empty (map view xs);
    sizes = λ cache xs fit.
        sizes_elements l c.arithmetic cache 8 xs represents (omega arith) fit.0
        ∙ pairs (ap (λ n. n % 2 ^ 64) (sym (length-counted_bytes l xs))) refl;
    encodes = λ cache buffer i xs later fit small here.
        encodes_counted l cache buffer i xs later fit.0 small here;
    decodes = emplaces_counted;
    caches = λ e _. absurd (false≢true e);
    represents = λ _ _. tt;
  }

  unfoldable pub unordered_set-IsFaithful : IsFaithful (unordered_set c container)
  unfolding unordered_set_size encode_unordered_set decode_unordered_set
  unordered_set-IsFaithful = record {
    Fits = AllFit l;
    pushed = concat_map pushed;
    bytes = counted_bytes l;
    view = λ xs. insert_all container container.empty (map view xs);
    sizes = λ cache xs fit.
        sizes_elements l c.arithmetic cache 8 xs represents (omega arith) fit.0
        ∙ pairs (ap (λ n. n % 2 ^ 64) (sym (length-counted_bytes l xs))) refl;
    encodes = λ cache buffer i xs later fit small here.
        encodes_counted l cache buffer i xs later fit.0 small here;
    decodes = emplaces_counted;
    caches = λ e _. absurd (false≢true e);
    represents = λ _ _. tt;
  }
