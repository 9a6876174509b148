-- ===== src/Quill/Codec/MapFaithful.antt =====
-- The codecs of maps keep what they owe: the backend's container is the result of inserting what each
-- entry reads back as, in the order of the caller's container.
use Prim.Native.Nat.{ℕ, ◌+◌, ◌%◌, ◌^◌, ◌<◌}
use mathlib.Core.Bool.{false≢true}
use logger_benchmarks.Prelude.{
  Bytes, Option, some, none, List, [], ◌∷◌, ◌++◌, ◌≡◌, refl, ap, ◌∙◌, sym, ◌>>=◌, length,
  append_assoc, arith, length-append, All, map,
}
use logger_benchmarks.Prelude.Slices.{pairs, drop}
use logger_benchmarks.Quill.Codec.Defs.{
  Codec, ObjectRepresentation, add_size, add_sizes, encode_each,
}
use logger_benchmarks.Quill.Codec.Faithful.{IsFaithful, concat_map, sizes_each}
use logger_benchmarks.Quill.Codec.Scalar.{size_codec, le_bytes, le_value-le_bytes}
use logger_benchmarks.Quill.Codec.Elements.{
  size_of_elements, encode_counted, sizes_elements, encodes_counted, counted_bytes,
  length-counted_bytes, Takes,
}
use logger_benchmarks.Quill.Codec.Product.{pair, pair_size, encode_pair, pair-IsFaithful}
use logger_benchmarks.Quill.Codec.SequenceFaithful.{AllFit}
use logger_benchmarks.Quill.Codec.Associative.{
  Container, insert_all, add_entry_sizes, size_of_entries, encode_entries, insert_each, map_size,
  encode_map, decode_map, map_codec, unordered_map_size, encode_unordered_map, decode_unordered_map,
  unordered_map_codec,
}

bind_assoc {ℓ κ λ'} :
    {A : Type ℓ} {B : Type κ} {C : Type λ'} (o : Option A) (f : A → Option B) (g : B → Option C)
    → ((o >>= f) >>= g) ≡ (o >>= λ a. f a >>= g)
bind_assoc none f g = refl
bind_assoc (some a) f g = refl

bind_ext {ℓ κ} :
    {A : Type ℓ} {B : Type κ} (o : Option A) (f g : A → Option B)
    → ((a : A) → f a ≡ g a)
    → (o >>= f) ≡ (o >>= g)
bind_ext none f g h = refl
bind_ext (some a) f g h = h a

module _ {K D T E : Type 0} {c : Codec K D} {d : Codec T E} (l : IsFaithful c)
    (m : IsFaithful d) where
  abbrev p : IsFaithful (pair c d)
  p = pair-IsFaithful l m

  -- The loops over keys and values are those over pairs.
  add_entry_sizes-add_sizes :
      (cache : List ℕ) (total : ℕ) (xs : List (K × T))
      → add_entry_sizes c d cache total xs ≡ add_sizes (pair c d) cache total xs
  unfolding add_entry_sizes add_sizes pair_size
  add_entry_sizes-add_sizes cache total [] = refl
  add_entry_sizes-add_sizes cache total ((k, v) ∷ xs) =
      let (size, cache') = c.compute_encoded_size cache k in
      let (more, cache'') = d.compute_encoded_size cache' v in
      let regroup : add_size (add_size total size) more ≡ add_size total (add_size size more) =
        omega arith in
      ap (λ t. add_entry_sizes c d cache'' t xs) regroup
      ∙ add_entry_sizes-add_sizes cache'' (add_size total (add_size size more)) xs

  encode_entries-encode_each :
      (cache : List ℕ) (w : Bytes × ℕ) (xs : List (K × T))
      → encode_entries c d cache w xs ≡ encode_each (pair c d) cache w xs
  unfolding encode_entries encode_each encode_pair
  encode_entries-encode_each cache w [] = refl
  encode_entries-encode_each cache w ((k, v) ∷ xs) =
      bind_ext (c.encode cache w k) _ _
        (λ w'. bind_ext (d.encode cache w' v) _ _ (λ w''. encode_entries-encode_each cache w'' xs))
      ∙ sym (
          bind_assoc (c.encode cache w k) (λ w'. d.encode cache w' v)
            (λ w''. encode_each (pair c d) cache w'' xs))

  abbrev both : ObjectRepresentation K → ObjectRepresentation T → ObjectRepresentation (K × T)
  both r s = record {
    sizeof = r.sizeof + s.sizeof;
    object_bytes = λ e. r.object_bytes e.0 ++ s.object_bytes e.1;
  }

  both-Takes :
      (r : ObjectRepresentation K) (s : ObjectRepresentation T)
      → Takes l (some r)
      → Takes m (some s)
      → Takes p (some (both r s))
  unfolding pair-IsFaithful
  both-Takes r s takes takes' (k, v) (fit, fit') =
      let (nothing, same, long) = takes k fit in
      let (nothing', same', long') = takes' v fit' in
      (
        rw (nothing, nothing'),
        rw (same, same'),
        omega (arith, long, long', length-append (l.bytes k) (m.bytes v)),
      )

  pub sizes_entries :
      (kind : Option (ObjectRepresentation K)) (kind' : Option (ObjectRepresentation T))
      (cache : List ℕ) (xs : List (K × T))
      → Takes l kind
      → Takes m kind'
      → All p.Fits xs
      → size_of_entries c d kind kind' cache xs
        ≡ ((8 + length (concat_map p.bytes xs)) % 2 ^ 64, cache ++ concat_map p.pushed xs)
  unfolding size_of_entries size_of_elements
  sizes_entries none kind' cache xs takes takes' fits =
      add_entry_sizes-add_sizes cache 8 xs ∙ sizes_each p cache 8 xs (omega arith) fits
  sizes_entries (some r) none cache xs takes takes' fits =
      add_entry_sizes-add_sizes cache 8 xs ∙ sizes_each p cache 8 xs (omega arith) fits
  sizes_entries (some r) (some s) cache xs takes takes' fits =
      sizes_elements p (some (both r s)) cache 8 xs (both-Takes r s takes takes') (omega arith) fits

  pub encodes_entries :
      (cache : List ℕ) (buffer : Bytes) (i : ℕ) (xs : List (K × T)) (later : List ℕ)
      → All p.Fits xs
      → length cache < 2 ^ 32
      → drop i cache ≡ concat_map p.pushed xs ++ later
      → (size_codec.encode cache (buffer, i) (length xs) >>= λ w. encode_entries c d cache w xs)
        ≡ some (buffer ++ counted_bytes p xs, i + length (concat_map p.pushed xs))
  unfolding encode_counted
  encodes_entries cache buffer i xs later fits small here =
      encode_entries-encode_each cache (buffer ++ le_bytes 8 (length xs), i) xs
      ∙ encodes_counted p cache buffer i xs later fits small here

module _ {K D T E C : Type 0} {c : Codec K D} {d : Codec T E} (l : IsFaithful c) (m : IsFaithful d)
    (container : Container (D × E) C) where
  abbrev q : IsFaithful (pair c d)
  q = pair-IsFaithful l m

  inserts_each :
      (xs : List (K × T)) (arg : C) (rest : Bytes)
      → All q.Fits xs
      → insert_each c d container (length xs) arg (concat_map q.bytes xs ++ rest)
        ≡ some (insert_all container arg (map q.view xs), rest)
  unfolding insert_each pair-IsFaithful
  inserts_each [] arg rest fits = refl
  inserts_each ((k, v) ∷ xs) arg rest ((fit, fit'), fits) =
      let more = concat_map q.bytes xs ++ rest in
      rw
        (
          append_assoc (l.bytes k ++ m.bytes v) (concat_map q.bytes xs) rest,
          append_assoc (l.bytes k) (m.bytes v) more,
          l.decodes k (m.bytes v ++ more) fit,
          m.decodes v more fit',
        )
        (inserts_each xs (container.insert (l.view k, m.view v) arg) rest fits)

  pub inserts_counted :
      (xs : List (K × T)) (rest : Bytes)
      → AllFit q xs
      → (size_codec.decode_arg (counted_bytes q xs ++ rest) >>= λ n.
          insert_each c d container n.0 container.empty n.1)
        ≡ some (insert_all container container.empty (map q.view xs), rest)
  inserts_counted xs rest (fits, small) =
      ap (λ n. insert_each c d container n container.empty (concat_map q.bytes xs ++ rest))
        (le_value-le_bytes 8 (length xs) small)
      ∙ inserts_each xs container.empty rest fits

  unfoldable pub map-IsFaithful : IsFaithful (map_codec c d container)
  unfolding map_size encode_map decode_map
  map-IsFaithful = record {
    Fits = AllFit q;
    pushed = concat_map q.pushed;
    bytes = counted_bytes q;
    view = λ xs. insert_all container container.empty (map q.view xs);
    sizes = λ cache xs fit.
        sizes_entries l m c.arithmetic d.arithmetic cache xs l.represents m.represents fit.0
        ∙ pairs (ap (λ n. n % 2 ^ 64) (sym (length-counted_bytes q xs))) refl;
    encodes = λ cache buffer i xs later fit small here.
        encodes_entries l m cache buffer i xs later fit.0 small here;
    decodes = inserts_counted;
    caches = λ e _. absurd (false≢true e);
    represents = λ _ _. tt;
  }

  unfoldable pub unordered_map-IsFaithful : IsFaithful (unordered_map_codec c d container)
  unfolding unordered_map_size encode_unordered_map decode_unordered_map
  unordered_map-IsFaithful = record {
    Fits = AllFit q;
    pushed = concat_map q.pushed;
    bytes = counted_bytes q;
    view = λ xs. insert_all container container.empty (map q.view xs);
    sizes = λ cache xs fit.
        sizes_entries l m c.arithmetic d.arithmetic cache xs l.represents m.represents fit.0
        ∙ pairs (ap (λ n. n % 2 ^ 64) (sym (length-counted_bytes q xs))) refl;
    encodes = λ cache buffer i xs later fit small here.
        encodes_entries l m cache buffer i xs later fit.0 small here;
    decodes = inserts_counted;
    caches = λ e _. absurd (false≢true e);
    represents = λ _ _. tt;
  }

  -- If the entries fit, fewer than 2^32 lengths are cached and those of the entries come next, a
  -- map is encoded as its count and its entries, and decode_map of these bytes inserts the decoded
  -- entries, in order, into an empty container and leaves the rest.
  pub decode_map-encode_map :
      (cache : List ℕ) (buffer : Bytes) (i : ℕ) (xs : List (K × T)) (later : List ℕ) (rest : Bytes)
      → AllFit q xs
      → length cache < 2 ^ 32
      → drop i cache ≡ concat_map q.pushed xs ++ later
      → (encode_map c d container cache (buffer, i) xs
          ≡ some (buffer ++ counted_bytes q xs, i + length (concat_map q.pushed xs)))
        × (decode_map c d container (counted_bytes q xs ++ rest)
            ≡ some (insert_all container container.empty (map q.view xs), rest))
  unfolding encode_map decode_map
  decode_map-encode_map cache buffer i xs later rest fit small here =
      (encodes_entries l m cache buffer i xs later fit.0 small here, inserts_counted xs rest fit)
