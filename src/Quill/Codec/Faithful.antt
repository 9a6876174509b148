-- ===== src/Quill/Codec/Faithful.antt =====
-- What a codec owes the library: the size it announces is that of the bytes it writes, it takes
-- out of the cache what it put there, and the backend reads back the value. The loops keep it.
use Prim.Native.Nat.{ℕ, ◌+◌, ◌%◌, ◌^◌, ◌<◌}
use logger_benchmarks.Prelude.{
  Bytes, Option, some, none, List, [], ◌∷◌, ◌++◌, true, ◌≡◌, refl, ap, ◌∙◌, sym, length, map,
  append_assoc, append-nil, arith, length-append, All,
}
use logger_benchmarks.Prelude.Slices.{drop, drop-append, pairs}
use logger_benchmarks.Quill.Codec.Defs.{
  Codec, ObjectRepresentation, add_sizes, encode_each, decode_each,
}

-- Of an arithmetic type: nothing goes through the cache, and the encoding is the bytes in memory.
abbrev pub Represents : {A : Type 0} → Option (ObjectRepresentation A) → List ℕ → Bytes → A → Type 0
Represents none pushed bytes v = Unit
Represents (some r) pushed bytes v =
    (pushed ≡ []) × (bytes ≡ r.object_bytes v) × (length bytes ≡ r.sizeof)

-- `Fits v` is what the caller promises of a value; `pushed v` are the lengths that go through the
-- cache, `bytes v` the encoding and `view v` what the backend gets.
pub record IsFaithful {A D : Type 0} (c : Codec A D) : Type 1 where
  pub Fits : A → Type 0
  pub pushed : A → List ℕ
  pub bytes : A → Bytes
  pub view : A → D
  pub sizes :
      (cache : List ℕ) (v : A)
      → Fits v
      → c.compute_encoded_size cache v ≡ (length (bytes v) % 2 ^ 64, cache ++ pushed v)
  pub encodes :
      (cache : List ℕ) (buffer : Bytes) (i : ℕ) (v : A) (later : List ℕ)
      → Fits v
      → length cache < 2 ^ 32
      → drop i cache ≡ pushed v ++ later
      → c.encode cache (buffer, i) v ≡ some (buffer ++ bytes v, i + length (pushed v))
  pub decodes :
      (v : A) (rest : Bytes) → Fits v → c.decode_arg (bytes v ++ rest) ≡ some (view v, rest)
  pub caches : c.keeps_cache ≡ true → (v : A) → pushed v ≡ []
  pub represents : (v : A) → Fits v → Represents c.arithmetic (pushed v) (bytes v) v

abbrev pub concat_map : {A : Type 0} → (A → List ℕ) → List A → List ℕ
concat_map f [] = []
concat_map f (x ∷ xs) = f x ++ concat_map f xs

module _ {A D : Type 0} {c : Codec A D} (l : IsFaithful c) where
  open l use {Fits, pushed, bytes, view}

  pub sizes_each :
      (cache : List ℕ) (total : ℕ) (xs : List A)
      → total < 2 ^ 64
      → All Fits xs
      → add_sizes c cache total xs
        ≡ ((total + length (concat_map bytes xs)) % 2 ^ 64, cache ++ concat_map pushed xs)
  unfolding add_sizes
  sizes_each cache total [] small fits = pairs (omega arith) (sym (append-nil cache))
  sizes_each cache total (x ∷ xs) small (fit, fits) =
      let later =
        sizes_each (cache ++ pushed x) ((total + length (bytes x) % 2 ^ 64) % 2 ^ 64) xs
          (omega arith) fits in
      rw (l.sizes cache x fit, later)
        (pairs (omega (arith, length-append (bytes x) (concat_map bytes xs)))
          (append_assoc cache (pushed x) (concat_map pushed xs)))

  pub encodes_each :
      (cache : List ℕ) (buffer : Bytes) (i : ℕ) (xs : List A) (later : List ℕ)
      → All Fits xs
      → length cache < 2 ^ 32
      → drop i cache ≡ concat_map pushed xs ++ later
      → encode_each c cache (buffer, i) xs
        ≡ some (buffer ++ concat_map bytes xs, i + length (concat_map pushed xs))
  unfolding encode_each
  encodes_each cache buffer i [] later fits small here =
      ap some (pairs (sym (append-nil buffer)) (omega arith))
  encodes_each cache buffer i (x ∷ xs) later (fit, fits) small here =
      let here' = here ∙ append_assoc (pushed x) (concat_map pushed xs) later in
      let rest =
        encodes_each cache (buffer ++ bytes x) (i + length (pushed x)) xs later fits small
          (drop-append i cache (pushed x) (concat_map pushed xs ++ later) here') in
      rw (l.encodes cache buffer i x (concat_map pushed xs ++ later) fit small here', rest)
        (ap some (
          pairs (append_assoc buffer (bytes x) (concat_map bytes xs))
            (omega (arith, length-append (pushed x) (concat_map pushed xs)))))

  pub decodes_each :
      (xs : List A) (rest : Bytes)
      → All Fits xs
      → decode_each c (length xs) (concat_map bytes xs ++ rest) ≡ some (map view xs, rest)
  unfolding decode_each
  decodes_each [] rest fits = refl
  decodes_each (x ∷ xs) rest (fit, fits) = rw (
    append_assoc (bytes x) (concat_map bytes xs) rest,
    l.decodes x (concat_map bytes xs ++ rest) fit,
    decodes_each xs rest fits,
  )
