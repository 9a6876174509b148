-- ===== src/Quill/Codec/Product.antt =====
-- The codecs of quill/include/quill/std/Optional.h and Pair.h.
use Prim.Native.Nat.{ℕ, ◌+◌, ◌%◌, ◌^◌, ◌<◌}
use mathlib.Core.Bool.{false≢true}
use logger_benchmarks.Prelude.{
  Bytes, Option, some, none, List, [], ◌∷◌, ◌++◌, false, ◌≡◌, refl, ap, ◌∙◌, sym, ◌>>=◌, length,
  append-nil, append_assoc, arith, length-append, if◌then◌else◌, ◌==◌,
}
use logger_benchmarks.Prelude.Slices.{pairs, drop, drop-append}
use logger_benchmarks.Quill.Codec.Defs.{Codec, add_size}
use logger_benchmarks.Quill.Codec.Faithful.{IsFaithful}
use logger_benchmarks.Quill.Codec.Scalar.{scalar, bool_kind}

-- `Codec<bool>`
abbrev pub bool_codec : Codec ℕ ℕ
bool_codec = scalar bool_kind 1

module _ {A D : Type 0} (c : Codec A D) where
  unfoldable pub optional_size : List ℕ → Option A → ℕ × List ℕ
  optional_size cache none = (1, cache)
  optional_size cache (some value) =
      let (size, cache') = c.compute_encoded_size cache value in (add_size 1 size, cache')

  unfoldable pub encode_optional : List ℕ → Bytes × ℕ → Option A → Option (Bytes × ℕ)
  encode_optional cache w none = bool_codec.encode cache w 0
  encode_optional cache w (some value) =
      bool_codec.encode cache w 1 >>= λ w'. c.encode cache w' value

  unfoldable pub decode_optional : Bytes → Option (Option D × Bytes)
  decode_optional buffer = bool_codec.decode_arg buffer >>= λ has.
      if has.0 == 0 then some (none, has.1) else c.decode_arg has.1 >>= λ d. some (some d.0, d.1)

  -- `Codec<std::optional<T>>`
  abbrev pub optional : Codec (Option A) (Option D)
  optional = record {
    arithmetic = none;
    is_bool = false;
    keeps_cache = false;
    compute_encoded_size = optional_size;
    encode = encode_optional;
    decode_arg = decode_optional;
  }

module _ {A D : Type 0} {c : Codec A D} (l : IsFaithful c) where
  open l use {Fits, pushed, bytes, view, sizes, encodes, decodes}

  abbrev FitsOptional : Option A → Type 0
  FitsOptional none = Unit
  FitsOptional (some v) = Fits v

  abbrev pushed_optional : Option A → List ℕ
  pushed_optional none = []
  pushed_optional (some v) = pushed v

  abbrev optional_bytes : Option A → Bytes
  optional_bytes none = 0 ∷ []
  optional_bytes (some v) = 1 ∷ bytes v

  abbrev view_optional : Option A → Option D
  view_optional none = none
  view_optional (some v) = some (view v)

  pub sizes_optional :
      (cache : List ℕ) (arg : Option A)
      → FitsOptional arg
      → optional_size c cache arg
        ≡ (length (optional_bytes arg) % 2 ^ 64, cache ++ pushed_optional arg)
  unfolding optional_size
  sizes_optional cache none fit = pairs refl (sym (append-nil cache))
  sizes_optional cache (some v) fit = rw (sizes cache v fit) (pairs (omega arith) refl)

  pub encodes_optional :
      (cache : List ℕ) (buffer : Bytes) (i : ℕ) (arg : Option A) (later : List ℕ)
      → FitsOptional arg
      → length cache < 2 ^ 32
      → drop i cache ≡ pushed_optional arg ++ later
      → encode_optional c cache (buffer, i) arg
        ≡ some (buffer ++ optional_bytes arg, i + length (pushed_optional arg))
  unfolding encode_optional
  encodes_optional cache buffer i none later fit small here = ap some (pairs refl (omega arith))
  encodes_optional cache buffer i (some v) later fit small here =
      encodes cache (buffer ++ 1 ∷ []) i v later fit small here
      ∙ ap some (pairs (append_assoc buffer (1 ∷ []) (bytes v)) refl)

  pub decodes_optional :
      (arg : Option A) (rest : Bytes)
      → FitsOptional arg
      → decode_optional c (optional_bytes arg ++ rest) ≡ some (view_optional arg, rest)
  unfolding decode_optional
  decodes_optional none rest fit = refl
  decodes_optional (some v) rest fit = rw (decodes v rest fit)

  unfoldable pub optional-IsFaithful : IsFaithful (optional c)
  optional-IsFaithful = record {
    Fits = FitsOptional;
    pushed = pushed_optional;
    bytes = optional_bytes;
    view = view_optional;
    sizes = sizes_optional;
    encodes = encodes_optional;
    decodes = decodes_optional;
    caches = λ e _. absurd (false≢true e);
    represents = λ _ _. tt;
  }

module _ {A D B E : Type 0} (c : Codec A D) (d : Codec B E) where
  unfoldable pub pair_size : List ℕ → A × B → ℕ × List ℕ
  pair_size cache (first, second) =
      let (size, cache') = c.compute_encoded_size cache first in
      let (more, cache'') = d.compute_encoded_size cache' second in (add_size size more, cache'')

  unfoldable pub encode_pair : List ℕ → Bytes × ℕ → A × B → Option (Bytes × ℕ)
  encode_pair cache w (first, second) = c.encode cache w first >>= λ w'. d.encode cache w' second

  unfoldable pub decode_pair : Bytes → Option ((D × E) × Bytes)
  decode_pair buffer = c.decode_arg buffer >>= λ r. d.decode_arg r.1 >>= λ s. some ((r.0, s.0), s.1)

  -- `Codec<std::pair<T1, T2>>`
  abbrev pub pair : Codec (A × B) (D × E)
  pair = record {
    arithmetic = none;
    is_bool = false;
    keeps_cache = false;
    compute_encoded_size = pair_size;
    encode = encode_pair;
    decode_arg = decode_pair;
  }

module _ {A D B E : Type 0} {c : Codec A D} {d : Codec B E} (l : IsFaithful c)
    (m : IsFaithful d) where
  unfoldable pub pair-IsFaithful : IsFaithful (pair c d)
  unfolding pair_size encode_pair decode_pair
  pair-IsFaithful = record {
    Fits = λ v. l.Fits v.0 × m.Fits v.1;
    pushed = λ v. l.pushed v.0 ++ m.pushed v.1;
    bytes = λ v. l.bytes v.0 ++ m.bytes v.1;
    view = λ v. (l.view v.0, m.view v.1);
    sizes = λ cache (a, b) (fit, fit').
        rw (l.sizes cache a fit, m.sizes (cache ++ l.pushed a) b fit')
          (pairs (omega (arith, length-append (l.bytes a) (m.bytes b)))
            (append_assoc cache (l.pushed a) (m.pushed b)));
    encodes = λ cache buffer i (a, b) later (fit, fit') small here.
        let here' = here ∙ append_assoc (l.pushed a) (m.pushed b) later in
        let next = drop-append i cache (l.pushed a) (m.pushed b ++ later) here' in
        rw
          (
            l.encodes cache buffer i a (m.pushed b ++ later) fit small here',
            m.encodes cache (buffer ++ l.bytes a) (i + length (l.pushed a)) b later fit' small next,
          )
          (ap some (
            pairs (append_assoc buffer (l.bytes a) (m.bytes b))
              (omega (arith, length-append (l.pushed a) (m.pushed b)))));
    decodes = λ (a, b) rest (fit, fit'). rw (
      append_assoc (l.bytes a) (m.bytes b) rest,
      l.decodes a (m.bytes b ++ rest) fit,
      m.decodes b rest fit',
    );
    caches = λ e _. absurd (false≢true e);
    represents = λ _ _. tt;
  }
