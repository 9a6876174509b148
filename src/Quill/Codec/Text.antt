-- ===== src/Quill/Codec/Text.antt =====
-- The branch of `Codec<Arg>` in quill/include/quill/core/Codec.h for `std::string` and
-- `std::string_view`: the length in 32 bits, then so many bytes.
use Prim.Native.Nat.{ℕ, ◌-◌, ◌^◌, ◌<◌, ◌≤◌}
use logger_benchmarks.Prelude.{
  Bytes, Option, some, none, List, [], ◌++◌, true, false, ◌≡◌, refl, ap, ◌∙◌, sym, ◌>>=◌, length,
  append-nil, append_assoc, arith, if◌then◌else◌, ltb,
}
use logger_benchmarks.Prelude.Slices.{read, read-exactly, pairs, take, length-take}
use logger_benchmarks.Quill.Codec.Defs.{Codec, add_size}
use logger_benchmarks.Quill.Codec.Faithful.{IsFaithful}
use logger_benchmarks.Quill.Codec.Scalar.{le_bytes, le_value, le_value-le_bytes}

-- `UINT32_MAX - 1u`
abbrev pub max_val : ℕ
max_val = 2 ^ 32 - 2

unfoldable pub clamp_encoded_string_length : ℕ → ℕ
clamp_encoded_string_length len = if ltb max_val len then max_val else len

-- `return sizeof(uint32_t) + clamp_encoded_string_length(arg.length());`
abbrev pub compute_encoded_size : List ℕ → Bytes → ℕ × List ℕ
compute_encoded_size cache arg = (add_size 4 (clamp_encoded_string_length (length arg)), cache)

abbrev pub encode : List ℕ → Bytes × ℕ → Bytes → Option (Bytes × ℕ)
encode cache (buffer, i) arg =
    let len = clamp_encoded_string_length (length arg) in
    some ((buffer ++ le_bytes 4 len) ++ take len arg, i)

abbrev pub decode_arg : Bytes → Option (Bytes × Bytes)
decode_arg buffer = read 4 buffer >>= λ r. read (le_value r.0) r.1

abbrev pub text : Codec Bytes Bytes
text = record {
  arithmetic = none;
  is_bool = false;
  keeps_cache = true;
  compute_encoded_size = compute_encoded_size;
  encode = encode;
  decode_arg = decode_arg;
}

pub clamp-le :
    (n : ℕ) → (clamp_encoded_string_length n ≤ n) × (clamp_encoded_string_length n ≤ max_val)
unfolding clamp_encoded_string_length
clamp-le n = (ground arith, ground arith)

-- What is kept of a string: all of it, unless it is longer than the largest length.
abbrev pub clamped : Bytes → Bytes
clamped s = take (clamp_encoded_string_length (length s)) s

pub length-clamped : (s : Bytes) → length (clamped s) ≡ clamp_encoded_string_length (length s)
length-clamped s = length-take (clamp_encoded_string_length (length s)) s (clamp-le (length s)).0

abbrev pub text_bytes : Bytes → Bytes
text_bytes s = le_bytes 4 (clamp_encoded_string_length (length s)) ++ clamped s

pub decode_arg-text_bytes :
    (s rest : Bytes) → decode_arg (text_bytes s ++ rest) ≡ some (clamped s, rest)
decode_arg-text_bytes s rest =
    let n = clamp_encoded_string_length (length s) in
    let small : n < 256 ^ 4 = omega (arith, clamp-le (length s)) in
    ap (λ k. read k (clamped s ++ rest)) (le_value-le_bytes 4 n small)
    ∙ read-exactly n (clamped s) rest (length-clamped s)

unfoldable pub text-IsFaithful : IsFaithful text
text-IsFaithful = record {
  Fits = λ _. Unit;
  pushed = λ _. [];
  bytes = text_bytes;
  view = clamped;
  sizes = λ cache s _. pairs (omega (arith, length-clamped s)) (sym (append-nil cache));
  encodes = λ cache buffer i s later _ _ _. ap some (
      pairs (append_assoc buffer (le_bytes 4 (clamp_encoded_string_length (length s))) (clamped s))
        (omega arith));
  decodes = λ s rest _. decode_arg-text_bytes s rest;
  caches = λ _ _. refl;
  represents = λ _ _. tt;
}
