-- ===== src/Quill/Codec/CString.antt =====
-- The branch of `Codec<Arg>` in quill/include/quill/core/Codec.h for `char*` and `char const*`.
-- A pointer is `none` when null; otherwise it is the memory from there on, which is to hold a NUL.
use Prim.Native.Nat.{ℕ, zero, suc, ◌+◌, ◌-◌, ◌%◌, ◌^◌, ◌<◌, ◌≤◌}
use mathlib.Core.Bool.{false≢true}
use logger_benchmarks.Prelude.{
  Bytes, Option, some, none, List, [], ◌∷◌, ◌++◌, false, ◌≡◌, refl, ap, ◌∙◌, ◌>>=◌, length,
  append_assoc, arith, length-append,
}
use logger_benchmarks.Prelude.Slices.{
  read, read-exactly, pairs, take, length-take, drop, get_elem?-drop,
}
use logger_benchmarks.Quill.Codec.Defs.{Codec, add_size, next_cached}
use logger_benchmarks.Quill.Codec.Faithful.{IsFaithful}
use logger_benchmarks.Quill.Codec.Text.{clamp_encoded_string_length, clamp-le}

-- the bytes in front of the first NUL
abbrev pub c_str : Bytes → Bytes
c_str [] = []
c_str (zero ∷ memory) = []
c_str (suc b ∷ memory) = suc b ∷ c_str memory

-- `safe_strnlen(char const*)`, with `strlen` behind the test for null
abbrev pub safe_strnlen : Option Bytes → ℕ
safe_strnlen none = 0
safe_strnlen (some memory) = length (c_str memory)

-- the length that the cache gets, the NUL included
abbrev pub cached_length : Option Bytes → ℕ
cached_length arg = clamp_encoded_string_length (add_size (safe_strnlen arg) 1)

-- `return conditional_arg_size_cache.push_back(len);`
abbrev pub compute_encoded_size : List ℕ → Option Bytes → ℕ × List ℕ
compute_encoded_size cache arg = (cached_length arg, cache ++ cached_length arg ∷ [])

-- `std::memcpy(buf_ptr, arg, len - 1)`; the bytes of a null pointer's string are not written, and
-- stay what the buffer held: `len - 1` is 0 there.
abbrev pub copied : ℕ → Option Bytes → Bytes
copied n none = []
copied n (some memory) = take n memory

abbrev pub encode : List ℕ → Bytes × ℕ → Option Bytes → Option (Bytes × ℕ)
encode cache (buffer, i) arg =
    next_cached cache i >>= λ n. some ((buffer ++ copied (n.0 - 1) arg) ++ 0 ∷ [], n.1)

-- `auto arg = reinterpret_cast<char const*>(buffer); buffer += safe_strnlen(arg) + 1u;`
abbrev pub decode_arg : Bytes → Option (Bytes × Bytes)
decode_arg buffer = read (length (c_str buffer) + 1) buffer >>= λ r. some (c_str buffer, r.1)

abbrev pub c_string : Codec (Option Bytes) Bytes
c_string = record {
  arithmetic = none;
  is_bool = false;
  keeps_cache = false;
  compute_encoded_size = compute_encoded_size;
  encode = encode;
  decode_arg = decode_arg;
}

-- What is kept of a string: all in front of the NUL, unless that is longer than the largest length.
abbrev pub kept : Option Bytes → Bytes
kept none = []
kept (some memory) = take (cached_length (some memory) - 1) (c_str memory)

take-c_str : (n : ℕ) (m : Bytes) → n ≤ length (c_str m) → take n m ≡ take n (c_str m)
take-c_str zero m h = refl
take-c_str (suc n) [] h = refl
take-c_str (suc n) (zero ∷ m) h = absurd (omega arith)
take-c_str (suc n) (suc b ∷ m) h = ap (λ l. suc b ∷ l) (take-c_str n m (omega arith))

-- A part of a string that ends in NUL reads back as that part.
pub c_str-take : (n : ℕ) (m rest : Bytes) → c_str (take n (c_str m) ++ 0 ∷ rest) ≡ take n (c_str m)
c_str-take zero m rest = refl
c_str-take (suc n) [] rest = refl
c_str-take (suc n) (zero ∷ m) rest = refl
c_str-take (suc n) (suc b ∷ m) rest = ap (λ l. suc b ∷ l) (c_str-take n m rest)

-- `len - 1` does not wrap, and the NUL is found in time.
cached_length-bounds :
    (arg : Option Bytes)
    → safe_strnlen arg < 2 ^ 64 - 1
    → (1 ≤ cached_length arg) × (cached_length arg ≤ safe_strnlen arg + 1)
unfolding clamp_encoded_string_length
cached_length-bounds arg h = (ground arith, ground arith)

pub copied-kept :
    (arg : Option Bytes)
    → safe_strnlen arg < 2 ^ 64 - 1
    → copied (cached_length arg - 1) arg ≡ kept arg
copied-kept none h = refl
copied-kept (some m) h =
    take-c_str (cached_length (some m) - 1) m (omega (arith, cached_length-bounds (some m) h))

pub length-kept :
    (arg : Option Bytes) → safe_strnlen arg < 2 ^ 64 - 1 → length (kept arg) + 1 ≡ cached_length arg
length-kept none h = omega (arith, cached_length-bounds none h)
length-kept (some m) h =
    let bounds = cached_length-bounds (some m) h in
    omega
      (arith, bounds, length-take (cached_length (some m) - 1) (c_str m) (omega (arith, bounds)))

pub c_str-kept : (arg : Option Bytes) (rest : Bytes) → c_str (kept arg ++ 0 ∷ rest) ≡ kept arg
c_str-kept none rest = refl
c_str-kept (some m) rest = c_str-take (cached_length (some m) - 1) m rest

abbrev pub c_string_bytes : Option Bytes → Bytes
c_string_bytes arg = kept arg ++ 0 ∷ []

-- Bytes in front of a NUL, the first one, are read back, and the NUL is consumed.
pub decode_arg-nul :
    (s rest : Bytes)
    → c_str (s ++ 0 ∷ rest) ≡ s
    → decode_arg ((s ++ 0 ∷ []) ++ rest) ≡ some (s, rest)
decode_arg-nul s rest h =
    let first : c_str ((s ++ 0 ∷ []) ++ rest) ≡ s = ap c_str (append_assoc s (0 ∷ []) rest) ∙ h in
    rw (
      first,
      read-exactly (length s + 1) (s ++ 0 ∷ []) rest (omega (arith, length-append s (0 ∷ []))),
    )

pub size :
    (arg : Option Bytes)
    → safe_strnlen arg < 2 ^ 64 - 1
    → cached_length arg ≡ length (c_string_bytes arg) % 2 ^ 64
size arg h = omega (
  arith,
  length-append (kept arg) (0 ∷ []),
  length-kept arg h,
  clamp-le (add_size (safe_strnlen arg) 1),
)

pub c_string_encodes :
    (cache : List ℕ) (buffer : Bytes) (i : ℕ) (arg : Option Bytes) (later : List ℕ)
    → safe_strnlen arg < 2 ^ 64 - 1
    → length cache < 2 ^ 32
    → drop i cache ≡ cached_length arg ∷ later
    → encode cache (buffer, i) arg ≡ some (buffer ++ c_string_bytes arg, i + 1)
c_string_encodes cache buffer i arg later fit small here =
    let (found, lt) = get_elem?-drop i cache (cached_length arg) later here in
    rw (found, copied-kept arg fit)
      (ap some (pairs (append_assoc buffer (kept arg) (0 ∷ [])) (omega arith)))

unfoldable pub c_string-IsFaithful : IsFaithful c_string
c_string-IsFaithful = record {
  Fits = λ arg. safe_strnlen arg < 2 ^ 64 - 1;
  pushed = λ arg. cached_length arg ∷ [];
  bytes = c_string_bytes;
  view = kept;
  sizes = λ cache arg fit. pairs (size arg fit) refl;
  encodes = λ cache buffer i arg later fit small here.
      c_string_encodes cache buffer i arg later fit small here;
  decodes = λ arg rest _. decode_arg-nul (kept arg) rest (c_str-kept arg rest);
  caches = λ e _. absurd (false≢true e);
  represents = λ _ _. tt;
}
