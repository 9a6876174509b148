-- ===== src/Quill/Codec/CharArray.antt =====
-- The branch of `Codec<Arg>` in quill/include/quill/core/Codec.h for `char[N]`. An array is its
-- `N` bytes; a NUL in it is not required.
use Prim.Native.Nat.{ℕ, zero, suc, ◌+◌, ◌^◌, ◌<◌, ◌≤◌}
use mathlib.Core.Bool.{false≢true}
use logger_benchmarks.Prelude.{
  Bytes, Option, some, none, List, [], ◌∷◌, ◌++◌, false, ◌≡◌, refl, ap, ◌∙◌, ◌>>=◌, length, arith,
  length-append, if◌then◌else◌, ltb, inl, inr, Bool-cases,
}
use logger_benchmarks.Prelude.Slices.{pairs, take, drop, get_elem?-drop}
use logger_benchmarks.Quill.Codec.Defs.{Codec, add_size, next_cached}
use logger_benchmarks.Quill.Codec.Faithful.{IsFaithful}
use logger_benchmarks.Quill.Codec.Text.{clamp_encoded_string_length, max_val}
use logger_benchmarks.Quill.Codec.CString.{c_str, decode_arg, decode_arg-nul}

-- `safe_strnlen(arg, N)`: where `memchr` finds the NUL, or `N`
abbrev pub safe_strnlen : Bytes → ℕ
safe_strnlen arg = length (c_str arg)

abbrev pub cached_length : Bytes → ℕ
cached_length arg = clamp_encoded_string_length (add_size (safe_strnlen arg) 1)

abbrev pub compute_encoded_size : List ℕ → Bytes → ℕ × List ℕ
compute_encoded_size cache arg = (cached_length arg, cache ++ cached_length arg ∷ [])

-- the two copies of `encode`: `len > N` is an array without NUL, which gets one
abbrev pub copied : ℕ → Bytes → Bytes
copied len arg = if ltb (length arg) len then take (length arg) arg ++ 0 ∷ [] else take len arg

abbrev pub encode : List ℕ → Bytes × ℕ → Bytes → Option (Bytes × ℕ)
encode cache (buffer, i) arg = next_cached cache i >>= λ n. some (buffer ++ copied n.0 arg, n.1)

-- It is read back as a C string.
abbrev pub char_array : Codec Bytes Bytes
char_array = record {
  arithmetic = none;
  is_bool = false;
  keeps_cache = false;
  compute_encoded_size = compute_encoded_size;
  encode = encode;
  decode_arg = decode_arg;
}

take-nul :
    (m : Bytes) → length (c_str m) < length m → take (length (c_str m) + 1) m ≡ c_str m ++ 0 ∷ []
take-nul [] h = absurd (omega arith)
take-nul (zero ∷ m) h = refl
take-nul (suc b ∷ m) h =
    let one_more : suc (length (c_str m)) + 1 ≡ suc (length (c_str m) + 1) = omega arith in
    ap (λ k. take k (suc b ∷ m)) one_more ∙ ap (λ l. suc b ∷ l) (take-nul m (omega arith))

take-without_nul : (m : Bytes) → length m ≤ length (c_str m) → take (length m) m ≡ c_str m
take-without_nul [] h = refl
take-without_nul (zero ∷ m) h = absurd (omega arith)
take-without_nul (suc b ∷ m) h = ap (λ l. suc b ∷ l) (take-without_nul m (omega arith))

pub c_str-c_str : (m rest : Bytes) → c_str (c_str m ++ 0 ∷ rest) ≡ c_str m
c_str-c_str [] rest = refl
c_str-c_str (zero ∷ m) rest = refl
c_str-c_str (suc b ∷ m) rest = ap (λ l. suc b ∷ l) (c_str-c_str m rest)

pub length-c_str : (m : Bytes) → length (c_str m) ≤ length m
length-c_str [] = omega arith
length-c_str (zero ∷ m) = omega arith
length-c_str (suc b ∷ m) = omega (arith, length-c_str m)

-- Nothing is cut off an array of fewer than `max_val` bytes.
pub cached_length_lem :
    (arg : Bytes) → length arg < max_val → cached_length arg ≡ length (c_str arg) + 1
unfolding clamp_encoded_string_length
cached_length_lem arg h = let le = length-c_str arg in ground arith

copied-c_str : (arg : Bytes) → copied (length (c_str arg) + 1) arg ≡ c_str arg ++ 0 ∷ []
copied-c_str arg = elim (Bool-cases (ltb (length arg) (length (c_str arg) + 1))) [
  | inl longer ↦ rw longer (ap (λ l. l ++ 0 ∷ []) (take-without_nul arg (ground arith)))
  | inr within ↦ rw within (take-nul arg (ground arith))
]

pub char_array_encodes :
    (cache : List ℕ) (buffer : Bytes) (i : ℕ) (arg : Bytes) (later : List ℕ)
    → length arg < max_val
    → length cache < 2 ^ 32
    → drop i cache ≡ cached_length arg ∷ later
    → encode cache (buffer, i) arg ≡ some (buffer ++ (c_str arg ++ 0 ∷ []), i + 1)
char_array_encodes cache buffer i arg later fit small here =
    let (found, lt) = get_elem?-drop i cache (cached_length arg) later here in
    rw (found, cached_length_lem arg fit, copied-c_str arg) (ap some (pairs refl (omega arith)))

unfoldable pub char_array-IsFaithful : IsFaithful char_array
char_array-IsFaithful = record {
  Fits = λ arg. length arg < max_val;
  pushed = λ arg. cached_length arg ∷ [];
  bytes = λ arg. c_str arg ++ 0 ∷ [];
  view = c_str;
  sizes = λ cache arg fit.
      pairs
        (omega
          (arith, cached_length_lem arg fit, length-c_str arg, length-append (c_str arg) (0 ∷ [])))
        refl;
  encodes = λ cache buffer i arg later fit small here.
      char_array_encodes cache buffer i arg later fit small here;
  decodes = λ arg rest _. decode_arg-nul (c_str arg) rest (c_str-c_str arg rest);
  caches = λ e _. absurd (false≢true e);
  represents = λ _ _. tt;
}
