-- ===== src/Quill/Codec/Scalar.antt =====
-- The branch of `Codec<Arg>` in quill/include/quill/core/Codec.h for arithmetic types, enums and
-- pointers: the bytes of the value, lowest first.
use Prim.Native.Nat.{ℕ, zero, suc, ◌+◌, ◌*◌, ◌/◌, ◌%◌, ◌^◌, ◌<◌}
use logger_benchmarks.Prelude.{
  Bytes, Option, some, none, List, [], ◌∷◌, ◌++◌, Bool, true, false, ◌≡◌, refl, ap, sym, ◌>>=◌,
  length, append-nil, arith,
}
use logger_benchmarks.Prelude.Slices.{read, read-exactly, pairs}
use logger_benchmarks.Quill.Codec.Defs.{Codec}
use logger_benchmarks.Quill.Codec.Faithful.{IsFaithful, Represents}

-- the bytes of a `w`-byte value in memory
abbrev pub le_bytes : ℕ → ℕ → Bytes
le_bytes zero n = []
le_bytes (suc w) n = n % 256 ∷ le_bytes w (n / 256)

abbrev pub le_value : Bytes → ℕ
le_value [] = 0
le_value (b ∷ bs) = b + 256 * le_value bs

-- the kinds of types that share the branch
pub data ScalarKind : Type 0 where
  arithmetic_kind : ScalarKind
  bool_kind : ScalarKind
  enum_kind : ScalarKind
  pointer_kind : ScalarKind

abbrev pub is_arithmetic : ScalarKind → Bool
is_arithmetic arithmetic_kind = true
is_arithmetic bool_kind = true
is_arithmetic enum_kind = false
is_arithmetic pointer_kind = false

abbrev pub is_bool_kind : ScalarKind → Bool
is_bool_kind bool_kind = true
is_bool_kind arithmetic_kind = false
is_bool_kind enum_kind = false
is_bool_kind pointer_kind = false

abbrev pub caches_nothing : ScalarKind → Bool
caches_nothing enum_kind = false
caches_nothing arithmetic_kind = true
caches_nothing bool_kind = true
caches_nothing pointer_kind = true

-- `return sizeof(Arg);`
abbrev pub compute_encoded_size : ℕ → List ℕ → ℕ → ℕ × List ℕ
compute_encoded_size w cache arg = (w % 2 ^ 64, cache)

-- `std::memcpy(buffer, &arg, sizeof(Arg)); buffer += sizeof(Arg);`
abbrev pub encode : ℕ → List ℕ → Bytes × ℕ → ℕ → Option (Bytes × ℕ)
encode w cache (buffer, i) arg = some (buffer ++ le_bytes w arg, i)

-- `std::memcpy(&arg, buffer, sizeof(Arg)); buffer += sizeof(Arg);`
abbrev pub decode_arg : ℕ → Bytes → Option (ℕ × Bytes)
decode_arg w buffer = read w buffer >>= λ r. some (le_value r.0, r.1)

-- A value is its bit pattern, a number below 256 ^ w.
abbrev pub scalar : ScalarKind → ℕ → Codec ℕ ℕ
scalar kind w = record {
  arithmetic = elim (is_arithmetic kind) [
    | true ↦ some (record { sizeof = w; object_bytes = le_bytes w })
    | false ↦ none
  ];
  is_bool = is_bool_kind kind;
  keeps_cache = caches_nothing kind;
  compute_encoded_size = compute_encoded_size w;
  encode = encode w;
  decode_arg = decode_arg w;
}

-- `Codec<size_t>`
abbrev pub size_codec : Codec ℕ ℕ
size_codec = scalar arithmetic_kind 8

pub length-le_bytes : (w n : ℕ) → length (le_bytes w n) ≡ w
length-le_bytes zero n = refl
length-le_bytes (suc w) n = omega (arith, length-le_bytes w (n / 256))

pow_step : (w : ℕ) → 256 ^ suc w ≡ 256 * 256 ^ w
pow_step w = omega arith

pub le_value-le_bytes : (w n : ℕ) → n < 256 ^ w → le_value (le_bytes w n) ≡ n
le_value-le_bytes zero n h = omega arith
le_value-le_bytes (suc w) n h =
    omega (arith, le_value-le_bytes w (n / 256) (omega (arith, pow_step w)))

pub decode_arg-le_bytes :
    (w n : ℕ) (rest : Bytes) → n < 256 ^ w → decode_arg w (le_bytes w n ++ rest) ≡ some (n, rest)
decode_arg-le_bytes w n rest h =
    rw (read-exactly w (le_bytes w n) rest (length-le_bytes w n), le_value-le_bytes w n h)

pub represented :
    (kind : ScalarKind) (w n : ℕ) → Represents (scalar kind w).arithmetic [] (le_bytes w n) n
represented arithmetic_kind w n = (refl, refl, length-le_bytes w n)
represented bool_kind w n = (refl, refl, length-le_bytes w n)
represented enum_kind w n = tt
represented pointer_kind w n = tt

unfoldable pub scalar-IsFaithful : (kind : ScalarKind) (w : ℕ) → IsFaithful (scalar kind w)
scalar-IsFaithful kind w = record {
  Fits = λ n. n < 256 ^ w;
  pushed = λ _. [];
  bytes = le_bytes w;
  view = λ n. n;
  sizes = λ cache v fit. pairs (omega (arith, length-le_bytes w v)) (sym (append-nil cache));
  encodes = λ cache buffer i v later fit small here. ap some (pairs refl (omega arith));
  decodes = decode_arg-le_bytes w;
  caches = λ _ _. refl;
  represents = λ v _. represented kind w v;
}
