-- ===== src/CallSite/Payload/Strings.antt =====
-- The strings of the vector that `run_log_benchmark` logs.
use logger_benchmarks.Prelude.{
  ℕ, zero, suc, ◌+◌, ◌≤◌, ◌≡◌, refl, arith, [], ◌∷◌, ◌++◌, Bytes, length, length-append, All,
  All-append,
}
use logger_benchmarks.Platform.Doubles.{Doubles}
use logger_benchmarks.Platform.Random.{Random, DrawsInRange}
use logger_benchmarks.Call.{vector_largestr}
use logger_benchmarks.CallSite.Payload.Defs.{push_chars, large_string, large_strings, payload}

abbrev pub IsUpper : ℕ → Type 0
IsUpper c = (b'A' ≤ c) × (c ≤ b'Z')

-- 50 to 60 capital letters
abbrev pub IsLarge : Bytes → Type 0
IsLarge s = (50 ≤ length s) × (length s ≤ 60) × All IsUpper s

module _ (R : Random) (draws : DrawsInRange R) where
  open R use {Engine, uniform}
  open draws use {in_range}

  length-push_chars :
      (n : ℕ) (s : Bytes) (g : Engine) → length (push_chars R n s g).0 ≡ length s + n
  unfolding push_chars
  length-push_chars zero s g = omega arith
  length-push_chars (suc n) s g =
      let (c, g') = uniform 65 90 g in
      omega (arith, length-push_chars n (s ++ c ∷ []) g', length-append s (c ∷ []))

  push_chars-IsUpper :
      (n : ℕ) (s : Bytes) (g : Engine) → All IsUpper s → All IsUpper (push_chars R n s g).0
  unfolding push_chars
  push_chars-IsUpper zero s g h = h
  push_chars-IsUpper (suc n) s g h =
      let (c, g') = uniform 65 90 g in
      push_chars-IsUpper n (s ++ c ∷ []) g'
        (All-append IsUpper s (c ∷ []) h (in_range 65 90 g (omega arith), tt))

  large_string-IsLarge : (g : Engine) → IsLarge (large_string R g).0
  unfolding large_string
  large_string-IsLarge g =
      let (n, g') = uniform 50 60 g in
      let drawn = in_range 50 60 g (omega arith) in
      (
        omega (arith, length-push_chars n [] g', drawn),
        omega (arith, length-push_chars n [] g', drawn),
        push_chars-IsUpper n [] g' tt,
      )

  large_strings_lem :
      (n : ℕ) (g : Engine)
      → (length (large_strings R n g).0 ≡ n) × All IsLarge (large_strings R n g).0
  unfolding large_strings
  large_strings_lem zero g = (refl, tt)
  large_strings_lem (suc n) g =
      let (s, g') = large_string R g in
      let (exact, large) = large_strings_lem n g' in
      (omega (arith, exact), (large_string-IsLarge g, large))

  -- If draws lie in their range, every vector that is logged holds 16 strings of 50 to 60 capital
  -- letters.
  pub payload-IsLarge :
      (F : Doubles) (i : ℕ) (g : Engine)
      → (length (payload R F vector_largestr i g).0 ≡ 16)
        × All IsLarge (payload R F vector_largestr i g).0
  unfolding payload
  payload-IsLarge F i g = large_strings_lem 16 g
