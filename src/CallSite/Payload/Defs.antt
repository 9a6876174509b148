-- ===== src/CallSite/Payload/Defs.antt =====
-- The values that `run_log_benchmark` logs.
use logger_benchmarks.Prelude.{ℕ, zero, suc, ◌+◌, ◌%◌, ◌^◌, List, [], ◌∷◌, ◌++◌, Bytes, codes}
use logger_benchmarks.Prelude.Decimal.{to_string}
use logger_benchmarks.Platform.Doubles.{Doubles}
use logger_benchmarks.Platform.Random.{Random}
use logger_benchmarks.Call.{BenchType, int_int_double, int_int_largestr, vector_largestr, PayloadOf}

-- The engine that `vector_largestr` draws from, `0xc001'c0deu + current_thread_num`.
unfoldable pub payload_seed : ℕ → ℕ
payload_seed current_thread_num = (0xc001_c0de + current_thread_num) % 2 ^ 64 % 2 ^ 32

module _ (R : Random) where
  open R use {Engine, uniform}

  -- `for (char_idx = 0; char_idx < length; ++char_idx) str.push_back(char_dist(gen))`
  unfoldable pub push_chars : ℕ → Bytes → Engine → Bytes × Engine
  push_chars zero s g = (s, g)
  push_chars (suc n) s g = let (c, g') = uniform 65 90 g in push_chars n (s ++ c ∷ []) g'

  -- one string of the vector: 50 to 60 characters
  unfoldable pub large_string : Engine → Bytes × Engine
  unfolding push_chars
  large_string g = let (n, g') = uniform 50 60 g in push_chars n [] g'

  -- `for (std::string& str : v)`, over `n` strings that are left
  unfoldable pub large_strings : ℕ → Engine → List Bytes × Engine
  unfolding large_string
  large_strings zero g = ([], g)
  large_strings (suc n) g =
      let (s, g') = large_string g in let (rest, g'') = large_strings n g' in (s ∷ rest, g'')

  module _ (F : Doubles) where
    open F use {Double, of_nat, decimal, add, mul}

    -- `v` of iteration `i`, and the engine for the next iteration
    unfoldable pub payload : (t : BenchType) → ℕ → Engine → PayloadOf Double t × Engine
    unfolding large_strings
    payload int_int_double i g = (add (of_nat i) (mul (decimal 1 1) (of_nat i)), g)
    payload int_int_largestr i g =
        (codes "Lorem ipsum dolor sit amet, consectetur " ++ to_string i, g)
    payload vector_largestr i g = large_strings 16 g
