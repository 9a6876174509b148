-- ===== src/Tables/Columns.antt =====
-- The regular expression of `parse_latency_bench` in tools/generate_tables.py, on text of ASCII
-- characters: six columns of digits, each followed by a bar. Spaces, digits and bars are apart, so the
-- greedy match is the only one.
use logger_benchmarks.Prelude.{
  ℕ, zero, suc, ◌+◌, ◌-◌, ◌*◌, Bool, true, false, ◌&&◌, ◌||◌, ◌==◌, leb, Option, none, some, ◌>>=◌,
  if◌then◌else◌, List, [], ◌∷◌, Bytes,
}

-- `\s`: a blank, one of the control characters from tabulator to carriage return, or one of the
-- separators from 0x1c to 0x1f
unfoldable pub is_space : ℕ → Bool
is_space c = c == 32 || (leb 9 c && leb c 13) || (leb 28 c && leb c 31)

-- `\d`
unfoldable pub is_digit : ℕ → Bool
is_digit c = leb b'0' c && leb c b'9'

unfoldable pub skip_spaces : Bytes → Bytes
unfolding is_space
skip_spaces [] = []
skip_spaces (c ∷ s) = elim (is_space c) [ true ↦ skip_spaces s | false ↦ c ∷ s ]

unfoldable pub take_digits : Bytes → Bytes × Bytes
unfolding is_digit
take_digits [] = ([], [])
take_digits (c ∷ s) = elim (is_digit c) [
  | true ↦ let (ds, rest) = take_digits s in (c ∷ ds, rest)
  | false ↦ ([], c ∷ s)
]

-- `int(…)`, of digits
unfoldable pub number_from : ℕ → Bytes → ℕ
number_from n [] = n
number_from n (c ∷ s) = number_from (n * 10 + (c - b'0')) s

-- what stands behind a bar
unfoldable pub behind_bar : Bytes → Option Bytes
behind_bar [] = none
behind_bar (c ∷ s) = if c == b'|' then some s else none

-- `\s*\|` behind the digits of a column, and the number that they are
unfoldable pub column_end : Bytes × Bytes → Option (ℕ × Bytes)
unfolding skip_spaces number_from behind_bar
column_end ([], rest) = none
column_end (c ∷ cs, rest) =
    behind_bar (skip_spaces rest) >>= λ after. some (number_from 0 (c ∷ cs), after)

-- `\s*(\d+)\s*\|`
unfoldable pub column : Bytes → Option (ℕ × Bytes)
unfolding take_digits column_end
column s = column_end (take_digits (skip_spaces s))

unfoldable pub columns : ℕ → Bytes → Option (List ℕ)
unfolding column
columns zero s = some []
columns (suc n) s = column s >>= λ found. columns n found.1 >>= λ xs. some (found.0 ∷ xs)

-- `re.search`: the first place where a bar and six columns stand
unfoldable pub search_row : Bytes → Option (List ℕ)
unfolding columns
search_row [] = none
search_row (c ∷ s) = elim (behind_bar (c ∷ s) >>= columns 6) [
  | some xs ↦ some xs
  | none ↦ search_row s
]
