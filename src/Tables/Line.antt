-- ===== src/Tables/Line.antt =====
-- The regular expression of `parse_backend_bench` in tools/generate_tables.py, on text of ASCII
-- characters. Spaces, digits and the literals are apart, so the greedy match is the only one at a place.
use logger_benchmarks.Prelude.{
  ℕ, ◌==◌, if◌then◌else◌, Option, none, some, ◌>>=◌, [], ◌∷◌, ◌++◌, Bytes, codes,
}
use logger_benchmarks.Tables.Columns.{is_space, skip_spaces, take_digits, number_from}

-- a literal of the expression
unfoldable pub literal : Bytes → Bytes → Option Bytes
literal [] s = some s
literal (m ∷ ms) [] = none
literal (m ∷ ms) (c ∷ s) = if c == m then literal ms s else none

-- `\s+`
unfoldable pub spaces : Bytes → Option Bytes
unfolding skip_spaces is_space
spaces [] = none
spaces (c ∷ s) = if is_space c then some (skip_spaces s) else none

-- `(\d+)`
unfoldable pub some_digits : Bytes × Bytes → Option (Bytes × Bytes)
some_digits ([], rest) = none
some_digits (c ∷ cs, rest) = some (c ∷ cs, rest)

-- `(?:\.[0-9]+)?` behind the digits `ds`
unfoldable pub fraction : Bytes → Bytes → Bytes × Bytes
unfolding take_digits some_digits
fraction ds [] = (ds, [])
fraction ds (c ∷ s) =
    if c == b'.'
    then elim (some_digits (take_digits s)) [
      | none ↦ (ds, c ∷ s)
      | some found ↦ (ds ++ (b'.' ∷ found.0), found.1)
    ]
    else (ds, c ∷ s)

-- What the expression takes: the text of the throughput, and the milliseconds.
unfoldable pub match_line : Bytes → Option (Bytes × ℕ)
unfolding literal spaces fraction number_from
match_line s = do
  s ← literal (codes "throughput is") s
  s ← spaces s
  found ← some_digits (take_digits s)
  let (shown, s) = fraction found.0 found.1
  s ← spaces s
  s ← literal (codes "million msgs/sec average,") s
  s ← spaces s
  s ← literal (codes "total time elapsed:") s
  s ← spaces s
  ms ← some_digits (take_digits s)
  s ← spaces ms.1
  s ← literal (codes "ms") s
  some (shown, number_from 0 ms.0)

-- `re.search`
unfoldable pub search_line : Bytes → Option (Bytes × ℕ)
unfolding match_line
search_line [] = none
search_line (c ∷ s) = elim (match_line (c ∷ s)) [ some found ↦ some found | none ↦ search_line s ]
