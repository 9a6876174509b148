-- ===== src/Tables/LineBack.antt =====
-- What the tables read from the line of a throughput program.
use logger_benchmarks.Prelude.{
  ℕ, ◌/◌, ◌<◌, ◌≡◌, refl, ap, ◌∙◌, sym, arith, false, some, [], ◌∷◌, ◌++◌, Bytes, codes, length,
  All, append_assoc,
}
use logger_benchmarks.Prelude.Decimal.{to_string}
use logger_benchmarks.Platform.Doubles.{Doubles}
use logger_benchmarks.Throughput.Program.{throughput, megabytes, formatted_line}
use logger_benchmarks.Tables.Columns.{is_space, is_digit, skip_spaces, take_digits, number_from}
use logger_benchmarks.Tables.Numbers.{
  IsDigit, to_string-Reads, take_digits-append, digit_no_space, blank_no_digit,
}
use logger_benchmarks.Tables.Line.{literal, spaces, some_digits, fraction, match_line, search_line}

match_line_parts :
    (s s1 s2 s3 s4 s5 s6 s7 s8 s9 s10 : Bytes) (found ms : Bytes × Bytes) (shown : Bytes)
    → literal (codes "throughput is") s ≡ some s1
    → spaces s1 ≡ some s2
    → some_digits (take_digits s2) ≡ some found
    → fraction found.0 found.1 ≡ (shown, s3)
    → spaces s3 ≡ some s4
    → literal (codes "million msgs/sec average,") s4 ≡ some s5
    → spaces s5 ≡ some s6
    → literal (codes "total time elapsed:") s6 ≡ some s7
    → spaces s7 ≡ some s8
    → some_digits (take_digits s8) ≡ some ms
    → spaces ms.1 ≡ some s9
    → literal (codes "ms") s9 ≡ some s10
    → match_line s ≡ some (shown, number_from 0 ms.0)
unfolding match_line
match_line_parts s s1 s2 s3 s4 s5 s6 s7 s8 s9 s10 found ms shown e1 e2 e3 e4 e5 e6 e7 e8 e9 e10 e11
      e12 =
    rw (e1, match_line, e2, e3, e4, e5, e6, e7, e8, e9, e10, e11, e12)

spaces_to : (c : ℕ) (s : Bytes) → is_space c ≡ false → spaces (b' ' ∷ c ∷ s) ≡ some (c ∷ s)
unfolding spaces skip_spaces
spaces_to c s h = rw (h, skip_spaces)

-- digits, a point, and digits
pub record IsDecimal (t : Bytes) : Type 0 where
  pub whole : Bytes
  pub behind : Bytes
  pub split : t ≡ whole ++ b'.' ∷ behind
  pub whole_digits : All IsDigit whole
  pub behind_digits : All IsDigit behind
  pub some_whole : 0 < length whole
  pub some_behind : 0 < length behind

some_digits_of :
    (ds : Bytes) (c : ℕ) (rest : Bytes)
    → All IsDigit ds
    → 0 < length ds
    → is_digit c ≡ false
    → some_digits (take_digits (ds ++ c ∷ rest)) ≡ some (ds, c ∷ rest)
unfolding some_digits
some_digits_of [] c rest h some_of h' = absurd (omega arith)
some_digits_of (d ∷ ds) c rest h some_of h' =
    ap some_digits (take_digits-append (d ∷ ds) c rest h h')

fraction_of :
    (whole behind rest : Bytes)
    → All IsDigit behind
    → 0 < length behind
    → fraction whole (b'.' ∷ (behind ++ b' ' ∷ rest)) ≡ (whole ++ b'.' ∷ behind, b' ' ∷ rest)
unfolding fraction
fraction_of whole behind rest h some_of =
    rw (some_digits_of behind b' ' rest h some_of blank_no_digit, fraction)

starts_with_digit :
    (ds rest : Bytes)
    → All IsDigit ds
    → 0 < length ds
    → spaces (b' ' ∷ (ds ++ rest)) ≡ some (ds ++ rest)
starts_with_digit [] rest h some_of = absurd (omega arith)
starts_with_digit (c ∷ ds) rest (hc, h) some_of = spaces_to c (ds ++ rest) (digit_no_space c hc)

point_no_digit : is_digit b'.' ≡ false
unfolding is_digit
point_no_digit = refl

match_here :
    (whole behind ms rest : Bytes)
    → All IsDigit whole
    → 0 < length whole
    → All IsDigit behind
    → 0 < length behind
    → All IsDigit ms
    → 0 < length ms
    → match_line (
        codes "throughput is "
        ++ (whole
            ++ b'.'
              ∷ (behind
                  ++ (codes " million msgs/sec average, total time elapsed: "
                      ++ (ms ++ (codes " ms" ++ rest))))))
      ≡ some (whole ++ b'.' ∷ behind, number_from 0 ms)
unfolding literal spaces skip_spaces is_space
match_here whole behind ms rest hw sw hb sb hm sm =
    let after =
      codes "million msgs/sec average, total time elapsed: " ++ (ms ++ (codes " ms" ++ rest)) in
    match_line_parts _ _ _ _ _ _ _ _ _ _ _ (whole, _) (ms, _) _ refl
      (starts_with_digit whole (b'.' ∷ (behind ++ b' ' ∷ after)) hw sw)
      (some_digits_of whole b'.' (behind ++ b' ' ∷ after) hw sw point_no_digit)
      (fraction_of whole behind after hb sb) refl refl refl refl
      (starts_with_digit ms (codes " ms" ++ rest) hm sm)
      (some_digits_of ms b' ' (codes "ms" ++ rest) hm sm blank_no_digit) refl refl

search_here :
    (c : ℕ) (s : Bytes) (found : Bytes × ℕ)
    → match_line (c ∷ s) ≡ some found
    → search_line (c ∷ s) ≡ some found
unfolding search_line
search_here c s found h = rw (h, search_line)

-- the line of a program
line_parts :
    (F : Doubles) (total delta file_size : ℕ) (whole behind : Bytes)
    → F.print_fixed 2 (throughput F total delta) ≡ whole ++ b'.' ∷ behind
    → formatted_line F total delta file_size
      ≡ codes "throughput is "
        ++ (whole
            ++ b'.'
              ∷ (behind
                  ++ (codes " million msgs/sec average, total time elapsed: "
                      ++ (to_string (delta / 1_000_000)
                          ++ (codes " ms"
                              ++ (codes ", log file size "
                                  ++ (F.print_fixed 2 (megabytes F file_size)
                                      ++ codes " MB \n\n")))))))
unfolding formatted_line
line_parts F total delta file_size whole behind e = rw (e, append_assoc)

-- If the throughput is printed as digits, a point and digits, the first match of the expression of
-- the table generator in the line of a throughput program is that text and the elapsed
-- milliseconds.
pub search_line-formatted_line :
    (F : Doubles) (total delta file_size : ℕ)
    → IsDecimal (F.print_fixed 2 (throughput F total delta))
    → search_line (formatted_line F total delta file_size)
      ≡ some (F.print_fixed 2 (throughput F total delta), delta / 1_000_000)
search_line-formatted_line F total delta file_size d =
    let (same, ok, some_ms) = to_string-Reads (delta / 1_000_000) in
    let found =
      match_here d.whole d.behind (to_string (delta / 1_000_000)) _ d.whole_digits d.some_whole
        d.behind_digits d.some_behind ok some_ms in
    ap search_line (line_parts F total delta file_size d.whole d.behind d.split)
    ∙ search_here _ _ _ found
    ∙ ap some (
        ap (λ t. (t, number_from 0 (to_string (delta / 1_000_000)))) (sym d.split)
        ∙ ap (λ n. (F.print_fixed 2 (throughput F total delta), n)) same)
