-- ===== src/Tables/Numbers.antt =====
-- Numbers as the programs print them, and as tools/generate_tables.py reads them.
use mathlib.Core.Path.{subst}
use logger_benchmarks.Prelude.{
  ℕ, zero, suc, ◌+◌, ◌-◌, ◌*◌, ◌/◌, ◌%◌, ◌≤◌, ◌<◌, ◌≡◌, refl, sym, ap, ◌∙◌, arith, true, false, ltb,
  some, List, [], ◌∷◌, ◌++◌, Bytes, codes, length, All, All-append, append_assoc, Bool-cases, inl,
  inr, ◌>>=◌, length-append,
}
use logger_benchmarks.Prelude.Decimal.{digits, to_string}
use logger_benchmarks.CallSite.Report.{cells}
use logger_benchmarks.Tables.Columns.{
  is_space, is_digit, skip_spaces, take_digits, number_from, behind_bar, column_end, column,
  columns,
}

abbrev pub IsDigit : ℕ → Type 0
IsDigit c = (b'0' ≤ c) × (c ≤ b'9')

number_from-append :
    (n c : ℕ) (s : Bytes) → number_from n (s ++ c ∷ []) ≡ number_from n s * 10 + (c - b'0')
unfolding number_from
number_from-append n c [] = refl
number_from-append n c (d ∷ s) = number_from-append (n * 10 + (d - b'0')) c s

-- What is read back from printed digits.
abbrev pub Reads : ℕ → Bytes → Type 0
Reads n s = (number_from 0 s ≡ n) × All IsDigit s × (0 < length s)

digits_last : (k n : ℕ) → ltb n 10 ≡ true → digits (suc k) n ≡ (b'0' + n) ∷ []
unfolding digits
digits_last k n h = rw (h, digits)

digits_more :
    (k n : ℕ) → ltb n 10 ≡ false → digits (suc k) n ≡ digits k (n / 10) ++ (b'0' + n % 10) ∷ []
unfolding digits
digits_more k n h = rw (h, digits)

digits-Reads : (k n : ℕ) → n < k → Reads n (digits k n)
unfolding number_from
digits-Reads zero n h = absurd (omega arith)
digits-Reads (suc k) n h = elim (Bool-cases (ltb n 10)) [
  | inl small ↦
      let below : n < 10 = ground arith in
      subst (Reads n) (sym (digits_last k n small)) (omega arith, (omega arith, tt), omega arith)
  | inr large ↦
      let above : 10 ≤ n = ground arith in
      let (same, ok, some_digits) = digits-Reads k (n / 10) (omega arith) in
      subst (Reads n) (sym (digits_more k n large)) (
        omega (arith, same, number_from-append 0 (b'0' + n % 10) (digits k (n / 10))),
        All-append IsDigit (digits k (n / 10)) ((b'0' + n % 10) ∷ []) ok (omega arith, tt),
        omega (arith, length-append (digits k (n / 10)) ((b'0' + n % 10) ∷ [])),
      )
]

pub to_string-Reads : (n : ℕ) → Reads n (to_string n)
unfolding to_string
to_string-Reads n = digits-Reads (n + 1) n (omega arith)

digit_yes : (c : ℕ) → IsDigit c → is_digit c ≡ true
unfolding is_digit
digit_yes c h = ground arith

pub digit_no_space : (c : ℕ) → IsDigit c → is_space c ≡ false
unfolding is_space
digit_no_space c h = ground arith

pub take_digits-append :
    (ds : Bytes) (d : ℕ) (rest : Bytes)
    → All IsDigit ds
    → is_digit d ≡ false
    → take_digits (ds ++ d ∷ rest) ≡ (ds, d ∷ rest)
unfolding take_digits
take_digits-append [] d rest h no_digit = rw (no_digit, take_digits)
take_digits-append (c ∷ ds) d rest (hc, h) no_digit =
    rw (digit_yes c hc, take_digits, take_digits-append ds d rest h no_digit)

pub blank_no_digit : is_digit b' ' ≡ false
unfolding is_digit
blank_no_digit = refl

skip_to_digit : (c : ℕ) (s : Bytes) → IsDigit c → skip_spaces (b' ' ∷ b' ' ∷ c ∷ s) ≡ c ∷ s
unfolding skip_spaces is_space
skip_to_digit c s h = rw (digit_no_space c h, skip_spaces)

skip_to_bar : (s : Bytes) → behind_bar (skip_spaces (b' ' ∷ b' ' ∷ b'|' ∷ s)) ≡ some s
unfolding skip_spaces is_space behind_bar
skip_to_bar s = refl

column_parts :
    (s t rest after : Bytes) (c : ℕ) (cs : Bytes)
    → skip_spaces s ≡ t
    → take_digits t ≡ (c ∷ cs, rest)
    → behind_bar (skip_spaces rest) ≡ some after
    → column s ≡ some (number_from 0 (c ∷ cs), after)
unfolding column column_end
column_parts s t rest after c cs e e' e'' =
    ap column_end (ap take_digits e ∙ e')
    ∙ ap (λ o. o >>= λ x. some (number_from 0 (c ∷ cs), x)) e''

-- One column, printed and read.
column_digits :
    (n : ℕ) (ds rest : Bytes)
    → Reads n ds
    → column (b' ' ∷ b' ' ∷ (ds ++ (codes "  |" ++ rest))) ≡ some (n, rest)
column_digits n [] rest (same, ok, some_digits) = absurd (omega (arith, some_digits))
column_digits n (c ∷ ds) rest (same, (hc, ok), some_digits) =
    subst (λ m. column (b' ' ∷ b' ' ∷ (c ∷ ds ++ (codes "  |" ++ rest))) ≡ some (m, rest)) same
      (column_parts _ _ _ rest c ds (skip_to_digit c (ds ++ (codes "  |" ++ rest)) hc)
        (take_digits-append (c ∷ ds) b' ' (b' ' ∷ b'|' ∷ rest) (hc, ok) blank_no_digit)
        (skip_to_bar rest))

-- the first `n` items
abbrev pub first : ℕ → List ℕ → List ℕ
first zero xs = []
first (suc n) [] = []
first (suc n) (x ∷ xs) = x ∷ first n xs

pub columns-cells :
    (n : ℕ) (xs : List ℕ) (rest : Bytes)
    → n < length xs
    → columns n (b' ' ∷ b' ' ∷ (cells xs ++ rest)) ≡ some (first n xs)
unfolding columns cells
columns-cells zero xs rest h = refl
columns-cells (suc n) [] rest h = absurd (omega arith)
columns-cells (suc n) (x ∷ []) rest h = absurd (omega arith)
columns-cells (suc n) (x ∷ y ∷ ys) rest h = rw (
  append_assoc (to_string x) (codes "  |  " ++ cells (y ∷ ys)) rest,
  column_digits x (to_string x) (b' ' ∷ b' ' ∷ (cells (y ∷ ys) ++ rest)) (to_string-Reads x),
  columns-cells n (y ∷ ys) rest (omega arith),
)
