-- ===== src/CallSite/Report/Ranks.antt =====
-- The ranks of the percentiles that `run_benchmark` prints.
use mathlib.Core.Bool.{true≢false}
use logger_benchmarks.Prelude.{
  true, false, sym, ◌∙◌, dec_le, Bool-cases, inl, inr, ℕ, ◌-◌, ◌*◌, ◌^◌, ◌≤◌, ◌<◌, ◌≡◌, ap, arith,
  Bool, [], ◌∷◌, ltb, leb, List, length, get_or,
}
use logger_benchmarks.Prelude.Sort.{
  sort, count_if, count_if-sort, length-sort, IsSorted, sort-IsSorted, get_or_mono, get_or-rank,
}
use logger_benchmarks.Platform.Doubles.{Doubles, IsMonotone, IsCeiling}
use logger_benchmarks.CallSite.Report.Defs.{percentile_index, reported_percentiles, row}

count_if-le-length {ℓ} : {A : Type ℓ} (test : A → Bool) (xs : List A) → count_if test xs ≤ length xs
count_if-le-length test [] = omega arith
count_if-le-length test (x ∷ xs) = ground (arith, count_if-le-length test xs)

module _ (F : Doubles) where
  -- Whatever the doubles do, no percentile reads past the samples.
  percentile_index-lt : (n : ℕ) (p : F.Double) → 0 < n → percentile_index F n p < n
  unfolding percentile_index
  percentile_index-lt n p pos = omega arith

  -- The percentile `p` of the samples, as the report has it.
  abbrev pub percentile : List ℕ → F.Double → ℕ
  percentile samples p =
      let sorted = sort ltb samples in get_or sorted (percentile_index F (length sorted) p) 0

  -- The item at the index of a percentile: more samples are at most as large, and at most as many
  -- are smaller.
  percentile-at :
      (samples : List ℕ) (p : F.Double)
      → 0 < length samples
      → (percentile_index F (length samples) p < length samples)
        × (percentile_index F (length samples) p
            < count_if (λ x. leb x (percentile samples p)) samples)
        × (count_if (λ x. ltb x (percentile samples p)) samples
            ≤ percentile_index F (length samples) p)
  percentile-at samples p some =
      let v = percentile samples p in
      let same = length-sort ltb samples in
      let i = percentile_index F (length (sort ltb samples)) p in
      let below = percentile_index-lt (length (sort ltb samples)) p (omega (arith, same)) in
      let (more, fewer) = get_or-rank (sort ltb samples) i 0 (sort-IsSorted samples) below in
      let index = ap (λ n. percentile_index F n p) same in
      omega (
        arith,
        same,
        index,
        below,
        more,
        fewer,
        count_if-sort (λ x. leb x v) ltb samples,
        count_if-sort (λ x. ltb x v) ltb samples,
      )

  -- If std::ceil gives the least whole number not below its argument, and a product of a count with
  -- a literal is at most the count: for one sample or more and fewer than 2^53, and a literal p of
  -- at most 1 whose product with the number of samples is positive, the percentile p of the report
  -- is the nearest-rank percentile. The samples that are at most as large are no fewer than that
  -- product, and those that are smaller are fewer.
  pub percentile-rank :
      IsCeiling F
      → (samples : List ℕ) (a k : ℕ) → 0 < length samples
      → length samples < 2 ^ 53
      → a ≤ 10 ^ k
      → F.less (F.of_nat 0) (F.mul (F.of_nat (length samples)) (F.decimal a k)) ≡ true
      → let part = F.mul (F.of_nat (length samples)) (F.decimal a k) in
        let v = percentile samples (F.decimal a k) in
        (F.less (F.of_nat (count_if (λ x. leb x v) samples)) part ≡ false)
        × (F.less (F.of_nat (count_if (λ x. ltb x v) samples)) part ≡ true)
  unfolding percentile_index
  percentile-rank ceiling samples a k some few le positive =
      let n = length samples in
      let p = F.decimal a k in
      let v = percentile samples p in
      let part = F.mul (F.of_nat n) p in
      let rank = F.to_u64 (F.ceil part) in
      let at_most = count_if (λ x. leb x v) samples in
      let smaller = count_if (λ x. ltb x v) samples in
      let least = λ (l : ℕ) (h : l < 2 ^ 53). ceiling.least_rank n a k l few le h in
      let top : rank ≤ n = (least n few).0 (ceiling.product_le n a k few le) in
      let pos : 0 < rank = elim (dec_le rank 0) [
        | yes none_ ↦ absurd (true≢false (sym positive ∙ (least 0 (omega arith)).1 none_))
        | no some_ ↦ omega (arith, some_)
      ] in
      let (below, more, fewer) = percentile-at samples p some in
      let reached : rank ≤ at_most = ground (arith, more, top, pos) in
      let missed : smaller < rank = ground (arith, fewer, top, pos) in
      let small : at_most < 2 ^ 53 = omega (arith, count_if-le-length (λ x. leb x v) samples) in
      let small' : smaller < 2 ^ 53 = omega (arith, missed, top) in
      (
        (least at_most small).1 reached,
        elim (Bool-cases (F.less (F.of_nat smaller) part)) [
          | inl less ↦ less
          | inr not_less ↦ absurd (omega (arith, missed, (least smaller small').0 not_less))
        ],
      )

  percentile_mono :
      IsMonotone F
      → (samples : List ℕ) (a b k l : ℕ) → 0 < length samples
      → length samples < 2 ^ 53
      → a * 10 ^ l ≤ b * 10 ^ k
      → b ≤ 10 ^ l
      → percentile samples (F.decimal a k) ≤ percentile samples (F.decimal b l)
  unfolding percentile_index
  percentile_mono mono samples a b k l some few le one =
      let n = length (sort ltb samples) in
      let same = length-sort ltb samples in
      let ranks = mono.ranks_mono n a b k l (omega (arith, same)) le one in
      let pos : 0 < n = omega (arith, same) in
      get_or_mono (sort ltb samples) _ _ 0 (sort-IsSorted samples) (ground arith)
        (percentile_index-lt n (F.decimal b l) pos)

  percentile-le-last :
      (samples : List ℕ) (p : F.Double)
      → 0 < length samples
      → percentile samples p ≤ get_or (sort ltb samples) (length (sort ltb samples) - 1) 0
  percentile-le-last samples p some =
      let pos : 0 < length (sort ltb samples) = omega (arith, length-sort ltb samples) in
      let below = percentile_index-lt (length (sort ltb samples)) p pos in
      get_or_mono (sort ltb samples) _ _ 0 (sort-IsSorted samples) (omega (arith, below))
        (omega arith)

  -- If rounding is monotone, the seven numbers of the report row are in ascending order, for one
  -- sample or more and fewer than 2^53.
  pub row_in_order :
      IsMonotone F
      → (samples : List ℕ) → 0 < length samples
      → length samples < 2 ^ 53
      → IsSorted (row F (sort ltb samples))
  unfolding row reported_percentiles
  row_in_order mono samples some few = omega (
    arith,
    percentile_mono mono samples 5 75 1 2 some few (omega arith) (omega arith),
    percentile_mono mono samples 75 9 2 1 some few (omega arith) (omega arith),
    percentile_mono mono samples 9 95 1 2 some few (omega arith) (omega arith),
    percentile_mono mono samples 95 99 2 2 some few (omega arith) (omega arith),
    percentile_mono mono samples 99 999 2 3 some few (omega arith) (omega arith),
    percentile-le-last samples (F.decimal 999 3) some,
  )

module _ (F : Doubles) where
  -- For one sample or more, the last number of the row is the largest sample.
  pub worst-max :
      (samples : List ℕ)
      → 0 < length samples
      → (count_if (λ x. leb x (get_or (row F (sort ltb samples)) 6 0)) samples ≡ length samples)
        × (count_if (λ x. ltb x (get_or (row F (sort ltb samples)) 6 0)) samples < length samples)
  unfolding row reported_percentiles
  worst-max samples some =
      let sorted = sort ltb samples in
      let same = length-sort ltb samples in
      let last = length sorted - 1 in
      let v = get_or sorted last 0 in
      let (more, fewer) = get_or-rank sorted last 0 (sort-IsSorted samples) (omega (arith, same)) in
      omega (
        arith,
        same,
        more,
        fewer,
        count_if-sort (λ x. leb x v) ltb samples,
        count_if-sort (λ x. ltb x v) ltb samples,
        count_if-le-length (λ x. leb x v) samples,
      )
