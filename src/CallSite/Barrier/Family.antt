-- ===== src/CallSite/Barrier/Family.antt =====
-- Values by thread, for the threads of `run_benchmark`: the change of one thread, and sums of weights over all threads.
use logger_benchmarks.Prelude.{
  ℕ, zero, suc, ◌+◌, ◌≤◌, ◌<◌, ◌≡◌, refl, arith, ◌==◌, if◌then◌else◌, sum_upto, dec_lt, ◌⊎◌, inl,
  inr, Bool, true, false, Bool-cases,
}

abbrev pub update {ℓ} : {A : Type ℓ} → (ℕ → A) → ℕ → A → ℕ → A
update f i a j = if i == j then a else f j

module _ {ℓ} {A : Type ℓ} (w : A → ℕ) (f : ℕ → A) where
  -- the weights of the first `n` threads
  abbrev pub weight : ℕ → ℕ
  weight n = sum_upto n (λ j. w (f j))

  module _ (i : ℕ) (a : A) where
    weight_apart : (n : ℕ) → n ≤ i → sum_upto n (λ j. w (update f i a j)) ≡ weight n
    unfolding sum_upto
    weight_apart zero h = refl
    weight_apart (suc n) h = ground (arith, weight_apart n)

    pub weight-update :
        (n : ℕ) → i < n → sum_upto n (λ j. w (update f i a j)) + w (f i) ≡ weight n + w a
    unfolding sum_upto
    weight-update zero h = absurd (omega arith)
    weight-update (suc n) h = elim (dec_lt i n) [
      | yes inner ↦ ground (arith, weight-update n inner)
      | no last ↦ ground (arith, weight_apart n)
    ]

  pub weight-le : ((a : A) → w a ≤ 1) → (n : ℕ) → weight n ≤ n
  unfolding sum_upto
  weight-le small zero = omega arith
  weight-le small (suc n) = omega (arith, small (f n), weight-le small n)

  -- Weights of at most one that add up to the number of threads are all one.
  pub weight_full : ((a : A) → w a ≤ 1) → (n : ℕ) → weight n ≡ n → (j : ℕ) → j < n → w (f j) ≡ 1
  unfolding sum_upto
  weight_full small zero e j h = absurd (omega arith)
  weight_full small (suc n) e j h = elim (dec_lt j n) [
    | yes inner ↦ weight_full small n (omega (arith, small (f n), weight-le small n)) j inner
    | no last ↦
        let same : j ≡ n = omega arith in rw same (omega (arith, small (f n), weight-le small n))
  ]

  pub weight_ones : (n : ℕ) → ((j : ℕ) → j < n → w (f j) ≡ 1) → weight n ≡ n
  unfolding sum_upto
  weight_ones zero h = refl
  weight_ones (suc n) h =
      omega (arith, weight_ones n (λ j lt. h j (omega arith)), h n (omega arith))

  pub weight_none : (n : ℕ) → ((j : ℕ) → w (f j) ≡ 0) → weight n ≡ 0
  unfolding sum_upto
  weight_none zero h = refl
  weight_none (suc n) h = omega (arith, weight_none n h, h n)

module _ {ℓ} {A : Type ℓ} (test : A → Bool) (f : ℕ → A) where
  -- Some thread of the first `n` passes a test, or none does.
  pub find :
      (n : ℕ) → ((i : ℕ) × (i < n) × (test (f i) ≡ true)) ⊎ ((i : ℕ) → i < n → test (f i) ≡ false)
  find zero = inr (λ i h. absurd (omega arith))
  find (suc n) = elim (Bool-cases (test (f n))) [
    | inl here ↦ inl (n, omega arith, here)
    | inr not_here ↦ elim (find n) [
      | inl (i, lt, e) ↦ inl (i, omega arith, e)
      | inr nowhere ↦ inr (λ i h. elim (dec_lt i n) [
        | yes inner ↦ nowhere i inner
        | no last ↦ let same : i ≡ n = omega arith in rw same not_here
      ])
    ]
  ]
