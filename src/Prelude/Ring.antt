-- ===== src/Prelude/Ring.antt =====
-- A list of slots read in a circle: what stands in `n` slots from position `s` on, a position being
-- taken by its remainder. With the writes that leave what was there.
use Prim.Native.Nat.{ℕ, zero, suc, ◌+◌, ◌-◌, ◌%◌, ◌≤◌, ◌<◌}
use mathlib.Core.Logic.{◌≢◌}
use mathlib.Core.Path.{◌≡◌, refl, ap, ◌∙◌, sym}
use mathlib.Core.List.{List, [], ◌∷◌, ◌++◌}
use native.Mathlib.Omega.{arith}
use native.Mathlib.Nat.{mod-add-mod, mod-eq-sub-mod, mod-eq_of_lt, mod-lt}
use native.Mathlib.Decide.{dec_lt}
use logger_benchmarks.Prelude.Lists.{length, get_or}

-- Two positions less than a round apart have different remainders.
pub mod_apart : (c a k : ℕ) → 0 < k → k < c → (a + k) % c ≢ a % c
mod_apart c a k pos small e =
    let r : ℕ = a % c in
    let r_small : r < c = mod-lt a (omega arith) in
    let same : (r + k) % c ≡ r = mod-add-mod a c k ∙ e in
    elim (dec_lt (r + k) c) [
      | yes within ↦ absurd (omega (arith, same, mod-eq_of_lt within))
      | no over ↦
          let le : c ≤ r + k = omega arith in
          let less : r + k - c < c = omega arith in
          absurd (omega (arith, same, mod-eq-sub-mod le, mod-eq_of_lt less))
    ]

module _ {ℓ} {A : Type ℓ} where
  abbrev pub set : List A → ℕ → A → List A
  set [] i v = []
  set (x ∷ xs) zero v = v ∷ xs
  set (x ∷ xs) (suc i) v = x ∷ set xs i v

  pub length-set : (xs : List A) (i : ℕ) (v : A) → length (set xs i v) ≡ length xs
  length-set [] i v = refl
  length-set (x ∷ xs) zero v = refl
  length-set (x ∷ xs) (suc i) v = ap suc (length-set xs i v)

  pub get_or-set_same :
      (xs : List A) (i : ℕ) (v d : A) → i < length xs → get_or (set xs i v) i d ≡ v
  get_or-set_same [] i v d h = absurd (omega arith)
  get_or-set_same (x ∷ xs) zero v d h = refl
  get_or-set_same (x ∷ xs) (suc i) v d h = get_or-set_same xs i v d (omega arith)

  pub get_or-set_other :
      (xs : List A) (i j : ℕ) (v d : A) → i ≢ j → get_or (set xs i v) j d ≡ get_or xs j d
  get_or-set_other [] i j v d h = refl
  get_or-set_other (x ∷ xs) zero zero v d h = absurd (h refl)
  get_or-set_other (x ∷ xs) zero (suc j) v d h = refl
  get_or-set_other (x ∷ xs) (suc i) zero v d h = refl
  get_or-set_other (x ∷ xs) (suc i) (suc j) v d h = get_or-set_other xs i j v d (λ e. h (ap suc e))

  get_or-append :
      (ps : List A) (y : A) (ys : List A) (d : A) → get_or (ps ++ y ∷ ys) (length ps) d ≡ y
  get_or-append [] y ys d = refl
  get_or-append (p ∷ ps) y ys d = get_or-append ps y ys d

module _ {ℓ} {A : Type ℓ} (d : A) where
  unfoldable pub ring : List A → ℕ → ℕ → ℕ → List A
  ring xs c s zero = []
  ring xs c s (suc n) = get_or xs (s % c) d ∷ ring xs c (s + 1) n

  pub ring_zero : (xs : List A) (c s : ℕ) → ring xs c s 0 ≡ []
  unfolding ring
  ring_zero xs c s = refl

  pub length-ring : (xs : List A) (c s n : ℕ) → length (ring xs c s n) ≡ n
  unfolding ring
  length-ring xs c s zero = refl
  length-ring xs c s (suc n) = ap suc (length-ring xs c (s + 1) n)

  pub ring_first :
      (xs : List A) (c s n : ℕ) → ring xs c s (n + 1) ≡ get_or xs (s % c) d ∷ ring xs c (s + 1) n
  unfolding ring
  ring_first xs c s n = let e : n + 1 ≡ suc n = omega arith in ap (ring xs c s) e

  -- Only the remainder of the first position matters.
  pub ring_mod : (xs : List A) (c s t n : ℕ) → s % c ≡ t % c → ring xs c s n ≡ ring xs c t n
  unfolding ring
  ring_mod xs c s t zero e = refl
  ring_mod xs c s t (suc n) e =
      let next : (s + 1) % c ≡ (t + 1) % c =
        sym (mod-add-mod s c 1) ∙ ap (λ k. (k + 1) % c) e ∙ mod-add-mod t c 1 in
      rw (e, ring_mod xs c (s + 1) (t + 1) n next)

  pub ring_last :
      (xs : List A) (c s n : ℕ)
      → ring xs c s (n + 1) ≡ ring xs c s n ++ get_or xs ((s + n) % c) d ∷ []
  unfolding ring
  ring_last xs c s zero = ap (λ k. get_or xs (k % c) d ∷ []) (omega arith)
  ring_last xs c s (suc n) =
      let more : suc n + 1 ≡ suc (n + 1) = omega arith in
      let same : s + 1 + n ≡ s + suc n = omega arith in
      ap (ring xs c s) more
      ∙ ap (λ l. get_or xs (s % c) d ∷ l)
          (ring_last xs c (s + 1) n
            ∙ ap (λ k. ring xs c (s + 1) n ++ get_or xs (k % c) d ∷ []) same)

  -- A write behind the `n` slots, within one round, leaves them.
  pub ring-set :
      (xs : List A) (c s n m : ℕ) (v : A)
      → n + m < c
      → ring (set xs ((s + (n + m)) % c) v) c s n ≡ ring xs c s n
  unfolding ring
  ring-set xs c s zero m v h = refl
  ring-set xs c s (suc n) m v h =
      let apart : (s + (suc n + m)) % c ≢ s % c = mod_apart c s (suc n + m) (omega arith) h in
      let same : s + (suc n + m) ≡ s + 1 + (n + m) = omega arith in
      rw (get_or-set_other xs ((s + (suc n + m)) % c) (s % c) v d apart) (
        ap (λ k. get_or xs (s % c) d ∷ ring (set xs (k % c) v) c (s + 1) n) same
        ∙ ap (λ l. get_or xs (s % c) d ∷ l) (ring-set xs c (s + 1) n m v (omega arith)))

  ring_behind :
      (x : A) (xs : List A) (c s n : ℕ) → s + 1 + n ≤ c → ring (x ∷ xs) c (s + 1) n ≡ ring xs c s n
  unfolding ring
  ring_behind x xs c s zero h = refl
  ring_behind x xs c s (suc n) h =
      let here : s < c = omega arith in
      let next : s + 1 < c = omega arith in
      let one_more : (s + 1) % c ≡ suc (s % c) =
        omega (arith, mod-eq_of_lt here, mod-eq_of_lt next) in
      ap (λ k. get_or (x ∷ xs) k d ∷ ring (x ∷ xs) c (s + 1 + 1) n) one_more
      ∙ ap (λ l. get_or xs (s % c) d ∷ l) (ring_behind x xs c (s + 1) n (omega arith))

  -- A list at the front of the slots, which are at least as many, is what stands there.
  pub ring-append : (ys zs : List A) (c : ℕ) → length ys ≤ c → ring (ys ++ zs) c 0 (length ys) ≡ ys
  unfolding ring
  ring-append [] zs c h = refl
  ring-append (y ∷ ys) zs c h =
      let start : 0 < c = omega arith in
      ap (λ k. get_or (y ∷ ys ++ zs) k d ∷ ring (y ∷ ys ++ zs) c (0 + 1) (length ys))
        (mod-eq_of_lt start)
      ∙ ap (λ l. y ∷ l)
          (ring_behind y (ys ++ zs) c 0 (length ys) (omega arith)
            ∙ ring-append ys zs c (omega arith))
