-- ===== src/Prelude/Lists.antt =====
-- Lists over the native numbers: length, access, counting, sums, and a predicate on all items.
use Prim.Native.Nat.{ℕ, zero, suc, ◌+◌, ◌*◌, ◌<◌}
use Prim.Native.Char.{code}
use native.Mathlib.Numerals.{add-one}
use Prim.Native.String.{String}
use mathlib.Core.Path.{◌≡◌, refl}
use mathlib.Core.List.{List, [], ◌∷◌, ◌++◌}
use mathlib.Core.Option.{Option, none, some}
use native.Mathlib.Omega.{arith}

abbrev pub Bytes : Type 0
Bytes = List ℕ

-- The code points of a literal: its bytes, since every literal of the program is ASCII.
abbrev pub codes : String → Bytes
codes String.[] = []
codes (String.◌∷◌ c s) = code c ∷ codes s

module _ {ℓ} {A : Type ℓ} where
  abbrev pub length : List A → ℕ
  length [] = 0
  length (x ∷ xs) = suc (length xs)

  abbrev pub get_elem? : List A → ℕ → Option A
  get_elem? [] i = none
  get_elem? (x ∷ xs) zero = some x
  get_elem? (x ∷ xs) (suc i) = get_elem? xs i

  abbrev pub get_or : List A → ℕ → A → A
  get_or [] i d = d
  get_or (x ∷ xs) zero d = x
  get_or (x ∷ xs) (suc i) d = get_or xs i d

  pub length-append : (xs ys : List A) → length (xs ++ ys) ≡ length xs + length ys
  length-append [] ys = omega arith
  length-append (x ∷ xs) ys = omega (arith, length-append xs ys)

  -- f 0 ++ f 1 ++ … ++ f (n - 1)
  unfoldable pub concat_upto : ℕ → (ℕ → List A) → List A
  concat_upto zero f = []
  concat_upto (suc n) f = concat_upto n f ++ f n

-- A proof of `All` item by item: `p ⨾ q ⨾ tt`.
infixr 5 ◌⨾◌
abbrev pub ◌⨾◌ {ℓ κ} : {A : Type ℓ} {B : Type κ} → A → B → A × B
a ⨾ b = (a, b)

module _ {ℓ κ} {A : Type ℓ} (P : A → Type κ) where
  abbrev pub All : List A → Type κ
  All [] = Unit
  All (x ∷ xs) = P x × All xs

  pub All-append : (xs ys : List A) → All xs → All ys → All (xs ++ ys)
  All-append [] ys hx hy = hy
  All-append (x ∷ xs) ys (px, hx) hy = (px, All-append xs ys hx hy)

-- f 0 + f 1 + … + f (n - 1)
unfoldable pub sum_upto : ℕ → (ℕ → ℕ) → ℕ
sum_upto zero f = 0
sum_upto (suc n) f = sum_upto n f + f n

pub sum_upto_ext :
    (n : ℕ) (f g : ℕ → ℕ) → ((i : ℕ) → i < n → f i ≡ g i) → sum_upto n f ≡ sum_upto n g
unfolding sum_upto
sum_upto_ext zero f g h = refl
sum_upto_ext (suc n) f g h =
    omega (arith, sum_upto_ext n f g (λ i lt. h i (omega arith)), h n (omega arith))

pub length-concat_upto {ℓ} :
    {A : Type ℓ} (n : ℕ) (f : ℕ → List A)
    → length (concat_upto n f) ≡ sum_upto n (λ i. length (f i))
unfolding concat_upto sum_upto
length-concat_upto zero f = refl
length-concat_upto (suc n) f =
    omega (arith, length-append (concat_upto n f) (f n), length-concat_upto n f)

pub sum_upto-const : (n k : ℕ) → sum_upto n (λ _. k) ≡ n * k
unfolding sum_upto
sum_upto-const zero k = omega arith
sum_upto-const (suc n) k = omega (arith, sum_upto-const n k)

-- f 0 ∷ f 1 ∷ … ∷ f (n - 1) ∷ []
pub length-concat_upto_one {ℓ} :
    {A : Type ℓ} (n : ℕ) (f : ℕ → A) → length (concat_upto n (λ i. f i ∷ [])) ≡ n
length-concat_upto_one n f = omega (arith, length-concat_upto n (λ i. f i ∷ []), sum_upto-const n 1)

-- the two clauses as equations
pub sum_upto_zero : (f : ℕ → ℕ) → sum_upto 0 f ≡ 0
unfolding sum_upto
sum_upto_zero f = refl

pub sum_upto_step : (n : ℕ) (f : ℕ → ℕ) → sum_upto (n + 1) f ≡ sum_upto n f + f n
unfolding sum_upto
sum_upto_step n f = rw add-one
