-- ===== src/Prelude/Sort.antt =====
-- What `std::sort` and `std::nth_element` leave: the items in order. By insertion, over the test
-- `less`; an item stays before those that are equal to it.
use logger_benchmarks.Prelude.Lists.{length, All, get_or}
use logger_benchmarks.Prelude.Tests.{if◌then◌else◌, Bool-cases, ltb, leb}
use Prim.Native.Nat.{ℕ, zero, suc, ◌+◌, ◌≤◌, ◌<◌}
use mathlib.Core.Bool.{Bool}
use mathlib.Core.List.{List, [], ◌∷◌}
use mathlib.Core.Logic.{inl, inr}
use mathlib.Core.Path.{◌≡◌, refl}
use native.Mathlib.Omega.{arith}

module _ {ℓ} {A : Type ℓ} (less : A → A → Bool) where
  unfoldable pub insert : A → List A → List A
  insert x [] = x ∷ []
  insert x (y ∷ ys) = if less y x then y ∷ insert x ys else x ∷ y ∷ ys

  unfoldable pub sort : List A → List A
  unfolding insert
  sort [] = []
  sort (x ∷ xs) = insert x (sort xs)

module _ {ℓ} {A : Type ℓ} (test : A → Bool) where
  abbrev pub count_if : List A → ℕ
  count_if [] = 0
  count_if (x ∷ xs) = (if test x then 1 else 0) + count_if xs

  count_if-insert :
      (less : A → A → Bool) (x : A) (ys : List A)
      → count_if (insert less x ys) ≡ (if test x then 1 else 0) + count_if ys
  unfolding insert
  count_if-insert less x [] = refl
  count_if-insert less x (y ∷ ys) = ground (arith, count_if-insert less x ys)

  -- Sorting changes no count, of whatever kind.
  pub count_if-sort : (less : A → A → Bool) (xs : List A) → count_if (sort less xs) ≡ count_if xs
  unfolding sort
  count_if-sort less [] = refl
  count_if-sort less (x ∷ xs) =
      omega (arith, count_if-insert less x (sort less xs), count_if-sort less xs)

length-insert {ℓ} :
    {A : Type ℓ} (less : A → A → Bool) (x : A) (ys : List A)
    → length (insert less x ys) ≡ length ys + 1
unfolding insert
length-insert less x [] = omega arith
length-insert less x (y ∷ ys) = ground (arith, length-insert less x ys)

pub length-sort {ℓ} :
    {A : Type ℓ} (less : A → A → Bool) (xs : List A) → length (sort less xs) ≡ length xs
unfolding sort
length-sort less [] = refl
length-sort less (x ∷ xs) = omega (arith, length-insert less x (sort less xs), length-sort less xs)

-- Numbers in order.
abbrev pub IsSorted : List ℕ → Type 0
IsSorted [] = Unit
IsSorted (x ∷ xs) = All (λ y. x ≤ y) xs × IsSorted xs

All-insert : (P : ℕ → Type 0) (x : ℕ) (ys : List ℕ) → P x → All P ys → All P (insert ltb x ys)
unfolding insert
All-insert P x [] px h = (px, tt)
All-insert P x (y ∷ ys) px (py, h) = elim (Bool-cases (ltb y x)) [
  | inl later ↦ rw later (py, All-insert P x ys px h)
  | inr here ↦ rw here (px, (py, h))
]

All-le : (m x : ℕ) (ys : List ℕ) → m ≤ x → All (λ y. x ≤ y) ys → All (λ y. m ≤ y) ys
All-le m x [] le h = tt
All-le m x (y ∷ ys) le (ly, h) = (omega arith, All-le m x ys le h)

insert-IsSorted : (x : ℕ) (ys : List ℕ) → IsSorted ys → IsSorted (insert ltb x ys)
unfolding insert
insert-IsSorted x [] h = (tt, tt)
insert-IsSorted x (y ∷ ys) (le, h) = elim (Bool-cases (ltb y x)) [
  | inl later ↦ rw later (All-insert (λ z. y ≤ z) x ys (ground arith) le, insert-IsSorted x ys h)
  | inr here ↦ let xy : x ≤ y = ground arith in rw here ((xy, All-le x y ys xy le), (le, h))
]

pub sort-IsSorted : (xs : List ℕ) → IsSorted (sort ltb xs)
unfolding sort
sort-IsSorted [] = tt
sort-IsSorted (x ∷ xs) = insert-IsSorted x (sort ltb xs) (sort-IsSorted xs)

All-get_or {ℓ κ} :
    {A : Type ℓ} (P : A → Type κ) (xs : List A) (i : ℕ) (d : A)
    → All P xs
    → i < length xs
    → P (get_or xs i d)
All-get_or P [] i d h lt = absurd (omega arith)
All-get_or P (x ∷ xs) zero d (px, h) lt = px
All-get_or P (x ∷ xs) (suc i) d (px, h) lt = All-get_or P xs i d h (omega arith)

-- In a sorted list a later item is at least as large.
pub get_or_mono :
    (xs : List ℕ) (i j d : ℕ) → IsSorted xs → i ≤ j → j < length xs → get_or xs i d ≤ get_or xs j d
get_or_mono [] i j d h le lt = absurd (omega arith)
get_or_mono (x ∷ xs) zero zero d h le lt = omega arith
get_or_mono (x ∷ xs) zero (suc j) d (h, s) le lt = All-get_or (λ y. x ≤ y) xs j d h (omega arith)
get_or_mono (x ∷ xs) (suc i) zero d h le lt = absurd (omega arith)
get_or_mono (x ∷ xs) (suc i) (suc j) d (h, s) le lt =
    get_or_mono xs i j d s (omega arith) (omega arith)

count_none : (x : ℕ) (ys : List ℕ) → All (λ y. x ≤ y) ys → count_if (λ y. ltb y x) ys ≡ 0
count_none x [] h = refl
count_none x (y ∷ ys) (le, h) = ground (arith, count_none x ys h)

-- The item at `i` of a sorted list has rank `i + 1`: so many items are at most as large, and fewer
-- are smaller.
pub get_or-rank :
    (xs : List ℕ) (i d : ℕ)
    → IsSorted xs
    → i < length xs
    → (i < count_if (λ x. leb x (get_or xs i d)) xs)
      × (count_if (λ x. ltb x (get_or xs i d)) xs ≤ i)
get_or-rank [] i d s lt = absurd (omega arith)
get_or-rank (x ∷ xs) zero d (h, s) lt = (ground arith, ground (arith, count_none x xs h))
get_or-rank (x ∷ xs) (suc i) d (h, s) lt =
    let (more, fewer) = get_or-rank xs i d s (omega arith) in
    let le = All-get_or (λ y. x ≤ y) xs i d h (omega arith) in (ground arith, ground arith)
