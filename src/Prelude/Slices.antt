-- ===== src/Prelude/Slices.antt =====
-- Parts of lists by their length: what a copy of `n` bytes takes, what it leaves, and a read that
-- fails where the list is too short.
use Prim.Native.Nat.{ℕ, zero, suc, ◌+◌, ◌≤◌, ◌<◌}
use mathlib.Core.Path.{◌≡◌, refl, ap, ◌∙◌, subst}
use mathlib.Core.List.{List, [], ◌∷◌, ◌++◌}
use mathlib.Core.Option.{Option, none, some}
use native.Mathlib.Omega.{arith}
use logger_benchmarks.Prelude.Lists.{length, get_elem?}
use logger_benchmarks.Prelude.Tests.{◌>>=◌}

pub pairs {ℓ κ} :
    {A : Type ℓ} {B : Type κ} {a a' : A} {b b' : B}
    → a ≡ a'
    → b ≡ b'
    → ◌≡◌ {A = A × B} (a, b) (a', b')
pairs {A = A} {B = B} {a' = a'} {b = b} p q =
    let left : A → A × B = λ x. (x, b) in
    let right : B → A × B = λ y. (a', y) in ap left p ∙ ap right q

module _ {ℓ} {A : Type ℓ} where
  abbrev pub take : ℕ → List A → List A
  take zero xs = []
  take (suc n) [] = []
  take (suc n) (x ∷ xs) = x ∷ take n xs

  abbrev pub drop : ℕ → List A → List A
  drop zero xs = xs
  drop (suc n) [] = []
  drop (suc n) (x ∷ xs) = drop n xs

  -- The first `n` items and the rest.
  abbrev pub read : ℕ → List A → Option (List A × List A)
  read zero xs = some ([], xs)
  read (suc n) [] = none
  read (suc n) (x ∷ xs) = read n xs >>= λ r. some (x ∷ r.0, r.1)

  pub read-append : (xs ys : List A) → read (length xs) (xs ++ ys) ≡ some (xs, ys)
  read-append [] ys = refl
  read-append (x ∷ xs) ys = rw (read-append xs ys)

  pub read-exactly : (n : ℕ) (p ys : List A) → length p ≡ n → read n (p ++ ys) ≡ some (p, ys)
  read-exactly n p ys h = subst (λ k. read k (p ++ ys) ≡ some (p, ys)) h (read-append p ys)

  pub length-take : (n : ℕ) (xs : List A) → n ≤ length xs → length (take n xs) ≡ n
  length-take zero xs h = refl
  length-take (suc n) [] h = absurd (omega arith)
  length-take (suc n) (x ∷ xs) h = omega (arith, length-take n xs (omega arith))

  pub take-all : (n : ℕ) (xs : List A) → length xs ≤ n → take n xs ≡ xs
  take-all zero [] h = refl
  take-all zero (x ∷ xs) h = absurd (omega arith)
  take-all (suc n) [] h = refl
  take-all (suc n) (x ∷ xs) h = ap (λ l. x ∷ l) (take-all n xs (omega arith))

  drop_none : (i : ℕ) → drop i [] ≡ []
  drop_none zero = refl
  drop_none (suc i) = refl

  pub drop-all : (n : ℕ) (xs : List A) → length xs ≤ n → drop n xs ≡ []
  drop-all zero [] h = refl
  drop-all zero (x ∷ xs) h = absurd (omega arith)
  drop-all (suc n) [] h = refl
  drop-all (suc n) (x ∷ xs) h = drop-all n xs (omega arith)

  drop-add : (i j : ℕ) (xs : List A) → drop (i + j) xs ≡ drop j (drop i xs)
  drop-add zero j xs = ap (λ k. drop k xs) (omega arith)
  drop-add (suc i) zero [] = drop_none (suc i + zero)
  drop-add (suc i) (suc j) [] = drop_none (suc i + suc j)
  drop-add (suc i) j (x ∷ xs) =
      let e : suc i + j ≡ suc (i + j) = omega arith in ap (λ k. drop k (x ∷ xs)) e ∙ drop-add i j xs

  pub drop-length-append : (ps rest : List A) → drop (length ps) (ps ++ rest) ≡ rest
  drop-length-append [] rest = refl
  drop-length-append (x ∷ ps) rest = drop-length-append ps rest

  -- What stands behind a part that was consumed.
  pub drop-append :
      (i : ℕ) (xs ps rest : List A) → drop i xs ≡ ps ++ rest → drop (i + length ps) xs ≡ rest
  drop-append i xs ps rest h =
      drop-add i (length ps) xs ∙ ap (drop (length ps)) h ∙ drop-length-append ps rest

  pub get_elem?-drop :
      (i : ℕ) (xs : List A) (x : A) (rest : List A)
      → drop i xs ≡ x ∷ rest
      → (get_elem? xs i ≡ some x) × (i < length xs)
  get_elem?-drop zero [] x rest h = absurd (omega (arith, ap length h))
  get_elem?-drop zero (y ∷ xs) x rest h = (ap (λ l. get_elem? l zero) h, omega arith)
  get_elem?-drop (suc i) [] x rest h = absurd (omega (arith, ap length h))
  get_elem?-drop (suc i) (y ∷ xs) x rest h =
      let (found, lt) = get_elem?-drop i xs x rest h in (found, omega arith)
