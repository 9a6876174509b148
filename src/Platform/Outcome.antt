-- ===== src/Platform/Outcome.antt =====
-- How a piece of the program ends, and `set_thread_affinity` of call_site_latency_bench.h.
use logger_benchmarks.Prelude.{ℕ, Bool, false, ◌≡◌, refl, if◌then◌else◌}

pub data Outcome {ℓ} (A : Type ℓ) : Type ℓ where
  returned : A → Outcome A
  terminated : Outcome A  -- an exception that nothing catches
  waiting : Outcome A  -- still in a busy loop when the readings of the clock that it may take end

infixl 5 ◌>>=◌ ◌>>◌
abbrev pub ◌>>=◌ {ℓ κ} : {A : Type ℓ} {B : Type κ} → Outcome A → (A → Outcome B) → Outcome B
returned a >>= f = f a
terminated >>= f = terminated
waiting >>= f = waiting

abbrev pub ◌>>◌ {ℓ} : {B : Type ℓ} → Outcome (Unit {0}) → Outcome B → Outcome B
m >> k = m >>= λ _. k

-- `allowed cpu` says whether `sched_setaffinity` succeeds; if not, the function throws.
unfoldable pub set_thread_affinity : (ℕ → Bool) → ℕ → Outcome (Unit {0})
set_thread_affinity allowed cpu = if allowed cpu then returned tt else terminated

pub >>=-eq-returned {ℓ κ} :
    {A : Type ℓ} {B : Type κ} (m : Outcome A) (f : A → Outcome B) {b : B}
    → (m >>= f) ≡ returned b
    → (a : A) × (m ≡ returned a) × (f a ≡ returned b)
>>=-eq-returned (returned a) f h = (a, refl, h)
>>=-eq-returned terminated f h = cc
>>=-eq-returned waiting f h = cc

pub returned-injective {ℓ} : {A : Type ℓ} (a b : A) → returned a ≡ returned b → a ≡ b
returned-injective a b h = cc

-- A piece of the program ends if its first part does and the rest does.
pub >>=_returns {ℓ κ} :
    {A : Type ℓ} {B : Type κ} (m : Outcome A) (f : A → Outcome B) (a : A)
    → m ≡ returned a
    → (b : B) × (f a ≡ returned b)
    → (b : B) × ((m >>= f) ≡ returned b)
>>=_returns m f a e (b, h) = (b, rw e h)

pub else_returns {ℓ} :
    {A : Type ℓ} (b : Bool) (x y : Outcome A)
    → b ≡ false
    → (a : A) × (y ≡ returned a)
    → (a : A) × ((if b then x else y) ≡ returned a)
else_returns b x y e (a, h) = (a, rw e h)
