-- ===== src/Quill/Powers.antt =====
-- quill/include/quill/core/MathUtilities.h. `x & y` of two 64-bit numbers goes bit by bit.
use Prim.Native.Nat.{ℕ, zero, suc, ◌+◌, ◌-◌, ◌*◌, ◌/◌, ◌%◌, ◌^◌, ◌≤◌, ◌<◌, ◌∣◌}
use mathlib.Core.Path.{subst}
use native.Mathlib.Nat.{dvd_refl, dvd-mul_left_of_dvd, mod-mod_of_dvd}
use logger_benchmarks.Prelude.{
  Bool, true, false, ◌&&◌, not, ltb, leb, ◌==◌, if◌then◌else◌, ◌≡◌, refl, sym, ap, ◌∙◌, ◌⊎◌, inl,
  inr, Bool-cases, arith, dec_lt,
}

unfoldable pub bit_and : ℕ → ℕ → ℕ → ℕ
bit_and zero x y = 0
bit_and (suc bits) x y = (x % 2) * (y % 2) + 2 * bit_and bits (x / 2) (y / 2)

unfoldable pub is_power_of_two : ℕ → Bool
is_power_of_two number = not (number == 0) && (bit_and 64 number (number - 1) == 0)

abbrev pub max_power_of_2 : ℕ
max_power_of_2 = 2 ^ 63

-- `while (result < n) { result <<= 1; }`
unfoldable pub double_until : ℕ → ℕ → ℕ → ℕ
double_until zero result n = result
double_until (suc fuel) result n = elim (ltb result n) [
  | true ↦ double_until fuel ((result * 2) % 2 ^ 64) n
  | false ↦ result
]

-- A result starts as 1 and is doubled 63 times at most.
unfoldable pub next_power_of_two : ℕ → ℕ
next_power_of_two n =
    if leb max_power_of_2 n
    then max_power_of_2
    else if is_power_of_two n
    then n
    else double_until 63 1 n

-- A power of two that a `size_t` holds.
pub record IsPower (r : ℕ) : Type 0 where
  pub exponent : ℕ
  pub small : exponent ≤ 63
  pub is_power : r ≡ 2 ^ exponent

-- `r` is the least power of two that is at least `n`.
abbrev pub IsRounded : ℕ → ℕ → Type 0
IsRounded n r = IsPower r × (n ≤ r) × ((r ≡ 1) ⊎ (r < 2 * n))

parity : (x : ℕ) → (x % 2 ≡ 0) ⊎ (x % 2 ≡ 1)
parity x = elim (Bool-cases (ltb (x % 2) 1)) [
  | inl even ↦ inl (ground arith)
  | inr odd ↦ inr (ground arith)
]

bit_and_self : (bits x : ℕ) → x < 2 ^ bits → bit_and bits x x ≡ x
unfolding bit_and
bit_and_self zero x h = omega arith
bit_and_self (suc bits) x h =
    let halves = bit_and_self bits (x / 2) (omega arith) in
    elim (parity x) [
      | inl even ↦ rw (even, halves) (omega (arith, even))
      | inr odd ↦ rw (odd, halves) (omega (arith, odd))
    ]

-- Only a power of two has no bit in common with its predecessor.
bit_and-power :
    (bits x : ℕ)
    → 0 < x
    → x < 2 ^ bits
    → bit_and bits x (x - 1) ≡ 0
    → (k : ℕ) × (k < bits) × (x ≡ 2 ^ k)
unfolding bit_and
bit_and-power zero x pos h none_shared = absurd (omega arith)
bit_and-power (suc bits) x pos h none_shared =
    let rest : bit_and bits (x / 2) ((x - 1) / 2) ≡ 0 = omega (arith, none_shared) in
    elim (parity x) [
      | inl even ↦
          let less : (x - 1) / 2 ≡ x / 2 - 1 = omega (arith, even) in
          let (k, small, e) =
            bit_and-power bits (x / 2) (omega (arith, even)) (omega arith)
              (ap (bit_and bits (x / 2)) (sym less) ∙ rest) in
          (suc k, omega arith, omega (arith, e, even))
      | inr odd ↦
          let same : (x - 1) / 2 ≡ x / 2 = omega (arith, odd) in
          let half : x / 2 ≡ 0 =
            sym (bit_and_self bits (x / 2) (omega arith))
            ∙ ap (bit_and bits (x / 2)) (sym same)
            ∙ rest in
          (0, omega arith, omega (arith, half, odd))
    ]

double_until_lem :
    (fuel j n : ℕ)
    → j + fuel ≡ 63
    → n ≤ 2 ^ 63
    → (2 ^ j ≡ 1) ⊎ (2 ^ j < 2 * n)
    → IsRounded n (double_until fuel (2 ^ j) n)
unfolding double_until
double_until_lem zero j n e h least =
    let all : j ≡ 63 = omega arith in
    let last : 2 ^ j ≡ 2 ^ 63 = ap (λ k. 2 ^ k) all in
    (record { exponent = j; small = omega arith; is_power = refl }, omega (arith, last), least)
double_until_lem (suc fuel) j n e h least = elim (Bool-cases (ltb (2 ^ j) n)) [
  | inl below ↦
      let lt : 2 ^ j < n = ground arith in
      let twice : (2 ^ j * 2) % 2 ^ 64 ≡ 2 ^ suc j = omega arith in
      let least' : 2 ^ suc j < 2 * n = omega arith in
      rw (double_until, below, twice) (double_until_lem fuel (suc j) n (omega arith) h (inr least'))
  | inr reached ↦
      rw (double_until, reached)
        (record { exponent = j; small = omega arith; is_power = refl }, ground arith, least)
]

is_power_of_two-pos : (n : ℕ) → is_power_of_two n ≡ true → 0 < n
unfolding is_power_of_two
is_power_of_two-pos n h = ground arith

is_power_of_two_lem : (n : ℕ) → n < 2 ^ 64 → is_power_of_two n ≡ true → IsPower n
unfolding is_power_of_two
is_power_of_two_lem n h yes_power =
    let (k, small, e) = bit_and-power 64 n (ground arith) h (ground arith) in
    record { exponent = k; small = omega arith; is_power = e }

-- For a number of at most 2^63, next_power_of_two is the least power of two that is at least the
-- number.
pub next_power_of_two-IsRounded : (n : ℕ) → n ≤ 2 ^ 63 → IsRounded n (next_power_of_two n)
unfolding next_power_of_two
next_power_of_two-IsRounded n h = elim (Bool-cases (leb max_power_of_2 n)) [
  | inl most ↦
      rw most
        (record { exponent = 63; small = omega arith; is_power = refl }, h, inr (ground arith))
  | inr below ↦ elim (Bool-cases (is_power_of_two n)) [
    | inl is ↦
        rw (below, is)
          (
            is_power_of_two_lem n (omega arith) is,
            omega arith,
            inr (omega (arith, is_power_of_two-pos n is)),
          )
    | inr other ↦ rw (below, other) (double_until_lem 63 0 n (omega arith) h (inl refl))
  ]
]

power_divides : (k d : ℕ) → 2 ^ k ∣ 2 ^ (k + d)
power_divides k zero =
    let same : k ≡ k + 0 = omega arith in subst (λ n. 2 ^ k ∣ 2 ^ n) same (dvd_refl (2 ^ k))
power_divides k (suc d) =
    let more : suc (k + d) ≡ k + suc d = omega arith in
    let twice : 2 * 2 ^ (k + d) ≡ 2 ^ suc (k + d) = omega arith in
    subst (λ n. 2 ^ k ∣ 2 ^ n) more
      (subst (λ n. 2 ^ k ∣ n) twice (dvd-mul_left_of_dvd (2 ^ k) (power_divides k d) 2))

-- A position that wraps at 64 bits still names the same slot.
pub wrap_mod : (c a : ℕ) → IsPower c → a % 2 ^ 64 % c ≡ a % c
wrap_mod c a p =
    let all : p.exponent + (64 - p.exponent) ≡ 64 = omega (arith, p.small) in
    let divides : 2 ^ p.exponent ∣ 2 ^ 64 =
      subst (λ n. 2 ^ p.exponent ∣ 2 ^ n) all (power_divides p.exponent (64 - p.exponent)) in
    mod-mod_of_dvd c a (subst (λ k. k ∣ 2 ^ 64) (sym p.is_power) divides)

power_pos : (k : ℕ) → 0 < 2 ^ k
power_pos zero = omega arith
power_pos (suc k) = omega (arith, power_pos k)

pub IsPower-pos : {c : ℕ} → IsPower c → 0 < c
IsPower-pos p = omega (arith, p.is_power, power_pos p.exponent)

exponent-below : {c : ℕ} (p : IsPower c) → c < 2 ^ 63 → suc p.exponent ≤ 63
exponent-below {c} p h = elim (dec_lt p.exponent 63) [
  | yes below ↦ omega arith
  | no last ↦
      let e : p.exponent ≡ 63 = omega (arith, p.small) in
      absurd (omega (arith, p.is_power, ap (λ k. 2 ^ k) e))
]

pub double-IsPower : {c : ℕ} → IsPower c → c < 2 ^ 63 → IsPower (c * 2)
double-IsPower {c} p h = record {
  exponent = suc p.exponent;
  small = exponent-below p h;
  is_power = omega (arith, p.is_power);
}

power_le : (k d : ℕ) → 2 ^ k ≤ 2 ^ (k + d)
power_le k zero = let same : k + 0 ≡ k = omega arith in omega (arith, ap (λ n. 2 ^ n) same)
power_le k (suc d) =
    let more : k + suc d ≡ suc (k + d) = omega arith in
    omega (arith, power_le k d, ap (λ n. 2 ^ n) more)

pub IsPower-le : {c : ℕ} → IsPower c → c ≤ 2 ^ 63
IsPower-le p =
    let all : p.exponent + (63 - p.exponent) ≡ 63 = omega (arith, p.small) in
    omega (arith, p.is_power, power_le p.exponent (63 - p.exponent), ap (λ n. 2 ^ n) all)

pub IsPower-step : {c : ℕ} → IsPower c → (c ≤ 2 ^ 62) ⊎ (c ≡ 2 ^ 63)
IsPower-step p = elim (dec_lt p.exponent 63) [
  | yes below ↦
      let all : p.exponent + (62 - p.exponent) ≡ 62 = omega arith in
      inl (omega (arith, p.is_power, power_le p.exponent (62 - p.exponent), ap (λ n. 2 ^ n) all))
  | no last ↦
      let e : p.exponent ≡ 63 = omega (arith, p.small) in inr (p.is_power ∙ ap (λ k. 2 ^ k) e)
]

pub next_power_of_two-large : (n : ℕ) → 2 ^ 63 ≤ n → next_power_of_two n ≡ 2 ^ 63
unfolding next_power_of_two
next_power_of_two-large n h = let most : leb max_power_of_2 n ≡ true = ground arith in rw most refl
