-- ===== src/Examples/Instances.antt =====
-- What the examples run on: fractions for `double`, a linear congruential engine for `std::mt19937`, and
-- a machine whose clocks advance.
use native.Mathlib.Nat.{
  div-lt_iff_lt-mul, le_of_mul-le-mul_right, mul-le-mul_left, mul-le-mul_right, one-le-pow, mod-lt,
  lt-div-mul-add, mul_assoc, mul_right_comm, one-mul, mul-one, div-one, add-mul,
}
use logger_benchmarks.Prelude.{
  ℕ, ◌+◌, ◌-◌, ◌*◌, ◌/◌, ◌%◌, ◌^◌, ◌≤◌, ◌<◌, refl, arith, true, ltb, codes, ◌++◌, Bytes, [], ◌∷◌,
  zero, suc,
}
use logger_benchmarks.Prelude.Decimal.{to_string}
use logger_benchmarks.Platform.Doubles.{Doubles, IsMonotone, IsCeiling}
use logger_benchmarks.Platform.Random.{Random, DrawsInRange}
use logger_benchmarks.CallSite.Producer.{Readings, Advances}
use logger_benchmarks.CallSite.Run.{Machine, IsReady}

-- the first `k` decimals of the fraction r / b, which is less than one
abbrev decimals : ℕ → ℕ → ℕ → Bytes
decimals zero r b = []
decimals (suc k) r b = (b'0' + r * 10 / b) ∷ decimals k (r * 10 % b) b

-- `(a, b)` is the fraction a / b, which is printed cut off.
abbrev pub fractions : Doubles
fractions = record {
  Double = ℕ × ℕ;
  of_nat = λ n. (n, 1);
  decimal = λ n k. (n, 10 ^ k);
  add = λ x y. (x.0 * y.1 + y.0 * x.1, x.1 * y.1);
  mul = λ x y. (x.0 * y.0, x.1 * y.1);
  div = λ x y. (x.0 * y.1, x.1 * y.0);
  less = λ x y. ltb (x.0 * y.1) (y.0 * x.1);
  ceil = λ x. ((x.0 + x.1 - 1) / x.1, 1);
  to_u64 = λ x. x.0 / x.1;
  print = λ x. to_string x.0 ++ (codes "/" ++ to_string x.1);
  print_fixed = λ k x. to_string (x.0 / x.1) ++ (codes "." ++ decimals k (x.0 % x.1) x.1);
}

-- A fraction is rounded up to `q` at most if it is at most `q`, and to no less than itself.
ceil-le : (x k q : ℕ) → 0 < k → x ≤ q * k → (x + k - 1) / k ≤ q
ceil-le x k q pos h =
    let below : x + k - 1 < (q + 1) * k = omega (arith, add-mul q 1 k) in
    omega (arith, (div-lt_iff_lt-mul {k = k} {x = x + k - 1} {y = q + 1} pos).1 below)

le-ceil : (x k : ℕ) → 0 < k → x ≤ (x + k - 1) / k * k
le-ceil x k pos = omega (arith, lt-div-mul-add {a = x + k - 1} {b = k} pos)

ceil_mono :
    (n a b k l : ℕ) → 0 < k → 0 < l → a * l ≤ b * k → (n * a + k - 1) / k ≤ (n * b + l - 1) / l
ceil_mono n a b k l pos pos' h =
    let q = (n * b + l - 1) / l in
    let scaled : n * a * l ≤ q * k * l = omega (
      arith,
      mul_assoc n a l,
      mul-le-mul_left n h,
      mul_assoc n b k,
      mul-le-mul_right k (le-ceil (n * b) l pos'),
      mul_right_comm q l k,
    ) in
    ceil-le (n * a) k q pos (le_of_mul-le-mul_right scaled pos')

pub fractions-IsMonotone : IsMonotone fractions
fractions-IsMonotone = record {
  ranks_mono = λ n a b k l few le one.
      simp (one-mul, div-one)
        (ceil_mono n a b (10 ^ k) (10 ^ l) (one-le-pow k 10 (omega arith))
          (one-le-pow l 10 (omega arith)) le);
}

pub fractions-IsCeiling : IsCeiling fractions
fractions-IsCeiling = record {
  least_rank = λ n a k l few le small.
      let d = one-le-pow k 10 (omega arith) in
      let up = le-ceil (n * a) (10 ^ k) d in
      simp (one-mul, mul-one, div-one, mul-one)
        (
          (λ h. ceil-le (n * a) (10 ^ k) l d (ground arith)),
          (λ h. let scaled = mul-le-mul_right (10 ^ k) h in ground arith),
        );
  product_le =
      λ n a k few le. let scaled = mul-le-mul_left n le in simp (one-mul, mul-one) (ground arith);
}

abbrev pub lcg : Random
lcg = record {
  Engine = ℕ;
  seed = λ n. n;
  uniform = λ lo hi g. (lo + g % (hi - lo + 1), (g * 1_103_515_245 + 12_345) % 2 ^ 31);
}

pub lcg-DrawsInRange : DrawsInRange lcg
lcg-DrawsInRange = record {
  in_range = λ lo hi g le.
      let small = mod-lt g {m = hi - lo + 1} (omega arith) in (omega arith, omega (arith, small));
}

-- The counter of a thread runs at 3 GHz and more, by thread.
abbrev pub readings : ℕ → Readings
readings i = record { tsc = λ k. (3_000 + i) * k; clock = λ k. 11_000_000 * k; fuel = 2 }

abbrev pub machine : Machine
machine = record { allowed = λ cpu. true; readings = readings }

pub readings-Advances : (i : ℕ) → Advances (readings i)
readings-Advances i k = omega arith

pub machine-IsReady : (n : ℕ) → IsReady machine n
machine-IsReady n = record {
  cpus = λ cpu le. refl;
  advances = readings-Advances;
  calibrates = λ k. omega arith;
}
