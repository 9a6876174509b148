-- ===== src/Platform/Doubles.antt =====
-- `double`, as the operations that the benchmarks apply to it.
use logger_benchmarks.Prelude.{ℕ, ◌*◌, ◌^◌, ◌≤◌, ◌<◌, ◌≡◌, ◌↔◌, Bool, false, Bytes}

pub record Doubles : Type 1 where
  pub Double : Type 0
  pub of_nat : ℕ → Double  -- static_cast<double> of an unsigned integer
  pub decimal : ℕ → ℕ → Double  -- `decimal n k` is the literal n / 10 ^ k
  pub add : Double → Double → Double
  pub mul : Double → Double → Double
  pub div : Double → Double → Double
  pub less : Double → Double → Bool
  pub ceil : Double → Double  -- std::ceil
  pub to_u64 : Double → ℕ  -- static_cast<uint64_t>, and <size_t>
  pub print : Double → Bytes  -- operator<<
  pub print_fixed : ℕ → Double → Bytes  -- fmt's {:.kf}

-- IEEE 754: literals, products with a fixed count and `ceil` are rounded monotonically.
pub record IsMonotone (F : Doubles) : Type 0 where
  pub ranks_mono :
      (n a b k l : ℕ)
      → n < 2 ^ 53
      → a * 10 ^ l ≤ b * 10 ^ k
      → b ≤ 10 ^ l
      → F.to_u64 (F.ceil (F.mul (F.of_nat n) (F.decimal a k)))
        ≤ F.to_u64 (F.ceil (F.mul (F.of_nat n) (F.decimal b l)))

-- IEEE 754: `ceil` of the product of a count below 2^53 with a literal between 0 and 1 is the least whole
-- number that is not less than the product, and the product is not larger than the count.
pub record IsCeiling (F : Doubles) : Type 0 where
  pub least_rank :
      (n a k l : ℕ)
      → n < 2 ^ 53
      → a ≤ 10 ^ k
      → l < 2 ^ 53
      → (F.less (F.of_nat l) (F.mul (F.of_nat n) (F.decimal a k)) ≡ false)
        ↔ (F.to_u64 (F.ceil (F.mul (F.of_nat n) (F.decimal a k))) ≤ l)
  pub product_le :
      (n a k : ℕ)
      → n < 2 ^ 53
      → a ≤ 10 ^ k
      → F.less (F.of_nat n) (F.mul (F.of_nat n) (F.decimal a k)) ≡ false
