-- ===== src/Base/Float.antt =====
-- `double`: the type and the operations that the sources use, with no law of their own.
use bbench.Base.{ℕ, Bool}
use bbench.Base.Int.{ℤ}

pub record Float : Type 1 where
  pub Double : Type 0
  -- The conversions from an unsigned and from a signed integer, and the cast to `long long`.
  pub of_ℕ : ℕ → Double
  pub of_ℤ : ℤ → Double
  pub to_i64 : Double → ℤ
  pub half : Double
  pub tenth : Double
  pub negate : Double → Double
  pub add : Double → Double → Double
  pub sub : Double → Double → Double
  pub mul : Double → Double → Double
  pub div : Double → Double → Double
  pub less : Double → Double → Bool
  pub less_equal : Double → Double → Bool
