-- ===== src/Report/Stats.antt =====
-- `stats_t` and `compute_stats` of src/format.hpp.
pub mod Extremes
use bbench.Base.{ℕ, zero, suc, ◌-◌, Bool, List, [], ◌∷◌, length, ltb, if◌then◌else◌}
use bbench.Base.Float.{Float}

module _ (fl : Float) where
  open fl use {Double, of_ℕ, half, add, sub, mul, div, less}

  pub record Stats : Type 0 where
    pub mean : Double
    pub stddev : Double
    pub mn : Double
    pub mx : Double

  -- The three accumulators of the first loop.
  pub record Sums : Type 0 where
    pub sum : Double
    pub least : Double
    pub greatest : Double

  -- `for ( int i = 0; i < 12; ++i ) r = 0.5 * (r + x / r);`
  unfoldable pub newton : ℕ → Double → Double → Double
  newton zero x r = r
  newton (suc i) x r = newton i x (mul half (add r (div x r)))

  module _ {ℓ} {A : Type ℓ} (field_accessor : A → Double) where
    unfoldable pub sums_loop : List A → Sums → Sums
    sums_loop [] s = s
    sums_loop (r ∷ runs) s =
        let v = field_accessor r in
        sums_loop runs (record {
          sum = add s.sum v;
          least = if less v s.least then v else s.least;
          greatest = if less s.greatest v then v else s.greatest;
        })

    -- The second loop.
    unfoldable pub squares_loop : Double → List A → Double → Double
    squares_loop mean [] sq = sq
    squares_loop mean (r ∷ runs) sq =
        let d = sub (field_accessor r) mean in squares_loop mean runs (add sq (mul d d))

    -- `if ( runs.size() > 1 ) { … }`, from 0.
    unfoldable pub deviation : Double → List A → Double
    deviation mean runs =
        let s = div (squares_loop mean runs (of_ℕ 0)) (of_ℕ (length runs - 1)) in
        let x = if less (of_ℕ 0) s then s else of_ℕ 0 in
        if ltb 1 (length runs) then (if less (of_ℕ 0) x then newton 12 x x else s) else of_ℕ 0

    unfoldable pub compute_stats : List A → Stats
    compute_stats [] = record { mean = of_ℕ 0; stddev = of_ℕ 0; mn = of_ℕ 0; mx = of_ℕ 0 }
    compute_stats (first ∷ rest) =
        let runs = first ∷ rest in
        let v = field_accessor first in
        let s = sums_loop runs (record { sum = of_ℕ 0; least = v; greatest = v }) in
        let mean = div s.sum (of_ℕ (length runs)) in
        record { mean = mean; stddev = deviation mean runs; mn = s.least; mx = s.greatest }
