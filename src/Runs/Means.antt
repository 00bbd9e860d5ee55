-- ===== src/Runs/Means.antt =====
-- What `collapse_runs` of tools/bbench.cpp gives: the means over the runs.
use mathlib.Core.Path.{ap₂}
use bbench.Base.{sym, ◌≡◌, refl, ◌∙◌, List, [], ◌∷◌, map, length}
use bbench.Base.Int.{ℤ, pos, ◌+ℤ◌, div_ℤ}
use bbench.Base.Float.{Float}
use bbench.Results.{Benchmark}
use bbench.Results.Fields.{Field, get_field}
use bbench.Runs.{sum_int, avg_int, sum_double, avg_double, average, collapse_runs}

-- The sum of a list, from `sum` on.
abbrev pub total {ℓ} : {A : Type ℓ} → (A → A → A) → A → List A → A
total plus sum [] = sum
total plus sum (x ∷ xs) = total plus (plus sum x) xs

module _ (fl : Float) where
  open fl use {of_ℕ, add, div}

  sum_int-total :
      (v : List (Benchmark fl)) (f : Benchmark fl → ℤ) (sum : ℤ)
      → sum_int fl v f sum ≡ total (λ x y. x +ℤ y) sum (map f v)
  unfolding sum_int
  sum_int-total [] f sum = refl
  sum_int-total (b ∷ v) f sum = sum_int-total v f (sum +ℤ f b)

  sum_double-total :
      (v : List (Benchmark fl)) (f : Benchmark fl → fl.Double) (sum : fl.Double)
      → sum_double fl v f sum ≡ total add sum (map f v)
  unfolding sum_double
  sum_double-total [] f sum = refl
  sum_double-total (b ∷ v) f sum = sum_double-total v f (add sum (f b))

  -- The mean of some counter, cut to an integer; `long long` wraps.
  abbrev pub mean_int : List ℤ → ℤ
  mean_int xs = div_ℤ (total (λ x y. x +ℤ y) (pos 0) xs) (length xs)

  abbrev pub mean_double : List fl.Double → fl.Double
  mean_double xs = div (total add (of_ℕ 0) xs) (of_ℕ (length xs))

  -- `b` bears the name of the first run, and its time and each of its counters is the mean over the
  -- runs. Of no run nothing is asked.
  abbrev pub IsMean : List (Benchmark fl) → Benchmark fl → Type 0
  IsMean [] b = Unit
  IsMean (first ∷ rest) b =
      let runs = first ∷ rest in
      (b.name ≡ first.name)
      × (b.time ≡ mean_double (map (λ r. r.time) runs))
      × ((f : Field) → get_field f b ≡ mean_int (map (get_field f) runs))

  length-map :
      {B : Type 0} (f : Benchmark fl → B) (v : List (Benchmark fl)) → length (map f v) ≡ length v
  length-map f [] = refl
  length-map f (b ∷ v) = rw (length-map f v)

  avg_int-mean_int :
      (v : List (Benchmark fl)) (f : Benchmark fl → ℤ) → avg_int fl v f ≡ mean_int (map f v)
  unfolding avg_int
  avg_int-mean_int v f = rw (sum_int-total v f (pos 0), length-map f v)

  avg_double-mean_double :
      (v : List (Benchmark fl)) (f : Benchmark fl → fl.Double)
      → avg_double fl v f ≡ mean_double (map f v)
  unfolding avg_double
  avg_double-mean_double v f =
      ap₂ (λ sum n. div sum (of_ℕ n)) (sum_double-total v f (of_ℕ 0)) (sym (length-map f v))

  get_field-average :
      (first : Benchmark fl) (runs : List (Benchmark fl)) (f : Field)
      → get_field f (average fl first runs) ≡ avg_int fl runs (get_field f)
  unfolding average
  get_field-average first runs Field.cycles = refl
  get_field-average first runs _ = refl

  -- The averages of the runs of a program.
  pub collapse_runs-IsMean : (runs : List (Benchmark fl)) → IsMean runs (collapse_runs fl runs)
  unfolding collapse_runs average
  collapse_runs-IsMean [] = tt
  collapse_runs-IsMean (first ∷ rest) =
      let runs = first ∷ rest in
      (
        refl,
        avg_double-mean_double runs (λ r. r.time),
        λ f. get_field-average first runs f ∙ avg_int-mean_int runs (get_field f),
      )
