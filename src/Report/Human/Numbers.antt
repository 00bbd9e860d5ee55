-- ===== src/Report/Human/Numbers.antt =====
-- The numbers of the two reports on a program.
use bbench.Base.{ℕ, ◌≡◌, Bool, true, false, inl, inr, List, [], ◌∷◌, leb, Bool-cases}
use bbench.Base.Int.{pos}
use bbench.Base.Float.{Float}
use bbench.Results.{Benchmark}
use bbench.Report.Sink.{Item, text, sized, int, double, newline}
use bbench.Report.Csv.{emit_csv_one}
use bbench.Report.Human.{emit_human_one}

module _ {fl : Float} where
  -- The numbers among the items, in their order.
  abbrev pub numbers : List (Item fl) → List (Item fl)
  numbers [] = []
  numbers (text s ∷ items) = numbers items
  numbers (sized s n ∷ items) = numbers items
  numbers (int v ∷ items) = int v ∷ numbers items
  numbers (double v ∷ items) = double v ∷ numbers items
  numbers (newline ∷ items) = numbers items

-- At every level of detail, in colour or not, the report for a reader shows the number of runs and
-- then the numbers of the CSV row of the same result, all of them and in the same order.
pub emit_human_one-numbers :
    (fl : Float) (b : Benchmark fl) (detail n_runs sep : ℕ) (color : Bool)
    → numbers (emit_human_one fl b detail color n_runs)
      ≡ int (pos n_runs) ∷ numbers (emit_csv_one fl b detail sep)
unfolding emit_human_one emit_csv_one
emit_human_one-numbers fl b detail n_runs sep true = elim (Bool-cases (leb 2 detail)) [
  | inl two ↦ elim (Bool-cases (leb 3 detail)) [
    | inl three ↦ rw (two, three)
    | inr below ↦ rw (two, below)
  ]
  | inr one ↦ elim (Bool-cases (leb 3 detail)) [
    | inl three ↦ rw (one, three)
    | inr below ↦ rw (one, below)
  ]
]
emit_human_one-numbers fl b detail n_runs sep false = elim (Bool-cases (leb 2 detail)) [
  | inl two ↦ elim (Bool-cases (leb 3 detail)) [
    | inl three ↦ rw (two, three)
    | inr below ↦ rw (two, below)
  ]
  | inr one ↦ elim (Bool-cases (leb 3 detail)) [
    | inl three ↦ rw (one, three)
    | inr below ↦ rw (one, below)
  ]
]
