-- ===== src/Btime/Layout.antt =====
-- How the report of tools/btime.cpp is laid out, by lines and labels.
use mathlib.Core.List.{append-nil}
use bbench.Base.{
  ℕ, ◌+◌, ◌≡◌, refl, inl, inr, Bool, true, false, List, [], ◌∷◌, ◌++◌, map, length, ◌==◌, ltb,
  if◌then◌else◌, Bool-cases, arith,
}
use bbench.Base.Int.{pos}
use bbench.Base.Float.{Float}
use bbench.Base.Text.{CString, codes}
use bbench.Report.Sink.{Item, text, int, double, newline}
use bbench.Report.Stats.{Stats, compute_stats}
use bbench.Report.Csv.Columns.{line}
use bbench.Btime.{Settings, csv_rows, csv_report, single_report, summary, report}

module _ (fl : Float) where
  open fl use {Double}

  -- Lines with a number, from `i` on, and a time.
  abbrev pub numbered : ℕ → ℕ → List Double → List (Item fl)
  numbered sep i [] = []
  numbered sep i (t ∷ times) =
      line fl sep (int (pos i) ∷ double t ∷ []) ++ numbered sep (i + 1) times

  -- A label in front of each number.
  abbrev pub labelled : List CString → List Double → List (Item fl)
  labelled [] xs = []
  labelled (l ∷ ls) [] = []
  labelled (l ∷ ls) (x ∷ xs) = text l ∷ double x ∷ labelled ls xs

  -- A line for each label, with the number that belongs to it.
  abbrev pub labelled_lines : ℕ → List CString → List Double → List (Item fl)
  labelled_lines sep [] xs = []
  labelled_lines sep (l ∷ ls) [] = []
  labelled_lines sep (l ∷ ls) (x ∷ xs) =
      line fl sep (text l ∷ double x ∷ []) ++ labelled_lines sep ls xs

  -- Mean, standard deviation, least and greatest time, in this order.
  abbrev pub figures : Stats fl → List Double
  figures st = st.mean ∷ st.stddev ∷ st.mn ∷ st.mx ∷ []

  abbrev pub csv_layout : Bool → ℕ → List Double → List Double → List (Item fl)
  csv_layout true sep times numbers = numbered sep 1 times
  csv_layout false sep times numbers =
      line fl sep (text (codes "run") ∷ text (codes "time_us") ∷ [])
      ++ numbered sep 1 times
      ++ labelled_lines sep (codes "mean" ∷ codes "stddev" ∷ codes "min" ∷ codes "max" ∷ []) numbers

  abbrev pub human_layout : Bool → List Double → List (Item fl)
  human_layout true numbers = line fl b' ' (map double numbers)
  human_layout false numbers =
      labelled (codes "time(us): mean=" ∷ codes "  stddev=" ∷ codes "  min=" ∷ codes "  max=" ∷ [])
        numbers
      ++ newline ∷ []

  -- One time has no statistics.
  abbrev pub layout : Settings → List Double → List Double → List (Item fl)
  layout s [] numbers = []
  layout s (t ∷ []) numbers =
      if s.csv_sep == 0
      then (if s.quiet then [] else text (codes "time(us): ") ∷ []) ++ line fl 0 (double t ∷ [])
      else csv_layout s.quiet s.csv_sep (t ∷ []) []
  layout s (t ∷ u ∷ times) numbers =
      if s.csv_sep == 0
      then human_layout s.quiet numbers
      else csv_layout s.quiet s.csv_sep (t ∷ u ∷ times) numbers

  csv_rows-numbered :
      (sep i : ℕ) (times : List Double) → csv_rows fl sep i times ≡ numbered sep (i + 1) times
  unfolding csv_rows
  csv_rows-numbered sep i [] = refl
  csv_rows-numbered sep i (t ∷ times) = rw (csv_rows-numbered sep (i + 1) times)

  summary-layout :
      (s : Settings) (times : List Double)
      → summary fl s times ≡ human_layout s.quiet (figures (compute_stats fl (λ t. t) times))
  unfolding summary
  summary-layout s times = elim (Bool-cases s.quiet) [
    | inl silent ↦ rw silent
    | inr labels ↦ rw labels
  ]

  -- The report on at least one time, `n_runs` of them.
  pub report-layout :
      (s : Settings) (t : Double) (times : List Double)
      → length (t ∷ times) ≡ s.n_runs
      → report fl s (t ∷ times)
        ≡ layout s (t ∷ times) (figures (compute_stats fl (λ x. x) (t ∷ times)))
  unfolding report csv_report single_report
  report-layout s t [] h =
      let once : (s.n_runs == 1) ≡ true = ground arith in
      elim (Bool-cases (s.csv_sep == 0)) [
        | inl human ↦ elim (Bool-cases s.quiet) [
          | inl silent ↦ rw (human, once, silent)
          | inr labels ↦ rw (human, once, labels)
        ]
        | inr csv ↦ elim (Bool-cases s.quiet) [
          | inl silent ↦ rw (csv, silent, csv_rows-numbered s.csv_sep 0 (t ∷ []))
          | inr labels ↦ rw (csv, labels, csv_rows-numbered s.csv_sep 0 (t ∷ []))
        ]
      ]
  report-layout s t (u ∷ times) h =
      let often : (s.n_runs == 1) ≡ false = ground arith in
      let many : ltb 1 (length (t ∷ u ∷ times)) ≡ true = ground arith in
      elim (Bool-cases (s.csv_sep == 0)) [
        | inl human ↦ rw (human, often) (summary-layout s (t ∷ u ∷ times))
        | inr csv ↦ elim (Bool-cases s.quiet) [
          | inl silent ↦
              rw (csv, silent, csv_rows-numbered s.csv_sep 0 (t ∷ u ∷ times)) (append-nil _)
          | inr labels ↦ rw (csv, labels, many, csv_rows-numbered s.csv_sep 0 (t ∷ u ∷ times))
        ]
      ]
