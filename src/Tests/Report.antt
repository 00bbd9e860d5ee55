-- ===== src/Tests/Report.antt =====
-- The CSV report and the statistics.
use bbench.Base.{ℕ, ◌≡◌, refl, false, List, [], ◌∷◌, map, All, arith, length}
use bbench.Base.Text.{codes}
use bbench.Results.{Benchmark, empty_benchmark}
use bbench.Report.Sink.{text}
use bbench.Report.Csv.{emit_csv_header, emit_csv_one}
use bbench.Report.Csv.Columns.{columns, line, emit_csv_one-columns}
use bbench.Report.Stats.{compute_stats, sums_loop, deviation, squares_loop, newton}
use bbench.Report.Stats.Extremes.{IsValue, compute_stats-IsValue}
use bbench.Base.{ltb}
use bbench.Tests.Machine.{plain_float}

abbrev measured : Benchmark plain_float
measured = record (empty_benchmark plain_float) { name = codes "ls"; time = 7 }

-- 16 columns, then 10 and 7 more, with a separator between each two and the end of the line.
widths :
    (length (emit_csv_header plain_float 1 b',') ≡ 32)
    × (length (emit_csv_one plain_float measured 2 b',') ≡ 52)
    × (length (emit_csv_header plain_float 3 b',') ≡ 66)
unfolding emit_csv_header emit_csv_one
widths = (refl, refl, refl)

emit_csv_one-columns_example :
    (emit_csv_header plain_float 3 b','
      ≡ line plain_float b',' (map (λ c. text c.title) (columns plain_float 3)))
    × (emit_csv_one plain_float measured 3 b','
        ≡ line plain_float b',' (map (λ c. c.value measured) (columns plain_float 3)))
emit_csv_one-columns_example = emit_csv_one-columns plain_float 3 b',' measured

statistics :
    compute_stats plain_float (λ n. n) (5 ∷ 2 ∷ 8 ∷ [])
    ≡ record { mean = 5; stddev = 0; mn = 2; mx = 8 }
unfolding compute_stats sums_loop deviation squares_loop newton
statistics = refl

compute_stats-IsValue_example :
    let runs : List ℕ = 5 ∷ 2 ∷ 8 ∷ [] in
    let s = compute_stats plain_float (λ n. n) runs in
    (All (λ a. ltb a s.mn ≡ false) runs × IsValue ltb (λ n. n) s.mn runs)
    × (All (λ a. ltb s.mx a ≡ false) runs × IsValue ltb (λ n. n) s.mx runs)
compute_stats-IsValue_example =
    compute_stats-IsValue plain_float (λ n. n) (λ a. ground arith) (λ a b c h k. ground arith) 5
      (2 ∷ 8 ∷ [])
