-- ===== src/Report/Human.antt =====
-- `emit_human_one` and `emit_table` of src/format.hpp.
pub mod Numbers
use bbench.Base.{ℕ, Bool, List, [], ◌∷◌, ◌++◌, leb, if◌then◌else◌}
use bbench.Base.Int.{ℤ, pos}
use bbench.Base.Float.{Float}
use bbench.Base.Text.{CString, codes}
use bbench.Results.{Benchmark}
use bbench.Report.Sink.{Item, text, int, double, newline}
use bbench.Report.Stats.{compute_stats}

module _ (fl : Float) where
  open fl use {Double, of_ℕ, sub, less_equal}

  -- `if ( color ) out.emit("\033[34m", 5);`
  abbrev pub blue : Bool → List (Item fl)
  blue color = if color then text (27 ∷ codes "[34m") ∷ [] else []

  -- `if ( color ) out.emit("\033[0m", 4);`
  abbrev pub plain : Bool → List (Item fl)
  plain color = if color then text (27 ∷ codes "[0m") ∷ [] else []

  -- `__emit_row`
  abbrev pub emit_row : CString → ℤ → Bool → List (Item fl)
  emit_row label v color = blue color ++ text label ∷ (plain color ++ int v ∷ newline ∷ [])

  unfoldable pub emit_human_one : Benchmark fl → ℕ → Bool → ℕ → List (Item fl)
  emit_human_one b detail color n_runs =
      let d2 : List (Item fl) =
        emit_row (codes "Page Faults:          ") b.page_faults color
        ++ emit_row (codes "Bus Cycles:           ") b.bus_cycles color
        ++ emit_row (codes "Stalled Frontend:     ") b.stalled_front color
        ++ emit_row (codes "Stalled Backend:      ") b.stalled_back color
        ++ emit_row (codes "dTLB Loads:           ") b.dtlb_access color
        ++ emit_row (codes "dTLB Load Misses:     ") b.dtlb_miss color
        ++ emit_row (codes "iTLB Loads:           ") b.itlb_access color
        ++ emit_row (codes "iTLB Load Misses:     ") b.itlb_miss color
        ++ emit_row (codes "L1d Load Misses:      ") b.l1d_miss color
        ++ emit_row (codes "LLC Load Misses:      ") b.llcache_miss color in
      let d3 : List (Item fl) =
        emit_row (codes "L1i Load Misses:      ") b.l1t_miss color
        ++ emit_row (codes "L1d Prefetches:       ") b.l1d_prefetch color
        ++ emit_row (codes "L1d Prefetch Misses:  ") b.l1d_prefetch_miss color
        ++ emit_row (codes "Minor Faults:         ") b.minor_faults color
        ++ emit_row (codes "Major Faults:         ") b.major_faults color
        ++ emit_row (codes "Alignment Faults:     ") b.alignment_faults color
        ++ emit_row (codes "Emulation Faults:     ") b.emulation_faults color in
      blue color
      ++ text (codes "Attempted ")
        ∷ int (pos n_runs)
        ∷ text (codes " runs")
        ∷ (plain color ++ newline ∷ [])
      ++ (blue color ++ text (codes "Results for: ") ∷ plain color)
      ++ (text b.name ∷ newline ∷ [])
      ++ (blue color ++ text (codes "Total time elapsed:   ") ∷ plain color)
      ++ (double b.time ∷ text (codes " microseconds") ∷ newline ∷ [])
      ++ emit_row (codes "Cycles Spent:         ") b.cycles color
      ++ emit_row (codes "Total Instructions:   ") b.instructions color
      ++ emit_row (codes "Total Branches:       ") b.total_branches color
      ++ emit_row (codes "Branch Misses:        ") b.branch_misses color
      ++ emit_row (codes "Total CPU Cycles:     ") b.total_cycles color
      ++ emit_row (codes "Total CPU Time Spent: ") b.cpu_time color
      ++ emit_row (codes "Context Switches:     ") b.context_switches color
      ++ emit_row (codes "Core Migrations:      ") b.migrations color
      ++ emit_row (codes "Cache Misses:         ") b.cache_misses color
      ++ emit_row (codes "L1 Cache:             ") b.l1_cache color
      ++ emit_row (codes "L1T Cache:            ") b.l1t_cache color
      ++ emit_row (codes "Last Level Cache:     ") b.ll_cache color
      ++ emit_row (codes "Cache Accesses:       ") b.access color
      ++ emit_row (codes "Branch Predictions:   ") b.bpu color
      ++ (if leb 2 detail then d2 else [])
      ++ (if leb 3 detail then d3 else [])

  -- The loop of `emit_table`.
  unfoldable pub table_rows : Double → List (Benchmark fl) → List (Item fl)
  table_rows mean [] = []
  table_rows mean (r ∷ runs) =
      let dev = sub r.time mean in
      text (codes "  ")
        ∷ double r.time
        ∷ text (codes "  (")
        ∷ (if less_equal (of_ℕ 0) dev then text (codes "+") ∷ [] else [])
      ++ (double dev ∷ text (codes ")\n") ∷ [])
      ++ table_rows mean runs

  unfoldable pub emit_table : List (Benchmark fl) → List (Item fl)
  emit_table [] = []
  emit_table (first ∷ rest) =
      let runs = first ∷ rest in
      let s = compute_stats fl (λ b. b.time) runs in
      text (codes "# Table of individual time measurements (us):\n") ∷ table_rows s.mean runs
      ++ (text (codes "# Final: mean=")
          ∷ double s.mean
          ∷ text (codes " stddev=")
          ∷ double s.stddev
          ∷ text (codes " min=")
          ∷ double s.mn
          ∷ text (codes " max=")
          ∷ double s.mx
          ∷ newline
          ∷ [])
