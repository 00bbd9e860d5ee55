-- ===== src/Report/Csv.antt =====
-- `emit_csv_header` and `emit_csv_one` of src/format.hpp, as the items that they write one by one;
-- micron prints the numbers.
pub mod Columns
pub mod Counters
use bbench.Base.{ℕ, Bool, List, [], ◌∷◌, ◌++◌, leb, if◌then◌else◌}
use bbench.Base.Int.{ℤ}
use bbench.Base.Float.{Float}
use bbench.Base.Text.{CString, codes}
use bbench.Results.{Benchmark}
use bbench.Report.Sink.{Item, text, int, double, newline}

module _ (fl : Float) where
  unfoldable pub emit_csv_header : ℕ → ℕ → List (Item fl)
  emit_csv_header detail sep =
      let d2 : List (Item fl) =
        text (sep ∷ [])
        ∷ text (codes "page_faults")
        ∷ text (sep ∷ [])
        ∷ text (codes "bus_cycles")
        ∷ text (sep ∷ [])
        ∷ text (codes "stalled_front")
        ∷ text (sep ∷ [])
        ∷ text (codes "stalled_back")
        ∷ text (sep ∷ [])
        ∷ text (codes "dtlb_access")
        ∷ text (sep ∷ [])
        ∷ text (codes "dtlb_miss")
        ∷ text (sep ∷ [])
        ∷ text (codes "itlb_access")
        ∷ text (sep ∷ [])
        ∷ text (codes "itlb_miss")
        ∷ text (sep ∷ [])
        ∷ text (codes "l1d_miss")
        ∷ text (sep ∷ [])
        ∷ text (codes "llcache_miss")
        ∷ [] in
      let d3 : List (Item fl) =
        text (sep ∷ [])
        ∷ text (codes "l1t_miss")
        ∷ text (sep ∷ [])
        ∷ text (codes "l1d_prefetch")
        ∷ text (sep ∷ [])
        ∷ text (codes "l1d_prefetch_miss")
        ∷ text (sep ∷ [])
        ∷ text (codes "minor_faults")
        ∷ text (sep ∷ [])
        ∷ text (codes "major_faults")
        ∷ text (sep ∷ [])
        ∷ text (codes "alignment_faults")
        ∷ text (sep ∷ [])
        ∷ text (codes "emulation_faults")
        ∷ [] in
      text (codes "name")
        ∷ text (sep ∷ [])
        ∷ text (codes "time_us")
        ∷ text (sep ∷ [])
        ∷ text (codes "cycles")
        ∷ text (sep ∷ [])
        ∷ text (codes "instructions")
        ∷ text (sep ∷ [])
        ∷ text (codes "branches")
        ∷ text (sep ∷ [])
        ∷ text (codes "branch_misses")
        ∷ text (sep ∷ [])
        ∷ text (codes "total_cycles")
        ∷ text (sep ∷ [])
        ∷ text (codes "cpu_time")
        ∷ text (sep ∷ [])
        ∷ text (codes "context_switches")
        ∷ text (sep ∷ [])
        ∷ text (codes "migrations")
        ∷ text (sep ∷ [])
        ∷ text (codes "cache_misses")
        ∷ text (sep ∷ [])
        ∷ text (codes "l1_cache")
        ∷ text (sep ∷ [])
        ∷ text (codes "l1t_cache")
        ∷ text (sep ∷ [])
        ∷ text (codes "ll_cache")
        ∷ text (sep ∷ [])
        ∷ text (codes "cache_node")
        ∷ text (sep ∷ [])
        ∷ text (codes "bpu")
        ∷ []
      ++ (if leb 2 detail then d2 else [])
      ++ (if leb 3 detail then d3 else [])
      ++ newline ∷ []

  unfoldable pub emit_csv_one : Benchmark fl → ℕ → ℕ → List (Item fl)
  emit_csv_one b detail sep =
      let d2 : List (Item fl) =
        text (sep ∷ [])
        ∷ int b.page_faults
        ∷ text (sep ∷ [])
        ∷ int b.bus_cycles
        ∷ text (sep ∷ [])
        ∷ int b.stalled_front
        ∷ text (sep ∷ [])
        ∷ int b.stalled_back
        ∷ text (sep ∷ [])
        ∷ int b.dtlb_access
        ∷ text (sep ∷ [])
        ∷ int b.dtlb_miss
        ∷ text (sep ∷ [])
        ∷ int b.itlb_access
        ∷ text (sep ∷ [])
        ∷ int b.itlb_miss
        ∷ text (sep ∷ [])
        ∷ int b.l1d_miss
        ∷ text (sep ∷ [])
        ∷ int b.llcache_miss
        ∷ [] in
      let d3 : List (Item fl) =
        text (sep ∷ [])
        ∷ int b.l1t_miss
        ∷ text (sep ∷ [])
        ∷ int b.l1d_prefetch
        ∷ text (sep ∷ [])
        ∷ int b.l1d_prefetch_miss
        ∷ text (sep ∷ [])
        ∷ int b.minor_faults
        ∷ text (sep ∷ [])
        ∷ int b.major_faults
        ∷ text (sep ∷ [])
        ∷ int b.alignment_faults
        ∷ text (sep ∷ [])
        ∷ int b.emulation_faults
        ∷ [] in
      text b.name
        ∷ text (sep ∷ [])
        ∷ double b.time
        ∷ text (sep ∷ [])
        ∷ int b.cycles
        ∷ text (sep ∷ [])
        ∷ int b.instructions
        ∷ text (sep ∷ [])
        ∷ int b.total_branches
        ∷ text (sep ∷ [])
        ∷ int b.branch_misses
        ∷ text (sep ∷ [])
        ∷ int b.total_cycles
        ∷ text (sep ∷ [])
        ∷ int b.cpu_time
        ∷ text (sep ∷ [])
        ∷ int b.context_switches
        ∷ text (sep ∷ [])
        ∷ int b.migrations
        ∷ text (sep ∷ [])
        ∷ int b.cache_misses
        ∷ text (sep ∷ [])
        ∷ int b.l1_cache
        ∷ text (sep ∷ [])
        ∷ int b.l1t_cache
        ∷ text (sep ∷ [])
        ∷ int b.ll_cache
        ∷ text (sep ∷ [])
        ∷ int b.access
        ∷ text (sep ∷ [])
        ∷ int b.bpu
        ∷ []
      ++ (if leb 2 detail then d2 else [])
      ++ (if leb 3 detail then d3 else [])
      ++ newline ∷ []
