-- ===== src/Bench/Collect.antt =====
-- The groups of counters of src/bench.hpp for the levels of detail, and `collect`.
pub mod Fields
use bbench.Base.{ℕ, List, [], ◌∷◌, Option, none, some, ◌==◌, if◌then◌else◌}
use bbench.Base.Int.{ℤ}
use bbench.Base.Float.{Float}
use bbench.Base.Text.{CString}
use bbench.Perf.Sys.{Os, World}
use bbench.Perf.KernelClock.{read_scaled}
use bbench.Clock.Kinds.{EventKind}
use bbench.Clock.Kinds
use bbench.Clock.Group.{Member, get}
use bbench.Results.{Benchmark, empty_benchmark}
use bbench.Results.Fields.{Field, set_field}

abbrev pub event_group_d1 : List EventKind
event_group_d1 =
    Kinds.hardware_cycles ∷ Kinds.hardware_instructions ∷ Kinds.cache_misses ∷ Kinds.branches
    ∷ Kinds.branch_misses ∷ Kinds.total_cycles ∷ Kinds.cpu_time ∷ Kinds.context_switches
    ∷ Kinds.proc_migrations ∷ Kinds.level1d ∷ Kinds.level1t ∷ Kinds.llcache ∷ Kinds.cache_node
    ∷ Kinds.bpu ∷ []

abbrev pub event_group_d2 : List EventKind
event_group_d2 =
    Kinds.hardware_cycles ∷ Kinds.hardware_instructions ∷ Kinds.cache_misses ∷ Kinds.branches
    ∷ Kinds.branch_misses ∷ Kinds.total_cycles ∷ Kinds.cpu_time ∷ Kinds.context_switches
    ∷ Kinds.proc_migrations ∷ Kinds.level1d ∷ Kinds.level1t ∷ Kinds.llcache ∷ Kinds.cache_node
    ∷ Kinds.bpu ∷ Kinds.page_faults ∷ Kinds.bus_cycles_e ∷ Kinds.stalled_front ∷ Kinds.stalled_back
    ∷ Kinds.dtlb_access ∷ Kinds.dtlb_miss ∷ Kinds.itlb_access ∷ Kinds.itlb_miss ∷ Kinds.level1d_miss
    ∷ Kinds.llcache_miss ∷ []

abbrev pub event_group_d3 : List EventKind
event_group_d3 =
    Kinds.hardware_cycles ∷ Kinds.hardware_instructions ∷ Kinds.cache_misses ∷ Kinds.branches
    ∷ Kinds.branch_misses ∷ Kinds.total_cycles ∷ Kinds.cpu_time ∷ Kinds.context_switches
    ∷ Kinds.proc_migrations ∷ Kinds.level1d ∷ Kinds.level1t ∷ Kinds.llcache ∷ Kinds.cache_node
    ∷ Kinds.bpu ∷ Kinds.page_faults ∷ Kinds.bus_cycles_e ∷ Kinds.stalled_front ∷ Kinds.stalled_back
    ∷ Kinds.dtlb_access ∷ Kinds.dtlb_miss ∷ Kinds.itlb_access ∷ Kinds.itlb_miss ∷ Kinds.level1d_miss
    ∷ Kinds.llcache_miss ∷ Kinds.level1t_miss ∷ Kinds.l1d_prefetch ∷ Kinds.l1d_prefetch_miss
    ∷ Kinds.minor_faults ∷ Kinds.major_faults ∷ Kinds.alignment_faults ∷ Kinds.emulation_faults ∷ []

-- The assignments of `collect` in order: the counter, and the field that takes its value.
abbrev pub assignments : List (EventKind × Field)
assignments =
    (Kinds.hardware_cycles, Field.cycles)
    ∷ (Kinds.hardware_instructions, Field.instructions)
    ∷ (Kinds.cache_misses, Field.cache_misses)
    ∷ (Kinds.branches, Field.total_branches)
    ∷ (Kinds.branch_misses, Field.branch_misses)
    ∷ (Kinds.total_cycles, Field.total_cycles)
    ∷ (Kinds.cpu_time, Field.cpu_time)
    ∷ (Kinds.context_switches, Field.context_switches)
    ∷ (Kinds.proc_migrations, Field.migrations)
    ∷ (Kinds.level1d, Field.l1_cache)
    ∷ (Kinds.level1t, Field.l1t_cache)
    ∷ (Kinds.llcache, Field.ll_cache)
    ∷ (Kinds.cache_node, Field.access)
    ∷ (Kinds.bpu, Field.bpu)
    ∷ (Kinds.page_faults, Field.page_faults)
    ∷ (Kinds.bus_cycles_e, Field.bus_cycles)
    ∷ (Kinds.stalled_front, Field.stalled_front)
    ∷ (Kinds.stalled_back, Field.stalled_back)
    ∷ (Kinds.dtlb_access, Field.dtlb_access)
    ∷ (Kinds.dtlb_miss, Field.dtlb_miss)
    ∷ (Kinds.itlb_access, Field.itlb_access)
    ∷ (Kinds.itlb_miss, Field.itlb_miss)
    ∷ (Kinds.level1d_miss, Field.l1d_miss)
    ∷ (Kinds.level1t_miss, Field.l1t_miss)
    ∷ (Kinds.llcache_miss, Field.llcache_miss)
    ∷ (Kinds.l1d_prefetch, Field.l1d_prefetch)
    ∷ (Kinds.l1d_prefetch_miss, Field.l1d_prefetch_miss)
    ∷ (Kinds.minor_faults, Field.minor_faults)
    ∷ (Kinds.major_faults, Field.major_faults)
    ∷ (Kinds.alignment_faults, Field.alignment_faults)
    ∷ (Kinds.emulation_faults, Field.emulation_faults)
    ∷ []

module _ (fl : Float) (os : Os) where
  -- `if constexpr ( group_has_v<G, E> ) b.field = gr.get<E>().retrieve();`, with what `get` gives.
  unfoldable pub assign : Option Member → Field → Benchmark fl → World → Benchmark fl × World
  assign none f b w = (b, w)
  assign (some m) f b w = let (v, w1) = read_scaled fl os m.clock w in (set_field f v b, w1)

  unfoldable pub assign_all :
      List (EventKind × Field) → List Member → Benchmark fl → World → Benchmark fl × World
  assign_all [] gr b w = (b, w)
  assign_all ((k, f) ∷ rows) gr b w =
      let (b1, w1) = assign (get k gr) f b w in assign_all rows gr b1 w1

  -- `collect(name, cl, gr)`, with the time that the clock has measured.
  unfoldable pub collect : CString → fl.Double → List Member → World → Benchmark fl × World
  collect name time gr w =
      assign_all assignments gr (record (empty_benchmark fl) { name = name; time = time }) w
