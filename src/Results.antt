-- ===== src/Results.antt =====
-- `benchmark_t` of src/funcs.hpp, what one run measured, and the ratios of its counters.
pub mod Fields
use bbench.Base.{ℕ, []}
use bbench.Base.Int.{ℤ, pos}
use bbench.Base.Float.{Float}
use bbench.Base.Text.{CString}

module _ (fl : Float) where
  open fl use {Double, of_ℕ, of_ℤ, div}

  pub record Benchmark : Type 0 where
    pub name : CString
    pub time : Double
    pub cycles : ℤ
    pub instructions : ℤ
    pub cache_misses : ℤ
    pub total_branches : ℤ
    pub branch_misses : ℤ
    pub total_cycles : ℤ
    pub cpu_time : ℤ
    pub context_switches : ℤ
    pub migrations : ℤ
    pub l1_cache : ℤ
    pub l1t_cache : ℤ
    pub ll_cache : ℤ
    pub access : ℤ
    pub bpu : ℤ
    pub page_faults : ℤ
    pub minor_faults : ℤ
    pub major_faults : ℤ
    pub bus_cycles : ℤ
    pub stalled_front : ℤ
    pub stalled_back : ℤ
    pub alignment_faults : ℤ
    pub emulation_faults : ℤ
    pub dtlb_access : ℤ
    pub dtlb_miss : ℤ
    pub itlb_access : ℤ
    pub itlb_miss : ℤ
    pub l1d_miss : ℤ
    pub l1t_miss : ℤ
    pub llcache_miss : ℤ
    pub l1d_prefetch : ℤ
    pub l1d_prefetch_miss : ℤ
    pub time_enabled_ns : ℕ
    pub time_running_ns : ℕ

  -- `benchmark_t b{}`
  unfoldable pub empty_benchmark : Benchmark
  empty_benchmark = record {
    name = [];
    time = of_ℕ 0;
    cycles = pos 0;
    instructions = pos 0;
    cache_misses = pos 0;
    total_branches = pos 0;
    branch_misses = pos 0;
    total_cycles = pos 0;
    cpu_time = pos 0;
    context_switches = pos 0;
    migrations = pos 0;
    l1_cache = pos 0;
    l1t_cache = pos 0;
    ll_cache = pos 0;
    access = pos 0;
    bpu = pos 0;
    page_faults = pos 0;
    minor_faults = pos 0;
    major_faults = pos 0;
    bus_cycles = pos 0;
    stalled_front = pos 0;
    stalled_back = pos 0;
    alignment_faults = pos 0;
    emulation_faults = pos 0;
    dtlb_access = pos 0;
    dtlb_miss = pos 0;
    itlb_access = pos 0;
    itlb_miss = pos 0;
    l1d_miss = pos 0;
    l1t_miss = pos 0;
    llcache_miss = pos 0;
    l1d_prefetch = pos 0;
    l1d_prefetch_miss = pos 0;
    time_enabled_ns = 0;
    time_running_ns = 0;
  }

  unfoldable pub per_op : Double → ℤ → Double
  per_op x a = div x (of_ℤ a)

  unfoldable pub per_cycle : Benchmark → Double
  per_cycle b = div (of_ℤ b.cycles) b.time

  unfoldable pub per_instruction : Benchmark → Double
  per_instruction b = div (of_ℤ b.instructions) b.time

  unfoldable pub miss_percent : Benchmark → Double
  miss_percent b = div (of_ℤ b.branch_misses) (of_ℤ b.total_branches)

  unfoldable pub cycles_per_instruction : Benchmark → Double
  cycles_per_instruction b = div (of_ℤ b.cycles) (of_ℤ b.instructions)
