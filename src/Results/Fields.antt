-- ===== src/Results/Fields.antt =====
-- The counters among the fields of `benchmark_t`, by name.
use bbench.Base.{ℕ, ◌≡◌, refl, ◌==◌, if◌then◌else◌}
use bbench.Base.Int.{ℤ}
use bbench.Base.Float.{Float}
use bbench.Results.{Benchmark}

pub data Field : Type 0 where
  cycles instructions cache_misses total_branches branch_misses : Field
  total_cycles cpu_time context_switches migrations l1_cache : Field
  l1t_cache ll_cache access bpu page_faults : Field
  minor_faults major_faults bus_cycles stalled_front stalled_back : Field
  alignment_faults emulation_faults dtlb_access dtlb_miss itlb_access : Field
  itlb_miss l1d_miss l1t_miss llcache_miss l1d_prefetch : Field
  l1d_prefetch_miss : Field

-- The place of a field among the counters.
abbrev pub index : Field → ℕ
index cycles = 0
index instructions = 1
index cache_misses = 2
index total_branches = 3
index branch_misses = 4
index total_cycles = 5
index cpu_time = 6
index context_switches = 7
index migrations = 8
index l1_cache = 9
index l1t_cache = 10
index ll_cache = 11
index access = 12
index bpu = 13
index page_faults = 14
index minor_faults = 15
index major_faults = 16
index bus_cycles = 17
index stalled_front = 18
index stalled_back = 19
index alignment_faults = 20
index emulation_faults = 21
index dtlb_access = 22
index dtlb_miss = 23
index itlb_access = 24
index itlb_miss = 25
index l1d_miss = 26
index l1t_miss = 27
index llcache_miss = 28
index l1d_prefetch = 29
index l1d_prefetch_miss = 30

module _ {fl : Float} where
  abbrev pub get_field : Field → Benchmark fl → ℤ
  get_field cycles b = b.cycles
  get_field instructions b = b.instructions
  get_field cache_misses b = b.cache_misses
  get_field total_branches b = b.total_branches
  get_field branch_misses b = b.branch_misses
  get_field total_cycles b = b.total_cycles
  get_field cpu_time b = b.cpu_time
  get_field context_switches b = b.context_switches
  get_field migrations b = b.migrations
  get_field l1_cache b = b.l1_cache
  get_field l1t_cache b = b.l1t_cache
  get_field ll_cache b = b.ll_cache
  get_field access b = b.access
  get_field bpu b = b.bpu
  get_field page_faults b = b.page_faults
  get_field minor_faults b = b.minor_faults
  get_field major_faults b = b.major_faults
  get_field bus_cycles b = b.bus_cycles
  get_field stalled_front b = b.stalled_front
  get_field stalled_back b = b.stalled_back
  get_field alignment_faults b = b.alignment_faults
  get_field emulation_faults b = b.emulation_faults
  get_field dtlb_access b = b.dtlb_access
  get_field dtlb_miss b = b.dtlb_miss
  get_field itlb_access b = b.itlb_access
  get_field itlb_miss b = b.itlb_miss
  get_field l1d_miss b = b.l1d_miss
  get_field l1t_miss b = b.l1t_miss
  get_field llcache_miss b = b.llcache_miss
  get_field l1d_prefetch b = b.l1d_prefetch
  get_field l1d_prefetch_miss b = b.l1d_prefetch_miss

  -- An assignment to a field.
  abbrev pub set_field : Field → ℤ → Benchmark fl → Benchmark fl
  set_field cycles v b = record b { cycles = v }
  set_field instructions v b = record b { instructions = v }
  set_field cache_misses v b = record b { cache_misses = v }
  set_field total_branches v b = record b { total_branches = v }
  set_field branch_misses v b = record b { branch_misses = v }
  set_field total_cycles v b = record b { total_cycles = v }
  set_field cpu_time v b = record b { cpu_time = v }
  set_field context_switches v b = record b { context_switches = v }
  set_field migrations v b = record b { migrations = v }
  set_field l1_cache v b = record b { l1_cache = v }
  set_field l1t_cache v b = record b { l1t_cache = v }
  set_field ll_cache v b = record b { ll_cache = v }
  set_field access v b = record b { access = v }
  set_field bpu v b = record b { bpu = v }
  set_field page_faults v b = record b { page_faults = v }
  set_field minor_faults v b = record b { minor_faults = v }
  set_field major_faults v b = record b { major_faults = v }
  set_field bus_cycles v b = record b { bus_cycles = v }
  set_field stalled_front v b = record b { stalled_front = v }
  set_field stalled_back v b = record b { stalled_back = v }
  set_field alignment_faults v b = record b { alignment_faults = v }
  set_field emulation_faults v b = record b { emulation_faults = v }
  set_field dtlb_access v b = record b { dtlb_access = v }
  set_field dtlb_miss v b = record b { dtlb_miss = v }
  set_field itlb_access v b = record b { itlb_access = v }
  set_field itlb_miss v b = record b { itlb_miss = v }
  set_field l1d_miss v b = record b { l1d_miss = v }
  set_field l1t_miss v b = record b { l1t_miss = v }
  set_field llcache_miss v b = record b { llcache_miss = v }
  set_field l1d_prefetch v b = record b { l1d_prefetch = v }
  set_field l1d_prefetch_miss v b = record b { l1d_prefetch_miss = v }

  -- An assignment changes its own field alone.
  pub get_field-set_field :
      (f g : Field) (v : ℤ) (b : Benchmark fl)
      → get_field f (set_field g v b) ≡ (if index f == index g then v else get_field f b)
  get_field-set_field cycles cycles v b = refl
  get_field-set_field cycles _ v b = refl
  get_field-set_field instructions cycles v b = refl
  get_field-set_field instructions _ v b = refl
  get_field-set_field cache_misses cycles v b = refl
  get_field-set_field cache_misses _ v b = refl
  get_field-set_field total_branches cycles v b = refl
  get_field-set_field total_branches _ v b = refl
  get_field-set_field branch_misses cycles v b = refl
  get_field-set_field branch_misses _ v b = refl
  get_field-set_field total_cycles cycles v b = refl
  get_field-set_field total_cycles _ v b = refl
  get_field-set_field cpu_time cycles v b = refl
  get_field-set_field cpu_time _ v b = refl
  get_field-set_field context_switches cycles v b = refl
  get_field-set_field context_switches _ v b = refl
  get_field-set_field migrations cycles v b = refl
  get_field-set_field migrations _ v b = refl
  get_field-set_field l1_cache cycles v b = refl
  get_field-set_field l1_cache _ v b = refl
  get_field-set_field l1t_cache cycles v b = refl
  get_field-set_field l1t_cache _ v b = refl
  get_field-set_field ll_cache cycles v b = refl
  get_field-set_field ll_cache _ v b = refl
  get_field-set_field access cycles v b = refl
  get_field-set_field access _ v b = refl
  get_field-set_field bpu cycles v b = refl
  get_field-set_field bpu _ v b = refl
  get_field-set_field page_faults cycles v b = refl
  get_field-set_field page_faults _ v b = refl
  get_field-set_field minor_faults cycles v b = refl
  get_field-set_field minor_faults _ v b = refl
  get_field-set_field major_faults cycles v b = refl
  get_field-set_field major_faults _ v b = refl
  get_field-set_field bus_cycles cycles v b = refl
  get_field-set_field bus_cycles _ v b = refl
  get_field-set_field stalled_front cycles v b = refl
  get_field-set_field stalled_front _ v b = refl
  get_field-set_field stalled_back cycles v b = refl
  get_field-set_field stalled_back _ v b = refl
  get_field-set_field alignment_faults cycles v b = refl
  get_field-set_field alignment_faults _ v b = refl
  get_field-set_field emulation_faults cycles v b = refl
  get_field-set_field emulation_faults _ v b = refl
  get_field-set_field dtlb_access cycles v b = refl
  get_field-set_field dtlb_access _ v b = refl
  get_field-set_field dtlb_miss cycles v b = refl
  get_field-set_field dtlb_miss _ v b = refl
  get_field-set_field itlb_access cycles v b = refl
  get_field-set_field itlb_access _ v b = refl
  get_field-set_field itlb_miss cycles v b = refl
  get_field-set_field itlb_miss _ v b = refl
  get_field-set_field l1d_miss cycles v b = refl
  get_field-set_field l1d_miss _ v b = refl
  get_field-set_field l1t_miss cycles v b = refl
  get_field-set_field l1t_miss _ v b = refl
  get_field-set_field llcache_miss cycles v b = refl
  get_field-set_field llcache_miss _ v b = refl
  get_field-set_field l1d_prefetch cycles v b = refl
  get_field-set_field l1d_prefetch _ v b = refl
  get_field-set_field l1d_prefetch_miss cycles v b = refl
  get_field-set_field l1d_prefetch_miss _ v b = refl
