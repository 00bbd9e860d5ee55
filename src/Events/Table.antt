-- ===== src/Events/Table.antt =====
-- `event_def`, `known_events` and `lookup_event` of src/events.hpp.
pub mod Names
use Prim.Native.String.{String}
use bbench.Base.{ℕ, Bool, true, false, List, [], ◌∷◌, Option, none, some, if◌then◌else◌}
use bbench.Base.Text.{CString, Micron, codes, same}
use bbench.Perf.Abi.{
  PerfAbi, PerfType, HwId, SwId, CacheId, l1d, l1i, ll, dtlb, itlb, bpu, node, CacheOp, op_read,
  op_write, op_prefetch, CacheResult, result_access, result_miss, cache_cfg,
}

pub record EventDef : Type 0 where
  pub name : CString
  pub type : ℕ
  pub config : ℕ

module _ (abi : PerfAbi) where
  abbrev hw_event : String → HwId → EventDef
  hw_event n id = record {
    name = codes n;
    type = abi.type_of PerfType.hardware;
    config = abi.hw id;
  }

  abbrev sw_event : String → SwId → EventDef
  sw_event n id = record {
    name = codes n;
    type = abi.type_of PerfType.software;
    config = abi.sw id;
  }

  abbrev cache_event : String → CacheId → CacheOp → CacheResult → EventDef
  cache_event n id op result = record {
    name = codes n;
    type = abi.type_of PerfType.hw_cache;
    config = cache_cfg abi id op result;
  }

  unfoldable pub known_events : List EventDef
  known_events =
      hw_event "cycles" HwId.cpu_cycles
      ∷ hw_event "cpu-cycles" HwId.cpu_cycles
      ∷ hw_event "instructions" HwId.instructions
      ∷ hw_event "branches" HwId.branch_instructions
      ∷ hw_event "branch-instructions" HwId.branch_instructions
      ∷ hw_event "branch-misses" HwId.branch_misses
      ∷ hw_event "cache-references" HwId.cache_references
      ∷ hw_event "cache-misses" HwId.cache_misses
      ∷ hw_event "bus-cycles" HwId.bus_cycles
      ∷ hw_event "stalled-cycles-frontend" HwId.stalled_cycles_frontend
      ∷ hw_event "stalled-cycles-backend" HwId.stalled_cycles_backend
      ∷ hw_event "ref-cycles" HwId.ref_cpu_cycles
      ∷ sw_event "cpu-clock" SwId.cpu_clock
      ∷ sw_event "task-clock" SwId.task_clock
      ∷ sw_event "page-faults" SwId.page_faults
      ∷ sw_event "faults" SwId.page_faults
      ∷ sw_event "context-switches" SwId.context_switches
      ∷ sw_event "cs" SwId.context_switches
      ∷ sw_event "cpu-migrations" SwId.cpu_migrations
      ∷ sw_event "migrations" SwId.cpu_migrations
      ∷ sw_event "minor-faults" SwId.page_faults_min
      ∷ sw_event "major-faults" SwId.page_faults_maj
      ∷ sw_event "alignment-faults" SwId.alignment_faults
      ∷ sw_event "emulation-faults" SwId.emulation_faults
      ∷ sw_event "dummy" SwId.dummy
      ∷ cache_event "L1-dcache-loads" l1d op_read result_access
      ∷ cache_event "L1-dcache-load-misses" l1d op_read result_miss
      ∷ cache_event "L1-dcache-stores" l1d op_write result_access
      ∷ cache_event "L1-dcache-prefetches" l1d op_prefetch result_access
      ∷ cache_event "L1-dcache-prefetch-misses" l1d op_prefetch result_miss
      ∷ cache_event "L1-icache-loads" l1i op_read result_access
      ∷ cache_event "L1-icache-load-misses" l1i op_read result_miss
      ∷ cache_event "LLC-loads" ll op_read result_access
      ∷ cache_event "LLC-load-misses" ll op_read result_miss
      ∷ cache_event "LLC-stores" ll op_write result_access
      ∷ cache_event "LLC-store-misses" ll op_write result_miss
      ∷ cache_event "dTLB-loads" dtlb op_read result_access
      ∷ cache_event "dTLB-load-misses" dtlb op_read result_miss
      ∷ cache_event "iTLB-loads" itlb op_read result_access
      ∷ cache_event "iTLB-load-misses" itlb op_read result_miss
      ∷ cache_event "branch-loads" bpu op_read result_access
      ∷ cache_event "branch-load-misses" bpu op_read result_miss
      ∷ cache_event "node-loads" node op_read result_access
      ∷ cache_event "node-load-misses" node op_read result_miss
      ∷ []

module _ ⦃m : Micron⦄ where
  -- The loop of `lookup_event`: the first row of that name.
  unfoldable pub find_event : CString → List EventDef → Option EventDef
  find_event name [] = none
  find_event name (e ∷ es) = if same e.name name then some e else find_event name es

  -- `lookup_event`; `none` is the null pointer, as argument and as result.
  unfoldable pub lookup_event : PerfAbi → Option CString → Option EventDef
  lookup_event abi none = none
  lookup_event abi (some name) = find_event name (known_events abi)
