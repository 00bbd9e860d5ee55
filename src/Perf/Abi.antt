-- ===== src/Perf/Abi.antt =====
-- The constants of <linux/perf_event.h>, by name: an interface, with what its documentation says of
-- them, and the enumerations of src/perf.hpp and `__cache_cfg` of src/events.hpp, which are written
-- in terms of them.
use Prim.Native.Nat.{bit_or}
use bbench.Base.{ℕ, ◌*◌, ◌^◌, ◌≡◌}

-- The `PERF_TYPE_…` constants.
pub data PerfType : Type 0 where
  hardware software tracepoint hw_cache raw : PerfType

-- The `PERF_COUNT_HW_…` constants.
pub data HwId : Type 0 where
  cpu_cycles instructions cache_references cache_misses branch_instructions : HwId
  branch_misses bus_cycles stalled_cycles_frontend stalled_cycles_backend ref_cpu_cycles : HwId

-- The `PERF_COUNT_SW_…` constants.
pub data SwId : Type 0 where
  cpu_clock task_clock page_faults context_switches cpu_migrations page_faults_min : SwId
  page_faults_maj alignment_faults emulation_faults dummy bpf_output cgroup_switches : SwId

-- The `PERF_COUNT_HW_CACHE_…` constants: caches, operations and results.
pub data CacheId : Type 0 where
  l1d l1i ll dtlb itlb bpu node : CacheId

pub data CacheOp : Type 0 where
  op_read op_write op_prefetch : CacheOp

pub data CacheResult : Type 0 where
  result_access result_miss : CacheResult

pub record PerfAbi : Type 0 where
  pub type_of : PerfType → ℕ
  pub hw : HwId → ℕ
  pub sw : SwId → ℕ
  pub cache : CacheId → ℕ
  pub op : CacheOp → ℕ
  pub result : CacheResult → ℕ
  pub sizeof_attr : ℕ
  pub total_time_enabled : ℕ
  pub total_time_running : ℕ
  -- `PERF_COUNT_HW_CACHE_OP_READ` and `PERF_COUNT_HW_CACHE_RESULT_ACCESS` are 0.
  pub read_is_zero : op op_read ≡ 0
  pub access_is_zero : result result_access ≡ 0

-- `x << k`, for values whose shift stays below 2^64.
abbrev pub shl : ℕ → ℕ → ℕ
shl x k = x * 2 ^ k

-- `options::hardware`
pub data Hardware : Type 0 where
  cpu_cycles total_inst cache_misses branches branch_misses bus_cycles : Hardware
  stalled_init stalled_retirement total_cycles : Hardware

-- `options::software`
pub data Software : Type 0 where
  cpu_clock tasks page_faults cntx_swtch cpu_migrations minor_page_flt major_page_flt : Software
  alignment_faults emulation_faults nothing sample cgroup_swtch : Software

-- `options::cache`
pub data Cache : Type 0 where
  level1d level1t last_level data_tlb instr_tlb branch local_access : Cache
  level1d_miss level1t_miss last_level_miss data_tlb_miss instr_tlb_miss branch_miss : Cache
  level1d_prefetch level1d_prefetch_miss : Cache

module _ (abi : PerfAbi) where
  -- `__cache_cfg(id, op, result)`
  unfoldable pub cache_cfg : CacheId → CacheOp → CacheResult → ℕ
  cache_cfg id op result =
      bit_or (bit_or (abi.cache id) (shl (abi.op op) 8)) (shl (abi.result result) 16)

  unfoldable pub hardware_value : Hardware → ℕ
  hardware_value cpu_cycles = abi.hw HwId.cpu_cycles
  hardware_value total_inst = abi.hw HwId.instructions
  hardware_value cache_misses = abi.hw HwId.cache_misses
  hardware_value branches = abi.hw HwId.branch_instructions
  hardware_value branch_misses = abi.hw HwId.branch_misses
  hardware_value bus_cycles = abi.hw HwId.bus_cycles
  hardware_value stalled_init = abi.hw HwId.stalled_cycles_frontend
  hardware_value stalled_retirement = abi.hw HwId.stalled_cycles_backend
  hardware_value total_cycles = abi.hw HwId.ref_cpu_cycles

  unfoldable pub software_value : Software → ℕ
  software_value cpu_clock = abi.sw SwId.cpu_clock
  software_value tasks = abi.sw SwId.task_clock
  software_value page_faults = abi.sw SwId.page_faults
  software_value cntx_swtch = abi.sw SwId.context_switches
  software_value cpu_migrations = abi.sw SwId.cpu_migrations
  software_value minor_page_flt = abi.sw SwId.page_faults_min
  software_value major_page_flt = abi.sw SwId.page_faults_maj
  software_value alignment_faults = abi.sw SwId.alignment_faults
  software_value emulation_faults = abi.sw SwId.emulation_faults
  software_value nothing = abi.sw SwId.dummy
  software_value sample = abi.sw SwId.bpf_output
  software_value cgroup_swtch = abi.sw SwId.cgroup_switches

  -- `id | (result << 16)` and its like, as the enumeration writes them.
  abbrev missed : CacheId → ℕ
  missed id = bit_or (abi.cache id) (shl (abi.result result_miss) 16)

  unfoldable pub cache_value : Cache → ℕ
  cache_value level1d = abi.cache l1d
  cache_value level1t = abi.cache l1i
  cache_value last_level = abi.cache ll
  cache_value data_tlb = abi.cache dtlb
  cache_value instr_tlb = abi.cache itlb
  cache_value branch = abi.cache bpu
  cache_value local_access = abi.cache node
  cache_value level1d_miss = missed l1d
  cache_value level1t_miss = missed l1i
  cache_value last_level_miss = missed ll
  cache_value data_tlb_miss = missed dtlb
  cache_value instr_tlb_miss = missed itlb
  cache_value branch_miss = missed bpu
  cache_value level1d_prefetch = bit_or (abi.cache l1d) (shl (abi.op op_prefetch) 8)
  cache_value level1d_prefetch_miss =
      bit_or (bit_or (abi.cache l1d) (shl (abi.op op_prefetch) 8)) (shl (abi.result result_miss) 16)
