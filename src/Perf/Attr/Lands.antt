-- ===== src/Perf/Attr/Lands.antt =====
-- The attributes that the constructor of `kernel_clock` gives, against what each mode is to count.
use Prim.Native.Nat.{bit_or}
use bbench.Base.{ℕ, ◌*◌, ◌^◌, ◌≡◌, Bool, true, false, not, ◌||◌}
use bbench.Perf.Abi.{
  PerfAbi, PerfType, CacheId, l1d, l1i, ll, dtlb, itlb, bpu, node, CacheOp, op_read, op_prefetch,
  CacheResult, result_access, result_miss, Cache, level1d, level1t, last_level, data_tlb, instr_tlb,
  branch, local_access, level1d_miss, level1t_miss, last_level_miss, data_tlb_miss, instr_tlb_miss,
  branch_miss, level1d_prefetch, level1d_prefetch_miss, hardware_value, software_value,
}
use bbench.Perf.Sys.{PerfEventAttr}
use bbench.Perf.Attr.{Land, userland, kernelland, vmland, everyland, ClockType, EventType}

-- What is counted in each mode of execution.
abbrev pub counts_user : Land → Bool
counts_user userland = true
counts_user everyland = true
counts_user _ = false

abbrev pub counts_kernel : Land → Bool
counts_kernel kernelland = true
counts_kernel everyland = true
counts_kernel _ = false

abbrev pub counts_hypervisor : Land → Bool
counts_hypervisor vmland = true
counts_hypervisor everyland = true
counts_hypervisor _ = false

-- Where the sources leave out the hypervisor although the mode is to count everything.
abbrev pub leaves_out_hypervisor : Land → ClockType → Bool
leaves_out_hypervisor everyland ClockType.software = true
leaves_out_hypervisor everyland ClockType.tracepoint = true
leaves_out_hypervisor everyland ClockType.cache = true
leaves_out_hypervisor _ _ = false

abbrev pub perf_type : ClockType → PerfType
perf_type ClockType.hardware = PerfType.hardware
perf_type ClockType.software = PerfType.software
perf_type ClockType.tracepoint = PerfType.tracepoint
perf_type ClockType.cache = PerfType.hw_cache

-- The cache, the operation and the result that a cache event counts.
abbrev pub cache_id : Cache → CacheId
cache_id level1d = l1d
cache_id level1t = l1i
cache_id last_level = ll
cache_id data_tlb = dtlb
cache_id instr_tlb = itlb
cache_id branch = bpu
cache_id local_access = node
cache_id level1d_miss = l1d
cache_id level1t_miss = l1i
cache_id last_level_miss = ll
cache_id data_tlb_miss = dtlb
cache_id instr_tlb_miss = itlb
cache_id branch_miss = bpu
cache_id level1d_prefetch = l1d
cache_id level1d_prefetch_miss = l1d

abbrev pub cache_op : Cache → CacheOp
cache_op level1d_prefetch = op_prefetch
cache_op level1d_prefetch_miss = op_prefetch
cache_op _ = op_read

abbrev pub cache_result : Cache → CacheResult
cache_result level1d_miss = result_miss
cache_result level1t_miss = result_miss
cache_result last_level_miss = result_miss
cache_result data_tlb_miss = result_miss
cache_result instr_tlb_miss = result_miss
cache_result branch_miss = result_miss
cache_result level1d_prefetch_miss = result_miss
cache_result _ = result_access

-- `PERF_COUNT_HW_CACHE_… | (PERF_COUNT_HW_CACHE_OP_… << 8) | (PERF_COUNT_HW_CACHE_RESULT_… << 16)`,
-- which the kernel expects for a counter of a cache.
abbrev pub cache_config : PerfAbi → CacheId → CacheOp → CacheResult → ℕ
cache_config abi id op result =
    bit_or (bit_or (abi.cache id) (abi.op op * 2 ^ 8)) (abi.result result * 2 ^ 16)

-- The number that the kernel expects for an event of a clock: none for a tracepoint, and none where
-- the event is of another kind than the clock.
abbrev pub asked : PerfAbi → ClockType → EventType → ℕ
asked abi ClockType.hardware (EventType.hardware e) = hardware_value abi e
asked abi ClockType.software (EventType.software e) = software_value abi e
asked abi ClockType.cache (EventType.cache e) =
    cache_config abi (cache_id e) (cache_op e) (cache_result e)
asked abi _ _ = 0

-- An attribute asks for the counter of kind `t` and number `config`, disabled and pinned, with the
-- rings that `land` leaves out excluded.
pub record Counts (abi : PerfAbi) (land : Land) (t : ClockType) (e : EventType) (a : PerfEventAttr)
    : Type 0 where
  pub size : a.size ≡ abi.sizeof_attr
  pub type : a.type ≡ abi.type_of (perf_type t)
  pub config : a.config ≡ asked abi t e
  pub disabled : a.disabled ≡ true
  pub pinned : a.pinned ≡ true
  pub user : a.exclude_user ≡ not (counts_user land)
  pub kernel : a.exclude_kernel ≡ not (counts_kernel land)
  pub hypervisor : a.exclude_hv ≡ (not (counts_hypervisor land) || leaves_out_hypervisor land t)
  pub inherit : a.inherit ≡ false
  pub enable_on_exec : a.enable_on_exec ≡ false
