-- ===== src/Clock/Kinds.antt =====
-- The counters that src/clock.hpp names: `event` for a mode of execution, a kind of clock and an
-- enumerator.
use bbench.Base.{Bool, true, false}
use bbench.Perf.Abi.{Hardware, Software, Cache}
use bbench.Perf.Attr.{Land, userland, kernelland, everyland, ClockType, EventType}

-- The type arguments of `event`.
pub record EventKind : Type 0 where
  pub land : Land
  pub type : ClockType
  pub event_type : EventType

abbrev Hardware-discrete : Discrete Hardware
Hardware-discrete = hlevel

abbrev Software-discrete : Discrete Software
Software-discrete = hlevel

abbrev Cache-discrete : Discrete Cache
Cache-discrete = hlevel

abbrev EventType-discrete : Discrete EventType
EventType-discrete = hlevel (Hardware-discrete, Software-discrete, Cache-discrete)

abbrev Land-discrete : Discrete Land
Land-discrete = hlevel

abbrev ClockType-discrete : Discrete ClockType
ClockType-discrete = hlevel

abbrev pub EventKind-discrete : Discrete EventKind
EventKind-discrete = hlevel (Land-discrete, ClockType-discrete, EventType-discrete)

-- `micron::is_same`, where the enumerators of one enumeration have distinct values.
abbrev pub same_kind : EventKind → EventKind → Bool
same_kind a b = elim (EventKind-discrete a b) [ yes e ↦ true | no e ↦ false ]

abbrev counter_of : Land → ClockType → EventType → EventKind
counter_of l t e = record { land = l; type = t; event_type = e }

abbrev pub hardware_cycles : EventKind
hardware_cycles = counter_of userland ClockType.hardware (EventType.hardware Hardware.cpu_cycles)

abbrev pub hardware_instructions : EventKind
hardware_instructions =
    counter_of userland ClockType.hardware (EventType.hardware Hardware.total_inst)

abbrev pub cache_misses : EventKind
cache_misses = counter_of userland ClockType.hardware (EventType.hardware Hardware.cache_misses)

abbrev pub branches : EventKind
branches = counter_of userland ClockType.hardware (EventType.hardware Hardware.branches)

abbrev pub branch_misses : EventKind
branch_misses = counter_of userland ClockType.hardware (EventType.hardware Hardware.branch_misses)

abbrev pub total_cycles : EventKind
total_cycles = counter_of userland ClockType.hardware (EventType.hardware Hardware.total_cycles)

abbrev pub u_hardware_cycles : EventKind
u_hardware_cycles = counter_of userland ClockType.hardware (EventType.hardware Hardware.cpu_cycles)

abbrev pub u_hardware_instructions : EventKind
u_hardware_instructions =
    counter_of userland ClockType.hardware (EventType.hardware Hardware.total_inst)

abbrev pub u_cache_misses : EventKind
u_cache_misses = counter_of userland ClockType.hardware (EventType.hardware Hardware.cache_misses)

abbrev pub u_branches : EventKind
u_branches = counter_of userland ClockType.hardware (EventType.hardware Hardware.branches)

abbrev pub u_branch_misses : EventKind
u_branch_misses = counter_of userland ClockType.hardware (EventType.hardware Hardware.branch_misses)

abbrev pub u_total_cycles : EventKind
u_total_cycles = counter_of userland ClockType.hardware (EventType.hardware Hardware.total_cycles)

abbrev pub k_hardware_cycles : EventKind
k_hardware_cycles =
    counter_of kernelland ClockType.hardware (EventType.hardware Hardware.cpu_cycles)

abbrev pub k_hardware_instructions : EventKind
k_hardware_instructions =
    counter_of kernelland ClockType.hardware (EventType.hardware Hardware.total_inst)

abbrev pub k_cache_misses : EventKind
k_cache_misses = counter_of kernelland ClockType.hardware (EventType.hardware Hardware.cache_misses)

abbrev pub k_branches : EventKind
k_branches = counter_of kernelland ClockType.hardware (EventType.hardware Hardware.branches)

abbrev pub k_branch_misses : EventKind
k_branch_misses =
    counter_of kernelland ClockType.hardware (EventType.hardware Hardware.branch_misses)

abbrev pub k_total_cycles : EventKind
k_total_cycles = counter_of kernelland ClockType.hardware (EventType.hardware Hardware.total_cycles)

abbrev pub a_hardware_cycles : EventKind
a_hardware_cycles = counter_of everyland ClockType.hardware (EventType.hardware Hardware.cpu_cycles)

abbrev pub a_hardware_instructions : EventKind
a_hardware_instructions =
    counter_of everyland ClockType.hardware (EventType.hardware Hardware.total_inst)

abbrev pub a_cache_misses : EventKind
a_cache_misses = counter_of everyland ClockType.hardware (EventType.hardware Hardware.cache_misses)

abbrev pub a_branches : EventKind
a_branches = counter_of everyland ClockType.hardware (EventType.hardware Hardware.branches)

abbrev pub a_branch_misses : EventKind
a_branch_misses =
    counter_of everyland ClockType.hardware (EventType.hardware Hardware.branch_misses)

abbrev pub a_total_cycles : EventKind
a_total_cycles = counter_of everyland ClockType.hardware (EventType.hardware Hardware.total_cycles)

abbrev pub cpu_time : EventKind
cpu_time = counter_of userland ClockType.software (EventType.software Software.cpu_clock)

abbrev pub context_switches : EventKind
context_switches = counter_of userland ClockType.software (EventType.software Software.cntx_swtch)

abbrev pub proc_migrations : EventKind
proc_migrations =
    counter_of userland ClockType.software (EventType.software Software.cpu_migrations)

abbrev pub level1d : EventKind
level1d = counter_of userland ClockType.cache (EventType.cache Cache.level1d)

abbrev pub level1t : EventKind
level1t = counter_of userland ClockType.cache (EventType.cache Cache.level1t)

abbrev pub llcache : EventKind
llcache = counter_of userland ClockType.cache (EventType.cache Cache.last_level)

abbrev pub cache_node : EventKind
cache_node = counter_of userland ClockType.cache (EventType.cache Cache.local_access)

abbrev pub bpu : EventKind
bpu = counter_of userland ClockType.cache (EventType.cache Cache.branch)

abbrev pub bus_cycles_e : EventKind
bus_cycles_e = counter_of userland ClockType.hardware (EventType.hardware Hardware.bus_cycles)

abbrev pub stalled_front : EventKind
stalled_front = counter_of userland ClockType.hardware (EventType.hardware Hardware.stalled_init)

abbrev pub stalled_back : EventKind
stalled_back =
    counter_of userland ClockType.hardware (EventType.hardware Hardware.stalled_retirement)

abbrev pub page_faults : EventKind
page_faults = counter_of userland ClockType.software (EventType.software Software.page_faults)

abbrev pub minor_faults : EventKind
minor_faults = counter_of userland ClockType.software (EventType.software Software.minor_page_flt)

abbrev pub major_faults : EventKind
major_faults = counter_of userland ClockType.software (EventType.software Software.major_page_flt)

abbrev pub alignment_faults : EventKind
alignment_faults =
    counter_of userland ClockType.software (EventType.software Software.alignment_faults)

abbrev pub emulation_faults : EventKind
emulation_faults =
    counter_of userland ClockType.software (EventType.software Software.emulation_faults)

abbrev pub level1d_miss : EventKind
level1d_miss = counter_of userland ClockType.cache (EventType.cache Cache.level1d_miss)

abbrev pub level1t_miss : EventKind
level1t_miss = counter_of userland ClockType.cache (EventType.cache Cache.level1t_miss)

abbrev pub llcache_miss : EventKind
llcache_miss = counter_of userland ClockType.cache (EventType.cache Cache.last_level_miss)

abbrev pub dtlb_access : EventKind
dtlb_access = counter_of userland ClockType.cache (EventType.cache Cache.data_tlb)

abbrev pub dtlb_miss : EventKind
dtlb_miss = counter_of userland ClockType.cache (EventType.cache Cache.data_tlb_miss)

abbrev pub itlb_access : EventKind
itlb_access = counter_of userland ClockType.cache (EventType.cache Cache.instr_tlb)

abbrev pub itlb_miss : EventKind
itlb_miss = counter_of userland ClockType.cache (EventType.cache Cache.instr_tlb_miss)

abbrev pub l1d_prefetch : EventKind
l1d_prefetch = counter_of userland ClockType.cache (EventType.cache Cache.level1d_prefetch)

abbrev pub l1d_prefetch_miss : EventKind
l1d_prefetch_miss =
    counter_of userland ClockType.cache (EventType.cache Cache.level1d_prefetch_miss)
