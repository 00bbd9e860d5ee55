-- ===== src/Perf/Attr.antt =====
-- The constructor of `kernel_clock`: what it asks of the kernel, for each mode of execution and each
-- kind of clock.
pub mod Lands
use Prim.Native.Nat.{bit_or}
use bbench.Base.{ℕ, true}
use bbench.Perf.Abi
use bbench.Perf.Abi.{
  PerfAbi, PerfType, Hardware, Software, Cache, hardware_value, software_value, cache_value,
}
use bbench.Perf.Sys.{PerfEventAttr, zeroed_attr}

-- `time_userland`, `time_kernelland`, `time_vmland`, `time_everyland`
pub data Land : Type 0 where
  userland kernelland vmland everyland : Land

-- `kernel_clock_types`
pub data ClockType : Type 0 where
  hardware software tracepoint cache : ClockType

-- The argument `e_type`, of one of the three enumerations.
pub data EventType : Type 0 where
  hardware : Hardware → EventType
  software : Software → EventType
  cache : Cache → EventType

module _ (abi : PerfAbi) where
  -- `event.config = e_type` where the enumeration is the clock's own.
  abbrev pub config_of : ClockType → EventType → ℕ
  config_of ClockType.hardware (EventType.hardware e) = hardware_value abi e
  config_of ClockType.software (EventType.software e) = software_value abi e
  config_of ClockType.cache (EventType.cache e) = cache_value abi e
  config_of _ _ = 0

  -- The lines that every branch has, and the `read_format` above them.
  abbrev pub base_attr : PerfType → ℕ → PerfEventAttr
  base_attr t config = record zeroed_attr {
    read_format = bit_or abi.total_time_enabled abi.total_time_running;
    size = abi.sizeof_attr;
    type = abi.type_of t;
    disabled = true;
    pinned = true;
    config = config;
  }

  unfoldable pub init_attr : Land → ClockType → EventType → PerfEventAttr
  init_attr everyland ClockType.hardware e =
      base_attr PerfType.hardware (config_of ClockType.hardware e)
  init_attr everyland ClockType.software e =
      record (base_attr PerfType.software (config_of ClockType.software e)) { exclude_hv = true }
  init_attr everyland ClockType.tracepoint e = record (base_attr PerfType.tracepoint 0) {
    exclude_hv = true;
  }
  init_attr everyland ClockType.cache e =
      record (base_attr PerfType.hw_cache (config_of ClockType.cache e)) { exclude_hv = true }
  init_attr kernelland ClockType.hardware e =
      record (base_attr PerfType.hardware (config_of ClockType.hardware e)) {
        exclude_user = true;
        exclude_hv = true;
      }
  init_attr kernelland ClockType.software e =
      record (base_attr PerfType.software (config_of ClockType.software e)) {
        exclude_user = true;
        exclude_hv = true;
      }
  init_attr kernelland ClockType.tracepoint e = record (base_attr PerfType.tracepoint 0) {
    exclude_user = true;
    exclude_hv = true;
  }
  init_attr kernelland ClockType.cache e =
      record (base_attr PerfType.hw_cache (config_of ClockType.cache e)) {
        exclude_user = true;
        exclude_hv = true;
      }
  init_attr userland ClockType.hardware e =
      record (base_attr PerfType.hardware (config_of ClockType.hardware e)) {
        exclude_kernel = true;
        exclude_hv = true;
      }
  init_attr userland ClockType.software e =
      record (base_attr PerfType.software (config_of ClockType.software e)) {
        exclude_kernel = true;
        exclude_hv = true;
      }
  init_attr userland ClockType.tracepoint e = record (base_attr PerfType.tracepoint 0) {
    exclude_kernel = true;
    exclude_hv = true;
  }
  init_attr userland ClockType.cache e =
      record (base_attr PerfType.hw_cache (config_of ClockType.cache e)) {
        exclude_kernel = true;
        exclude_hv = true;
      }
  init_attr vmland ClockType.hardware e =
      record (base_attr PerfType.hardware (config_of ClockType.hardware e)) {
        exclude_user = true;
        exclude_kernel = true;
      }
  init_attr vmland ClockType.software e =
      record (base_attr PerfType.software (config_of ClockType.software e)) {
        exclude_user = true;
        exclude_kernel = true;
      }
  init_attr vmland ClockType.tracepoint e = record (base_attr PerfType.tracepoint 0) {
    exclude_user = true;
    exclude_kernel = true;
  }
  init_attr vmland ClockType.cache e =
      record (base_attr PerfType.hw_cache (config_of ClockType.cache e)) {
        exclude_user = true;
        exclude_kernel = true;
      }
