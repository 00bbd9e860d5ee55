-- ===== src/Topdown.antt =====
-- `__td_event` of src/topdown.hpp, the raw counters of the top-down analysis.
pub mod Agreement
pub mod Measure
use Prim.Native.Nat.{bit_or}
use bbench.Base.{ℕ, Bool, true, false, not, ◌==◌, if◌then◌else◌}
use bbench.Base.Int.{ℤ, pos, negsuc, to_i32, to_i64, ◌==ℤ◌}
use bbench.Base.Float.{Float}
use bbench.Perf.Abi.{PerfAbi, PerfType}
use bbench.Perf.Sys.{
  PerfEventAttr, zeroed_attr, Os, World, ReadResult, ioctl, ioc_reset, ioc_enable, ioc_disable,
  syscall, perf_event_pid,
}
use bbench.Perf.KernelClock.{read_counter}

pub record TdEvent : Type 0 where
  pub e_fd : ℤ
  pub last_errno : ℤ
  pub attr : PerfEventAttr

-- The default constructor.
abbrev pub fresh_td : TdEvent
fresh_td = record { e_fd = negsuc 0; last_errno = pos 0; attr = zeroed_attr }

unfoldable pub td_configure : PerfAbi → ℕ → Bool → TdEvent → TdEvent
td_configure abi config excl_kernel e = record e {
  attr = record zeroed_attr {
    size = abi.sizeof_attr;
    type = abi.type_of PerfType.raw;
    config = config;
    disabled = true;
    read_format = bit_or abi.total_time_enabled abi.total_time_running;
    exclude_kernel = excl_kernel;
    exclude_hv = true;
  };
}

module _ (os : Os) where
  unfoldable pub td_open_pid : ℤ → TdEvent → World → ℤ × TdEvent × World
  td_open_pid pid e w =
      let (r, w1) = perf_event_pid os e.attr pid w in
      let fd = to_i32 r in
      if fd ==ℤ negsuc 0
      then (negsuc 0, record e { e_fd = fd; last_errno = w1.errno }, w1)
      else (fd, record e { e_fd = fd; last_errno = pos 0 }, w1)

  unfoldable pub td_begin : TdEvent → World → World
  td_begin e w =
      if e.e_fd ==ℤ negsuc 0
      then w
      else (let (_, w1) = syscall os (ioctl e.e_fd ioc_reset false) w in
          (syscall os (ioctl e.e_fd ioc_enable false) w1).1)

  unfoldable pub td_end : TdEvent → World → World
  td_end e w = if e.e_fd ==ℤ negsuc 0 then w else (syscall os (ioctl e.e_fd ioc_disable false) w).1

module _ (fl : Float) (os : Os) where
  open fl use {of_ℕ, mul, div}

  -- The value behind the read.
  unfoldable pub td_scaled : ReadResult → ℤ
  td_scaled r =
      if r.time_running == 0
      then pos 0
      else if r.time_running == r.time_enabled
      then to_i64 r.value
      else (let scale = div (of_ℕ r.time_enabled) (of_ℕ r.time_running) in
          fl.to_i64 (mul (of_ℕ r.value) scale))

  unfoldable pub retrieve_scaled : TdEvent → World → ℤ × World
  retrieve_scaled e w =
      if e.e_fd ==ℤ negsuc 0
      then (pos 0, w)
      else (let (r, w1) = read_counter os e.e_fd w in (td_scaled r, w1))
