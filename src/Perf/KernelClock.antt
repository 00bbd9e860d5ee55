-- ===== src/Perf/KernelClock.antt =====
-- `kernel_clock` of src/perf.hpp: a counter's descriptor and the calls on it. The object is passed
-- in and returned; its members that stay as they are are not written again.
pub mod Balance
pub mod Life
use bbench.Base.{ℕ, Bool, true, false, not, List, [], ◌∷◌, ◌==◌, if◌then◌else◌}
use bbench.Base.Int.{ℤ, pos, negsuc, to_i32, to_i64, ◌==ℤ◌}
use bbench.Base.Float.{Float}
use bbench.Perf.Abi.{PerfAbi}
use bbench.Perf.Attr.{Land, ClockType, EventType, init_attr}
use bbench.Perf.Sys.{
  PerfEventAttr, Os, World, ReadResult, close, ioctl, read, ioc_reset, ioc_enable, ioc_disable,
  syscall, perf_event_pid, perf_event_this,
}

pub record KernelClock : Type 0 where
  pub e_fd : ℤ
  pub last_errno : ℤ
  pub event : PerfEventAttr

-- `e_fd != -1`
abbrev pub is_open : ℤ → Bool
is_open fd = not (fd ==ℤ negsuc 0)

unfoldable pub make : PerfAbi → Land → ClockType → EventType → KernelClock
make abi land t e = record { e_fd = negsuc 0; last_errno = pos 0; event = init_attr abi land t e }

-- The move constructor: the new object, and the old one, which no longer owns the descriptor.
unfoldable pub move : KernelClock → KernelClock × KernelClock
move o = (o, record o { e_fd = negsuc 0 })

unfoldable pub set_inherit : Bool → KernelClock → KernelClock
set_inherit on c = record c { event = record (c.event) { inherit = on } }

unfoldable pub set_pinned : Bool → KernelClock → KernelClock
set_pinned on c = record c { event = record (c.event) { pinned = on } }

unfoldable pub set_enable_on_exec : Bool → KernelClock → KernelClock
set_enable_on_exec on c = record c { event = record (c.event) { enable_on_exec = on } }

-- The end of every `open`: the descriptor, or -1 and the error.
unfoldable pub opened : KernelClock → ℤ × World → ℤ × KernelClock × World
opened c (r, w) =
    let fd = to_i32 r in
    if fd ==ℤ negsuc 0
    then (negsuc 0, record c { e_fd = fd; last_errno = w.errno }, w)
    else (fd, record c { e_fd = fd; last_errno = pos 0 }, w)

module _ (os : Os) where
  unfoldable pub open_pid : ℤ → KernelClock → World → ℤ × KernelClock × World
  open_pid pid c w = opened c (perf_event_pid os c.event pid w)

  unfoldable pub open_this : KernelClock → World → ℤ × KernelClock × World
  open_this c w = opened c (perf_event_this os c.event w)

  -- `if ( e_fd != -1 ) micron::close(e_fd);`
  unfoldable pub close_if_open : ℤ → World → World
  close_if_open fd w = if is_open fd then (syscall os (close fd) w).1 else w

  unfoldable pub reopen_pid : ℤ → KernelClock → World → ℤ × KernelClock × World
  reopen_pid pid c w = open_pid pid c (close_if_open c.e_fd w)

  unfoldable pub reopen_this : KernelClock → World → ℤ × KernelClock × World
  reopen_this c w = open_this c (close_if_open c.e_fd w)

  -- The destructor.
  unfoldable pub destroy : KernelClock → World → World
  destroy c w = close_if_open c.e_fd w

  -- `start` and `start_as_leader`, `stop` and `stop_as_leader`: the flag says whether the whole
  -- group is meant. Neither looks at the descriptor.
  unfoldable pub start : Bool → KernelClock → World → World
  start group c w =
      let (_, w1) = syscall os (ioctl c.e_fd ioc_reset group) w in
      (syscall os (ioctl c.e_fd ioc_enable group) w1).1

  unfoldable pub stop : Bool → KernelClock → World → World
  stop group c w = (syscall os (ioctl c.e_fd ioc_disable group) w).1

  -- A read of a counter into a buffer of zeros.
  unfoldable pub read_counter : ℤ → World → ReadResult × World
  read_counter fd w =
      let buffer : ReadResult = record { value = 0; time_enabled = 0; time_running = 0 } in
      (os.counter w.log fd buffer, (syscall os (read fd) w).1)

  unfoldable pub read_triplet : KernelClock → World → ReadResult × World
  read_triplet c w =
      if is_open c.e_fd
      then read_counter c.e_fd w
      else (record { value = 0; time_enabled = 0; time_running = 0 }, w)

  unfoldable pub read_raw : KernelClock → World → ℤ × World
  read_raw c w = let (t, w1) = read_triplet c w in (to_i64 t.value, w1)

module _ (fl : Float) where
  open fl use {of_ℕ, mul, div}

  -- The value behind the read: 0, the count, or the count scaled to the time that it was enabled.
  unfoldable pub scaled : ReadResult → ℤ
  scaled t =
      if t.time_running == 0
      then pos 0
      else if t.time_running == t.time_enabled
      then to_i64 t.value
      else (let scale = div (of_ℕ t.time_enabled) (of_ℕ t.time_running) in
          fl.to_i64 (mul (of_ℕ t.value) scale))

  unfoldable pub read_scaled : Os → KernelClock → World → ℤ × World
  read_scaled os c w = let (t, w1) = read_triplet os c w in (scaled t, w1)
