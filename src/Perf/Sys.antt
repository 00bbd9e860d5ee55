-- ===== src/Perf/Sys.antt =====
-- The system calls that the sources make, as a log, and the operating system that answers them.
use bbench.Base.{ℕ, ◌+◌, Bool, false, List, ◌∷◌}
use bbench.Base.Int.{ℤ, pos, negsuc, to_i32}
use bbench.Base.Text.{CString}

-- The fields of `perf_event_attr` that the sources set; the rest stays 0 behind the `memset`.
pub record PerfEventAttr : Type 0 where
  pub size : ℕ
  pub type : ℕ
  pub config : ℕ
  pub read_format : ℕ
  pub disabled : Bool
  pub inherit : Bool
  pub pinned : Bool
  pub exclude_user : Bool
  pub exclude_kernel : Bool
  pub exclude_hv : Bool
  pub enable_on_exec : Bool

-- Behind `memset(&event, 0, sizeof(event))`.
abbrev pub zeroed_attr : PerfEventAttr
zeroed_attr = record {
  size = 0;
  type = 0;
  config = 0;
  read_format = 0;
  disabled = false;
  inherit = false;
  pinned = false;
  exclude_user = false;
  exclude_kernel = false;
  exclude_hv = false;
  enable_on_exec = false;
}

pub data Request : Type 0 where
  ioc_reset ioc_enable ioc_disable : Request

pub data Signal : Type 0 where
  terminate kill9 : Signal

pub record Timespec : Type 0 where
  pub tv_sec : ℤ
  pub tv_nsec : ℤ

pub data ClockId : Type 0 where
  realtime_alarm monotonic : ClockId

-- A call with its arguments. `ioctl` says whether it carries `PERF_IOC_FLAG_GROUP`, `waitpid`
-- whether it carries `wnohang`, `open_file` is an open for writing that creates or empties, and `pipe2` the two descriptors that it filled in.
pub data Call : Type 0 where
  perf_event_open : PerfEventAttr → ℤ → ℤ → ℤ → ℕ → Call
  open_file : CString → Call
  close : ℤ → Call
  ioctl : ℤ → Request → Bool → Call
  read : ℤ → Call
  write : ℤ → CString → Call
  waitpid : ℤ → Bool → Call
  kill : ℤ → Signal → Call
  nanosleep : Timespec → Call
  clock_gettime : ClockId → Call
  pipe2 : ℤ → ℤ → Call
  fork : Call
  spawn : CString → List CString → Call
  execve : CString → List CString → Call
  exit : ℕ → Call

-- A call that was made, and what it returned.
pub record Entry : Type 0 where
  pub call : Call
  pub reply : ℤ

-- The calls so far, the latest first.
abbrev pub Log : Type 0
Log = List Entry

-- The three numbers that a read of a counter returns.
pub record ReadResult : Type 0 where
  pub value : ℕ
  pub time_enabled : ℕ
  pub time_running : ℕ

-- The operating system: what a call returns, and what it leaves in the buffer that it is given,
-- after the calls of the log.
pub record Os : Type 0 where
  pub reply : Log → Call → ℤ
  pub counter : Log → ℤ → ReadResult → ReadResult
  pub time : Log → ClockId → Timespec → Timespec
  pub pipe : Log → ℤ × ℤ
  pub child : Log → ℤ

pub record World : Type 0 where
  pub log : Log
  pub errno : ℤ

module _ (os : Os) where
  -- Makes a call.
  unfoldable pub syscall : Call → World → ℤ × World
  syscall c w =
      let r = os.reply w.log c in (r, record w { log = record { call = c; reply = r } ∷ w.log })

  -- `__pe_call`
  unfoldable pub pe_call : ℤ → World → ℤ × World
  pe_call (pos r) w = (pos r, w)
  pe_call (negsuc n) w = (negsuc 0, record w { errno = to_i32 (pos (n + 1)) })

  -- `perf_event_pid(event, pid)`
  unfoldable pub perf_event_pid : PerfEventAttr → ℤ → World → ℤ × World
  perf_event_pid event pid w =
      let (r, w1) = syscall (perf_event_open event pid (negsuc 0) (negsuc 0) 0) w in pe_call r w1

  -- `perf_event_this(event)`
  unfoldable pub perf_event_this : PerfEventAttr → World → ℤ × World
  perf_event_this event w =
      let (r, w1) = syscall (perf_event_open event (pos 0) (negsuc 0) (negsuc 0) 0) w in
      pe_call r w1
