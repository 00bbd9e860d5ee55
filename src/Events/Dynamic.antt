-- ===== src/Events/Dynamic.antt =====
-- `dynamic_event` and `dynamic_event_group` of src/events.hpp.
pub mod Coherent
pub mod Balance
use Prim.Native.Nat.{bit_or}
use bbench.Base.{
  ℕ, zero, suc, ◌+◌, Bool, true, false, not, List, [], ◌∷◌, Option, none, some, map, ◌==◌,
  if◌then◌else◌,
}
use bbench.Base.Int.{ℤ, pos, negsuc, neg, to_i32, to_i64, ◌==ℤ◌}
use bbench.Base.Float.{Float}
use bbench.Base.Text.{CString}
use bbench.Perf.Abi.{PerfAbi}
use bbench.Perf.Sys.{
  PerfEventAttr, zeroed_attr, Os, World, ReadResult, close, ioctl, read, ioc_reset, ioc_enable,
  ioc_disable, syscall, perf_event_pid, perf_event_this,
}
use bbench.Perf.KernelClock.{is_open, close_if_open, read_counter}
use bbench.Events.Table.{EventDef}

pub record DynamicEvent : Type 0 where
  pub e_fd : ℤ
  pub last_errno : ℤ
  pub attr : PerfEventAttr
  pub pretty_name : Option CString
  pub valid : Bool

-- The default constructor.
abbrev pub fresh_event : DynamicEvent
fresh_event = record {
  e_fd = negsuc 0;
  last_errno = pos 0;
  attr = zeroed_attr;
  pretty_name = none;
  valid = false;
}

unfoldable pub configure : PerfAbi → EventDef → Bool → DynamicEvent → DynamicEvent
configure abi def excl_kernel e = record e {
  attr = record zeroed_attr {
    size = abi.sizeof_attr;
    type = def.type;
    config = def.config;
    disabled = true;
    read_format = bit_or abi.total_time_enabled abi.total_time_running;
    exclude_kernel = excl_kernel;
    exclude_hv = true;
  };
  pretty_name = some def.name;
}

unfoldable pub event_inherit : Bool → DynamicEvent → DynamicEvent
event_inherit on e = record e { attr = record (e.attr) { inherit = on } }

unfoldable pub event_pinned : Bool → DynamicEvent → DynamicEvent
event_pinned on e = record e { attr = record (e.attr) { pinned = on } }

unfoldable pub event_enable_on_exec : Bool → DynamicEvent → DynamicEvent
event_enable_on_exec on e = record e { attr = record (e.attr) { enable_on_exec = on } }

-- The move constructor: the new object, and the old one.
unfoldable pub move_event : DynamicEvent → DynamicEvent × DynamicEvent
move_event o = (o, record o { e_fd = negsuc 0; valid = false })

-- The end of both `open`s.
unfoldable pub event_opened : DynamicEvent → ℤ × World → ℤ × DynamicEvent × World
event_opened e (r, w) =
    let fd = to_i32 r in
    if fd ==ℤ negsuc 0
    then (negsuc 0, record e { e_fd = fd; last_errno = w.errno; valid = false }, w)
    else (fd, record e { e_fd = fd; last_errno = pos 0; valid = true }, w)

module _ (os : Os) where
  unfoldable pub event_open_this : DynamicEvent → World → ℤ × DynamicEvent × World
  event_open_this e w = event_opened e (perf_event_this os e.attr w)

  unfoldable pub event_open_pid : ℤ → DynamicEvent → World → ℤ × DynamicEvent × World
  event_open_pid pid e w = event_opened e (perf_event_pid os e.attr pid w)

  unfoldable pub event_reopen : ℤ → DynamicEvent → World → ℤ × DynamicEvent × World
  event_reopen pid e w = event_open_pid pid e (close_if_open os e.e_fd w)

  unfoldable pub event_begin : DynamicEvent → World → World
  event_begin e w =
      if not e.valid
      then w
      else (let (_, w1) = syscall os (ioctl e.e_fd ioc_reset false) w in
          (syscall os (ioctl e.e_fd ioc_enable false) w1).1)

  unfoldable pub event_end : DynamicEvent → World → World
  event_end e w = if not e.valid then w else (syscall os (ioctl e.e_fd ioc_disable false) w).1

  unfoldable pub event_destroy : DynamicEvent → World → World
  event_destroy e w = close_if_open os e.e_fd w

  -- The group's loops over its events, and `delete[]`.
  unfoldable pub group_end : List DynamicEvent → World → World
  group_end [] w = w
  group_end (e ∷ es) w = group_end es (event_end e w)

  unfoldable pub group_begin : List DynamicEvent → World → World
  group_begin [] w = w
  group_begin (e ∷ es) w = group_begin es (event_begin e w)

  -- `delete[]` destroys the events from the last to the first.
  unfoldable pub group_destroy : List DynamicEvent → World → World
  group_destroy [] w = w
  group_destroy (e ∷ es) w = event_destroy e (group_destroy es w)

  -- The loop of `reopen`, with the count of failures; it gives the events as they are behind it.
  unfoldable pub reopen_loop : ℤ → List DynamicEvent → ℕ → World → ℕ × List DynamicEvent × World
  reopen_loop pid [] bad w = (bad, [], w)
  reopen_loop pid (e ∷ es) bad w =
      let (r, e', w1) = event_reopen pid e w in
      let (bad', es', w2) = reopen_loop pid es (if r ==ℤ negsuc 0 then bad + 1 else bad) w1 in
      (bad', e' ∷ es', w2)

  -- `bad == 0 ? 0 : -bad`
  unfoldable pub group_reopen : ℤ → List DynamicEvent → World → ℤ × List DynamicEvent × World
  group_reopen pid es w = let (bad, es', w') = reopen_loop pid es 0 w in (neg bad, es', w')

  unfoldable pub open_loop : List DynamicEvent → ℕ → World → ℕ × List DynamicEvent × World
  open_loop [] bad w = (bad, [], w)
  open_loop (e ∷ es) bad w =
      let (r, e', w1) = event_open_this e w in
      let (bad', es', w2) = open_loop es (if r ==ℤ negsuc 0 then bad + 1 else bad) w1 in
      (bad', e' ∷ es', w2)

  unfoldable pub group_open : List DynamicEvent → World → ℤ × List DynamicEvent × World
  group_open es w = let (bad, es', w') = open_loop es 0 w in (neg bad, es', w')

-- The constructor from a list of definitions, and the setters.
unfoldable pub make_group : PerfAbi → List EventDef → Bool → List DynamicEvent
make_group abi defs excl_kernel = map (λ d. configure abi d excl_kernel fresh_event) defs

unfoldable pub group_set : (DynamicEvent → DynamicEvent) → List DynamicEvent → List DynamicEvent
group_set f es = map f es

-- What `for_each` passes to its function: the name, the value and the error.
pub record EventRow : Type 0 where
  pub name : Option CString
  pub value : ℤ
  pub err : ℤ

module _ (fl : Float) (os : Os) where
  open fl use {of_ℕ, mul, div}

  -- The value behind the read.
  unfoldable pub event_scaled : ReadResult → ℤ
  event_scaled r =
      if r.time_running == 0
      then pos 0
      else if r.time_running == r.time_enabled
      then to_i64 r.value
      else (let scale = div (of_ℕ r.time_enabled) (of_ℕ r.time_running) in
          fl.to_i64 (mul (of_ℕ r.value) scale))

  unfoldable pub event_retrieve : DynamicEvent → World → ℤ × World
  event_retrieve e w =
      if not e.valid
      then (pos 0, w)
      else (let (r, w1) = read_counter os e.e_fd w in (event_scaled r, w1))

  unfoldable pub for_each : List DynamicEvent → World → List EventRow × World
  for_each [] w = ([], w)
  for_each (e ∷ es) w =
      let (v, w1) = event_retrieve e w in
      let (rows, w2) = for_each es w1 in
      (record { name = e.pretty_name; value = v; err = e.last_errno } ∷ rows, w2)
