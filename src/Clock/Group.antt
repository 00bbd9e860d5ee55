-- ===== src/Clock/Group.antt =====
-- `event` and `event_group` of src/clock.hpp. A group is the list of its members in the order of its
-- template arguments.
pub mod Balance
use bbench.Base.{Bool, false, List, [], ◌∷◌, Option, none, some, map, if◌then◌else◌}
use bbench.Base.Int.{ℤ}
use bbench.Base.Float.{Float}
use bbench.Perf.Abi.{PerfAbi}
use bbench.Perf.Sys.{Os, World}
use bbench.Perf.KernelClock.{
  KernelClock, make, set_inherit, set_pinned, set_enable_on_exec, open_this, reopen_pid, start,
  stop, read_scaled, destroy,
}
use bbench.Clock.Kinds.{EventKind, same_kind}

-- An `event`: its type, and the clock that it derives from.
pub record Member : Type 0 where
  pub kind : EventKind
  pub clock : KernelClock

-- `event(const quiet &)`
unfoldable pub quiet_member : PerfAbi → EventKind → Member
quiet_member abi k = record { kind = k; clock = make abi k.land k.type k.event_type }

-- `event_group(quiet{})`
unfoldable pub quiet_group : PerfAbi → List EventKind → List Member
quiet_group abi ks = map (quiet_member abi) ks

-- `set_inherit`, `set_pinned` and `set_enable_on_exec` of all members.
unfoldable pub set_all : (KernelClock → KernelClock) → List Member → List Member
set_all f gr = map {A = Member} (λ m. record m { clock = f m.clock }) gr

-- `get<T>()`, where a member has that type.
unfoldable pub get : EventKind → List Member → Option Member
get k [] = none
get k (m ∷ gr) = if same_kind k m.kind then some m else get k gr

module _ (os : Os) where
  -- `event()`: the descriptor is opened at once.
  unfoldable pub make_event : PerfAbi → EventKind → World → Member × World
  make_event abi k w =
      let m = quiet_member abi k in
      let (_, c, w1) = open_this os m.clock w in (record m { clock = c }, w1)

  unfoldable pub open_all : List Member → World → List Member × World
  open_all [] w = ([], w)
  open_all (m ∷ gr) w =
      let (_, c, w1) = open_this os m.clock w in
      let (gr', w2) = open_all gr w1 in (record m { clock = c } ∷ gr', w2)

  unfoldable pub reopen_all : ℤ → List Member → World → List Member × World
  reopen_all pid [] w = ([], w)
  reopen_all pid (m ∷ gr) w =
      let (_, c, w1) = reopen_pid os pid m.clock w in
      let (gr', w2) = reopen_all pid gr w1 in (record m { clock = c } ∷ gr', w2)

  unfoldable pub begin_all : List Member → World → World
  begin_all [] w = w
  begin_all (m ∷ gr) w = begin_all gr (start os false m.clock w)

  unfoldable pub end_all : List Member → World → World
  end_all [] w = w
  end_all (m ∷ gr) w = end_all gr (stop os false m.clock w)

  -- The destructors of the members, in the order of micron's tuple: here from the last to the first.
  unfoldable pub destroy_all : List Member → World → World
  destroy_all [] w = w
  destroy_all (m ∷ gr) w = destroy os m.clock (destroy_all gr w)

  -- `event::operator()`: a function between start and stop, and the count.
  unfoldable pub count_call : Float → Member → (World → World) → World → ℤ × World
  count_call fl m f w =
      read_scaled fl os m.clock (stop os false m.clock (f (start os false m.clock w)))
