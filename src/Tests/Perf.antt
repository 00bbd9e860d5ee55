-- ===== src/Tests/Perf.antt =====
-- Kernel clocks over a concrete operating system.
use bbench.Base.{◌+◌, ◌≡◌, refl, false, List, [], ◌∷◌}
use bbench.Base.Int.{pos, to_i32}
use bbench.Perf.Abi.{total_inst}
use bbench.Perf.Sys.{World, syscall, perf_event_pid, pe_call}
use bbench.Perf.Attr.{userland, ClockType, EventType, init_attr}
use bbench.Perf.KernelClock.{
  KernelClock, make, destroy, open_pid, opened, reopen_pid, close_if_open, start, stop, read_scaled,
  read_triplet, read_counter,
}
use bbench.Perf.KernelClock.Balance.{opens, closes}
use bbench.Perf.KernelClock.Life.{
  Use, opening, reopening, starting, stopping, reading, use_once, use_all, lost, life-closes,
}
use bbench.Tests.Machine.{plain_float, plain_abi, plain_os, plain_os-ReturnsInt}

abbrev empty_world : World
empty_world = record { log = []; errno = pos 0 }

clock : KernelClock
unfolding make init_attr
clock = make plain_abi userland ClockType.hardware (EventType.hardware total_inst)

abbrev uses : List Use
uses =
    opening (pos 77)
    ∷ opening (pos 77)
    ∷ starting false
    ∷ stopping false
    ∷ reading
    ∷ reopening (pos 78)
    ∷ []

life-closes_example :
    let (c', w') = use_all plain_float plain_os uses (clock, empty_world) in
    let last = (destroy plain_os c' w').log in
    opens 3 last + closes 3 []
    ≡ opens 3 [] + closes 3 last + lost plain_float plain_os 3 uses (clock, empty_world)
unfolding clock make
life-closes_example =
    life-closes plain_float plain_os plain_os-ReturnsInt 3 uses clock empty_world refl

-- The second `open` leaves the descriptor of the first one open.
one_lost : lost plain_float plain_os 3 uses (clock, empty_world) ≡ 1
unfolding clock make use_once reopen_pid close_if_open start stop read_scaled read_triplet
    read_counter open_pid opened syscall perf_event_pid pe_call to_i32
one_lost = refl
