-- ===== src/Tests/Groups.antt =====
-- Groups of events, and programs that first_world held back.
use bbench.Base.{◌≡◌, refl, true, List, [], ◌∷◌, ◌++◌, none, some, map, All}
use bbench.Base.Int.{ℤ, pos, neg}
use bbench.Base.Text.{codes, plain_strings}
use bbench.Perf.Sys.{World, syscall}
use bbench.Perf.KernelClock.{KernelClock, read_scaled}
use bbench.Perf.KernelClock.Balance.{Balanced}
use bbench.Events.Table.{EventDef}
use bbench.Events.Dynamic.{DynamicEvent, fresh_event, make_group, group_reopen, event_retrieve}
use bbench.Events.Dynamic.Coherent.{IsCoherent, count_invalid, group_reopen-count_invalid}
use bbench.Events.Dynamic.Balance.{holds, group_reopen-Balanced}
use bbench.Topdown.{TdEvent, fresh_td, retrieve_scaled}
use bbench.Topdown.Agreement.{event_retrieve-read_scaled}
use bbench.Process.{ok, argv_of, strings, process_attach}
use bbench.Process.Argv.{argv_of-strings}
use bbench.Process.Attach.{process_attach-Balanced}
use bbench.Tests.Machine.{plain_float, plain_abi, plain_os, plain_os-ReturnsInt}

abbrev first_world : World
first_world = record { log = []; errno = pos 0 }

abbrev defs : List EventDef
defs =
    record { name = codes "cycles"; type = 0; config = 0 }
    ∷ record { name = codes "cs"; type = 1; config = 3 }
    ∷ []

abbrev attach_group : ℤ → List DynamicEvent → World → List DynamicEvent × World
attach_group pid es w = let (_, es', w') = group_reopen plain_os pid es w in (es', w')

group_reopen-count_invalid_example :
    let (v, es', _) = group_reopen plain_os (pos 77) (make_group plain_abi defs true) first_world in
    (v ≡ neg (count_invalid es')) × All IsCoherent es'
group_reopen-count_invalid_example =
    group_reopen-count_invalid plain_os (pos 77) (make_group plain_abi defs true) first_world

abbrev open_clock : KernelClock
open_clock = record { event = fresh_event.attr; e_fd = pos 3; last_errno = pos 0 }

abbrev open_event : DynamicEvent
open_event = record fresh_event { e_fd = pos 3; valid = true }

abbrev open_td : TdEvent
open_td = record fresh_td { e_fd = pos 3 }

event_retrieve-read_scaled_example :
    (event_retrieve plain_float plain_os open_event first_world
      ≡ read_scaled plain_float plain_os open_clock first_world)
    × (retrieve_scaled plain_float plain_os open_td first_world
        ≡ read_scaled plain_float plain_os open_clock first_world)
event_retrieve-read_scaled_example =
    event_retrieve-read_scaled plain_float plain_os open_clock open_event open_td first_world refl
      refl refl

argv_of-strings_example :
    (argv_of (codes "ls") (codes "-l" ∷ codes "/" ∷ [])
      ≡ some (codes "ls") ∷ (map some (codes "-l" ∷ codes "/" ∷ []) ++ none ∷ []))
    × (strings (argv_of (codes "ls") (codes "-l" ∷ codes "/" ∷ []))
        ≡ codes "ls" ∷ codes "-l" ∷ codes "/" ∷ [])
argv_of-strings_example = argv_of-strings (codes "ls") (codes "-l" ∷ codes "/" ∷ [])

-- The parent goes on with the child's number.
attached_in_parent :
    (process_attach plain_os
      (codes "ls")
      attach_group
      (make_group plain_abi defs true)
      first_world).0
    ≡ ok (pos 77)
unfolding process_attach syscall
attached_in_parent = refl

process_attach-Balanced_example :
    let group = make_group plain_abi defs true in
    let (_, es', w') = process_attach plain_os (codes "ls") attach_group group first_world in
    Balanced 3 (holds 3 group) [] (holds 3 es') w'.log
process_attach-Balanced_example =
    process_attach-Balanced plain_os plain_os-ReturnsInt 3 attach_group (holds 3) (codes "ls")
      (make_group plain_abi defs true) first_world
      (λ pid w.
        group_reopen-Balanced plain_os plain_os-ReturnsInt 3 pid (make_group plain_abi defs true) w)
      (λ e. let a = attached_in_parent in cc)
