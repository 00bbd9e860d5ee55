-- ===== src/Tests/Events.antt =====
-- Event lists.
use bbench.Base.{◌≡◌, refl, ◌↔◌, false, [], ◌∷◌, some}
use bbench.Base.Text.{codes, plain_strings, same}
use bbench.Events.Table.{EventDef, known_events, lookup_event, find_event}
use bbench.Events.Table.Names.{Row, lookup_event_iff}
use bbench.Events.List.{parse_event_list, list_loop, flush}
use bbench.Events.List.Fields.{rows_of, all_known, parse_event_list-join}
use bbench.Tests.Machine.{plain_abi}

abbrev cycles : EventDef
cycles = record { name = codes "cycles"; type = 0; config = 0 }

lookup_cycles : lookup_event plain_abi (some (codes "cycles")) ≡ some cycles
unfolding lookup_event find_event same known_events plain_abi
lookup_cycles = refl

listed : parse_event_list plain_abi (some (codes ",cycles,,nothing,cs,")) [] ≡ record {
  out = cycles ∷ record { name = codes "cs"; type = 1; config = 0 } ∷ [];
  all_ok = false;
}
unfolding parse_event_list list_loop flush lookup_event find_event same known_events plain_abi
listed = refl

lookup_event_iff_example :
    (lookup_event plain_abi (some (codes "cycles")) ≡ some cycles)
    ↔ (Row cycles (known_events plain_abi) × (cycles.name ≡ codes "cycles"))
lookup_event_iff_example = lookup_event_iff plain_abi (codes "cycles") cycles

parse_event_list-join_example :
    let r = parse_event_list plain_abi (some (codes "cycles,,cs")) [] in
    let names = codes "cycles" ∷ [] ∷ codes "cs" ∷ [] in
    (r.out ≡ rows_of plain_abi names) × (r.all_ok ≡ all_known plain_abi names)
parse_event_list-join_example =
    parse_event_list-join plain_abi (codes "cycles" ∷ [] ∷ codes "cs" ∷ []) []
      ((refl, (refl, (refl, (refl, (refl, (refl, tt)))))), (tt, ((refl, (refl, tt)), tt)))
