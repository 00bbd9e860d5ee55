-- ===== src/Events/List.antt =====
-- `parse_event_list` of src/events.hpp: the names of a comma-separated list, looked up in turn.
pub mod Fields
use bbench.Base.{
  ℕ, ◌-◌, Bool, true, false, List, [], ◌∷◌, ◌++◌, Option, none, some, ltb, length, ◌==◌,
  if◌then◌else◌,
}
use bbench.Base.Text.{CString, Micron}
use bbench.Base.Buffer.{buffer_size}
use bbench.Perf.Abi.{PerfAbi}
use bbench.Events.Table.{EventDef, lookup_event}

-- `out` and `all_ok`
pub record Listed : Type 0 where
  pub out : List EventDef
  pub all_ok : Bool

module _ ⦃m : Micron⦄ (abi : PerfAbi) where
  abbrev pub add_found : Option EventDef → Listed → Listed
  add_found (some e) r = record r { out = r.out ++ e ∷ [] }
  add_found none r = record r { all_ok = false }

  -- At a comma and at the end: `if (bi > 0) { … bi = 0; }`.
  unfoldable pub flush : CString → Listed → Listed
  flush [] r = r
  flush (c ∷ cs) r = add_found (lookup_event abi (some (c ∷ cs))) r

  -- The loop, with the bytes `buf[0] … buf[bi - 1]`. A byte beyond the buffer is dropped.
  unfoldable pub list_loop : CString → CString → Listed → Listed
  list_loop [] buf r = flush buf r
  list_loop (c ∷ p) buf r =
      let next = list_loop p [] (flush buf r) in
      let more =
        list_loop p (if ltb (length buf) (buffer_size - 1) then buf ++ c ∷ [] else buf) r in
      if c == b',' then next else more

  -- `parse_event_list(csv, out)` on a vector `out`; `none` is the null pointer.
  unfoldable pub parse_event_list : Option CString → List EventDef → Listed
  parse_event_list none out = record { out = out; all_ok = true }
  parse_event_list (some csv) out = list_loop csv [] (record { out = out; all_ok = true })
