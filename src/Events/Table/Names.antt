-- ===== src/Events/Table/Names.antt =====
-- What `lookup_event` finds.
use mathlib.Core.Option.{some-injective}
use mathlib.Core.Logic.{◌↔◌}
use bbench.Base.{
  ◌≤◌, ◌<◌, ◌≡◌, refl, sym, ◌∙◌, ap, ◌⊎◌, inl, inr, Bool, true, false, ◌&&◌, not, List, [], ◌∷◌,
  none, some, arith, length, All, Bool-cases, Option-cases,
}
use bbench.Base.Text.{CString, Micron, same, same_iff, same-equal_bytes, equal_bytes}
use bbench.Perf.Abi.{PerfAbi}
use bbench.Events.Table.{EventDef, known_events, find_event, lookup_event}

-- No name of the table is longer than 25 bytes.
pub known_events_short : (abi : PerfAbi) → All (λ e. length e.name ≤ 25) (known_events abi)
unfolding known_events
known_events_short abi = omega arith

-- Each row stands under its own name: the first row of that name is the row itself.
abbrev fresh : CString → List EventDef → Bool
fresh name [] = true
fresh name (e ∷ es) = not (equal_bytes e.name name) && fresh name es

abbrev distinct : List EventDef → Bool
distinct [] = true
distinct (e ∷ es) = fresh e.name es && distinct es

known_events-distinct : (abi : PerfAbi) → distinct (known_events abi) ≡ true
unfolding known_events
known_events-distinct abi = refl

-- `e` is a row of the table.
abbrev pub Row : EventDef → List EventDef → Type 0
Row e [] = ⊥
Row e (x ∷ xs) = (x ≡ e) ⊎ Row e xs

equal_self : ⦃m : Micron⦄ → (a : CString) → equal_bytes a a ≡ true
equal_self a = sym (same-equal_bytes a a) ∙ (same_iff a a).1 refl

Row-short :
    (es : List EventDef) (e : EventDef)
    → All (λ x. length x.name ≤ 25) es
    → Row e es
    → length e.name ≤ 25
Row-short [] e h r = absurd r
Row-short (x ∷ es) e h (inl q) = rw (← q) h.0
Row-short (x ∷ es) e h (inr r) = Row-short es e h.1 r

module _ ⦃m : Micron⦄ where
  fresh-Row :
      (name : CString) (es : List EventDef) (e : EventDef)
      → fresh name es ≡ true
      → Row e es
      → same name e.name ≡ false
  fresh-Row name [] e f r = absurd r
  fresh-Row name (x ∷ es) e f (inl q) = ground (
    arith,
    same_iff name e.name,
    same_iff x.name name,
    same-equal_bytes x.name name,
    ap (λ (d : EventDef). d.name) q,
  )
  fresh-Row name (x ∷ es) e f (inr r) = fresh-Row name es e (ground arith) r

  find_event-Row :
      (es : List EventDef) (e : EventDef)
      → distinct es ≡ true
      → Row e es
      → find_event e.name es ≡ some e
  unfolding find_event
  find_event-Row [] e d r = absurd r
  find_event-Row (x ∷ es) e d (inl q) = rw q (rw ((same_iff e.name e.name).1 refl))
  find_event-Row (x ∷ es) e d (inr r) =
      rw (fresh-Row x.name es e (ground arith) r) (find_event-Row es e (ground arith) r)

  find_event_sound :
      (name : CString) (es : List EventDef) (e : EventDef)
      → find_event name es ≡ some e
      → Row e es × (e.name ≡ name)
  unfolding find_event
  find_event_sound name [] e h = cc
  find_event_sound name (x ∷ es) e h = elim (Bool-cases (same x.name name)) [
    | inl here ↦
        let q : x ≡ e = some-injective x e (rw here at h) in
        (inl q, rw (← q) ((same_iff x.name name).0 here))
    | inr more ↦ let (r, n) = find_event_sound name es e (rw more at h) in (inr r, n)
  ]

  -- `lookup_event` finds a row exactly if the row stands in the table under that name.
  pub lookup_event_iff :
      (abi : PerfAbi) (name : CString) (e : EventDef)
      → (lookup_event abi (some name) ≡ some e) ↔ (Row e (known_events abi) × (e.name ≡ name))
  unfolding lookup_event
  lookup_event_iff abi name e = (
    find_event_sound name (known_events abi) e,
    λ (r, n). rw (← n) (find_event-Row (known_events abi) e (known_events-distinct abi) r),
  )

  -- A name that is too long for the table is not found.
  pub lookup_event_long :
      (abi : PerfAbi) (name : CString) → 25 < length name → lookup_event abi (some name) ≡ none
  lookup_event_long abi name h = elim (Option-cases (lookup_event abi (some name))) [
    | inl e ↦ e
    | inr (e, q) ↦
        let (r, n) = (lookup_event_iff abi name e).0 q in
        absurd
          (omega (arith, Row-short (known_events abi) e (known_events_short abi) r, ap length n))
  ]
