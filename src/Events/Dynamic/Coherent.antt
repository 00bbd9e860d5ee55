-- ===== src/Events/Dynamic/Coherent.antt =====
-- The flag `valid` says whether there is a descriptor, and what the group reports.
use native.Mathlib.Nat.{zero-add}
use bbench.Base.{ℕ, ◌+◌, ◌≡◌, ◌∙◌, ap, not, List, [], ◌∷◌, arith, All, if◌then◌else◌}
use bbench.Base.Int.{ℤ, negsuc, neg, ◌==ℤ◌}
use bbench.Perf.Sys.{Os, World, perf_event_pid}
use bbench.Perf.KernelClock.{is_open, close_if_open}
use bbench.Events.Dynamic.{
  DynamicEvent, event_opened, event_open_pid, event_reopen, reopen_loop, group_reopen,
}

abbrev pub IsCoherent : DynamicEvent → Type 0
IsCoherent e = e.valid ≡ is_open e.e_fd

-- How many events of a group did not open.
abbrev pub count_invalid : List DynamicEvent → ℕ
count_invalid [] = 0
count_invalid (e ∷ es) = (if e.valid then 0 else 1) + count_invalid es

pub event_opened-IsCoherent :
    (e : DynamicEvent) (r : ℤ) (w : World) → let (_, e', _) = event_opened e (r, w) in IsCoherent e'
unfolding event_opened
event_opened-IsCoherent e r w = ground arith

event_opened_failed :
    (e : DynamicEvent) (r : ℤ) (w : World)
    → let (v, e', _) = event_opened e (r, w) in (v ==ℤ negsuc 0) ≡ not e'.valid
unfolding event_opened
event_opened_failed e r w = ground arith

module _ (os : Os) where
  event_reopen-IsCoherent :
      (pid : ℤ) (e : DynamicEvent) (w : World)
      → let (_, e', _) = event_reopen os pid e w in IsCoherent e'
  unfolding event_reopen event_open_pid
  event_reopen-IsCoherent pid e w =
      let (r, w1) = perf_event_pid os e.attr pid (close_if_open os e.e_fd w) in
      event_opened-IsCoherent e r w1

  event_reopen_failed :
      (pid : ℤ) (e : DynamicEvent) (w : World)
      → let (v, e', _) = event_reopen os pid e w in (v ==ℤ negsuc 0) ≡ not e'.valid
  unfolding event_reopen event_open_pid
  event_reopen_failed pid e w =
      let (r, w1) = perf_event_pid os e.attr pid (close_if_open os e.e_fd w) in
      event_opened_failed e r w1

  reopen_loop-count_invalid :
      (pid : ℤ) (es : List DynamicEvent) (bad : ℕ) (w : World)
      → let (bad', es', _) = reopen_loop os pid es bad w in
        (bad' ≡ bad + count_invalid es') × All IsCoherent es'
  unfolding reopen_loop
  reopen_loop-count_invalid pid [] bad w = (omega arith, tt)
  reopen_loop-count_invalid pid (e ∷ es) bad w =
      let (r, e', w1) = event_reopen os pid e w in
      let (sum, rest) =
        reopen_loop-count_invalid pid es (if r ==ℤ negsuc 0 then bad + 1 else bad) w1 in
      (ground (arith, sum, event_reopen_failed pid e w), (event_reopen-IsCoherent pid e w, rest))

  -- Reopening a group on a process returns minus the number of its events that did not open, and
  -- leaves every event with the flag `valid` set exactly if it holds a descriptor.
  pub group_reopen-count_invalid :
      (pid : ℤ) (es : List DynamicEvent) (w : World)
      → let (v, es', _) = group_reopen os pid es w in
        (v ≡ neg (count_invalid es')) × All IsCoherent es'
  unfolding group_reopen
  group_reopen-count_invalid pid es w =
      let (sum, rest) = reopen_loop-count_invalid pid es 0 w in (ap neg (sum ∙ zero-add _), rest)
