-- ===== src/Events/Dynamic/Balance.antt =====
-- Descriptors of a group of dynamic events: what is opened is closed.
use bbench.Base.{ℕ, ◌+◌, ◌≡◌, refl, Bool, List, [], ◌∷◌, arith, if◌then◌else◌, Bool-cases, inl, inr}
use bbench.Base.Int.{ℤ, negsuc, ◌==ℤ◌, to_i32}
use bbench.Base.Float.{Float}
use bbench.Perf.Abi.{PerfAbi}
use bbench.Perf.Sys.{Os, World, perf_event_pid}
use bbench.Perf.KernelClock.{close_if_open}
use bbench.Perf.KernelClock.Balance.{
  is_descriptor, Balanced, ReturnsInt, Balanced-trans, close_if_open-Balanced, syscall-Balanced,
  read_counter-Balanced, perf_event_pid-Balanced,
}
use bbench.Events.Table.{EventDef}
use bbench.Events.Dynamic.{
  DynamicEvent, configure, event_opened, event_open_pid, event_reopen, event_end, event_destroy,
  event_retrieve, group_end, group_destroy, reopen_loop, group_reopen, make_group, for_each,
  group_set,
}

-- How often the events of a group hold descriptor `n`.
abbrev pub holds : ℕ → List DynamicEvent → ℕ
holds n [] = 0
holds n (e ∷ es) = is_descriptor n e.e_fd + holds n es

module _ (os : Os) (ints : ReturnsInt os) (n : ℕ) where
  event_opened-log :
      (e : DynamicEvent) (r : ℤ) (w : World)
      → let (_, e', w') = event_opened e (r, w) in (w'.log ≡ w.log) × (e'.e_fd ≡ to_i32 r)
  unfolding event_opened
  event_opened-log e r w = ground arith

  event_reopen-Balanced :
      (pid : ℤ) (e : DynamicEvent) (w : World)
      → let (_, e', w') = event_reopen os pid e w in
        Balanced n (is_descriptor n e.e_fd) w.log (is_descriptor n e'.e_fd) w'.log
  unfolding event_reopen event_open_pid
  event_reopen-Balanced pid e w =
      let w1 = close_if_open os e.e_fd w in
      let (v, w2) = perf_event_pid os e.attr pid w1 in
      let (l, f) = event_opened-log e v w2 in
      Balanced-trans os ints n _ 0 _ _ _ _ (close_if_open-Balanced os ints n e.e_fd w)
        (rw (l, f) (perf_event_pid-Balanced os ints n e.attr pid w1))

  event_end-Balanced :
      (e : DynamicEvent) (held : ℕ) (w : World) → Balanced n held w.log held (event_end os e w).log
  unfolding event_end
  event_end-Balanced e held w = elim (Bool-cases e.valid) [
    | inl v ↦ rw v (syscall-Balanced os ints n _ held w (λ s. refl) refl)
    | inr v ↦ rw v
  ]

  pub group_end-Balanced :
      (es : List DynamicEvent) (held : ℕ) (w : World)
      → Balanced n held w.log held (group_end os es w).log
  unfolding group_end
  group_end-Balanced [] held w = refl
  group_end-Balanced (e ∷ es) held w =
      Balanced-trans os ints n held held held _ _ _ (event_end-Balanced e held w)
        (group_end-Balanced es held (event_end os e w))

  pub group_destroy-Balanced :
      (es : List DynamicEvent) (w : World)
      → Balanced n (holds n es) w.log 0 (group_destroy os es w).log
  unfolding group_destroy event_destroy
  group_destroy-Balanced [] w = refl
  group_destroy-Balanced (e ∷ es) w = omega (
    arith,
    group_destroy-Balanced es w,
    close_if_open-Balanced os ints n e.e_fd (group_destroy os es w),
  )

  pub reopen_loop-Balanced :
      (pid : ℤ) (es : List DynamicEvent) (bad : ℕ) (w : World)
      → let (_, es', w') = reopen_loop os pid es bad w in
        Balanced n (holds n es) w.log (holds n es') w'.log
  unfolding reopen_loop
  reopen_loop-Balanced pid [] bad w = refl
  reopen_loop-Balanced pid (e ∷ es) bad w =
      let (r, e', w1) = event_reopen os pid e w in
      omega (
        arith,
        event_reopen-Balanced pid e w,
        reopen_loop-Balanced pid es (if r ==ℤ negsuc 0 then bad + 1 else bad) w1,
      )

  pub group_reopen-Balanced :
      (pid : ℤ) (es : List DynamicEvent) (w : World)
      → let (_, es', w') = group_reopen os pid es w in
        Balanced n (holds n es) w.log (holds n es') w'.log
  unfolding group_reopen
  group_reopen-Balanced pid es w = reopen_loop-Balanced pid es 0 w

  event_retrieve-Balanced :
      (fl : Float) (e : DynamicEvent) (held : ℕ) (w : World)
      → Balanced n held w.log held (event_retrieve fl os e w).1.log
  unfolding event_retrieve
  event_retrieve-Balanced fl e held w = elim (Bool-cases e.valid) [
    | inl v ↦ rw v (read_counter-Balanced os ints n e.e_fd held w)
    | inr v ↦ rw v
  ]

  pub for_each-Balanced :
      (fl : Float) (es : List DynamicEvent) (held : ℕ) (w : World)
      → let (_, w') = for_each fl os es w in Balanced n held w.log held w'.log
  unfolding for_each
  for_each-Balanced fl [] held w = refl
  for_each-Balanced fl (e ∷ es) held w =
      let (v, w1) = event_retrieve fl os e w in
      Balanced-trans os ints n held held held _ _ _ (event_retrieve-Balanced fl e held w)
        (for_each-Balanced fl es held w1)

-- A new group holds no descriptor.
pub holds-make_group :
    (n : ℕ) (abi : PerfAbi) (defs : List EventDef) (excl : Bool)
    → holds n (make_group abi defs excl) ≡ 0
unfolding make_group configure
holds-make_group n abi [] excl = refl
holds-make_group n abi (d ∷ defs) excl = omega (arith, holds-make_group n abi defs excl)

-- Changing attributes changes no descriptor.
pub holds-group_set :
    (n : ℕ) (f : DynamicEvent → DynamicEvent) (es : List DynamicEvent)
    → ((e : DynamicEvent) → (f e).e_fd ≡ e.e_fd)
    → holds n (group_set f es) ≡ holds n es
unfolding group_set
holds-group_set n f [] h = refl
holds-group_set n f (e ∷ es) h = rw (h e, holds-group_set n f es h)
