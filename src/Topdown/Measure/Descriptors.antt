-- ===== src/Topdown/Measure/Descriptors.antt =====
-- Descriptors over the five events of the top-down analysis.
use bbench.Base.{ℕ, ◌+◌, ◌≡◌, refl, Bool, arith, inl, inr, Bool-cases}
use bbench.Base.Int.{ℤ, negsuc, to_i32, ◌==ℤ◌}
use bbench.Base.Float.{Float}
use bbench.Perf.Abi.{PerfAbi}
use bbench.Perf.Sys.{Os, World, perf_event_pid}
use bbench.Perf.KernelClock.Balance.{
  is_descriptor, Balanced, ReturnsInt, perf_event_pid-Balanced, syscall-Balanced,
  close_if_open-Balanced, read_counter-Balanced,
}
use bbench.Topdown.{TdEvent, td_configure, td_open_pid, td_end, retrieve_scaled}
use bbench.Topdown.Measure.{
  TdGroup, on_exec_event, td_group, td_destroy, open_five, destroy_five, end_five,
}

abbrev pub five_hold : ℕ → TdGroup → ℕ
five_hold n g =
    is_descriptor n g.slots.e_fd
    + (is_descriptor n g.retiring.e_fd
        + (is_descriptor n g.bad_spec.e_fd
            + (is_descriptor n g.fe_bound.e_fd + is_descriptor n g.be_bound.e_fd)))

pub five_hold-td_group :
    (n : ℕ) (abi : PerfAbi) (excl_kernel : Bool) → five_hold n (td_group abi excl_kernel) ≡ 0
unfolding td_group on_exec_event td_configure
five_hold-td_group n abi excl_kernel = refl

module _ (os : Os) (ints : ReturnsInt os) (n : ℕ) where
  td_open_pid-log :
      (pid : ℤ) (e : TdEvent) (w : World)
      → let (v, w1) = perf_event_pid os e.attr pid w in
        let (_, e', w') = td_open_pid os pid e w in (w'.log ≡ w1.log) × (e'.e_fd ≡ to_i32 v)
  unfolding td_open_pid
  td_open_pid-log pid e w = ground arith

  -- A fresh descriptor is held in place of the one before, which stays open if there was one.
  pub td_open_pid-Balanced :
      (pid : ℤ) (e : TdEvent) (held : ℕ) (w : World)
      → let (_, e', w') = td_open_pid os pid e w in
        Balanced n held w.log (is_descriptor n e'.e_fd + held) w'.log
  td_open_pid-Balanced pid e held w =
      let (l, f) = td_open_pid-log pid e w in
      let moved = perf_event_pid-Balanced os ints n e.attr pid w in rw (l, f) (omega arith)

  pub open_five-Balanced :
      (pid : ℤ) (g : TdGroup) (w : World)
      → let (g', w') = open_five os pid g w in Balanced n 0 w.log (five_hold n g') w'.log
  unfolding open_five
  open_five-Balanced pid g w =
      let (_, s, w1) = td_open_pid os pid g.slots w in
      let (_, r, w2) = td_open_pid os pid g.retiring w1 in
      let (_, b, w3) = td_open_pid os pid g.bad_spec w2 in
      let (_, f, w4) = td_open_pid os pid g.fe_bound w3 in
      omega (
        arith,
        td_open_pid-Balanced pid g.slots 0 w,
        td_open_pid-Balanced pid g.retiring 0 w1,
        td_open_pid-Balanced pid g.bad_spec 0 w2,
        td_open_pid-Balanced pid g.fe_bound 0 w3,
        td_open_pid-Balanced pid g.be_bound 0 w4,
      )

  pub td_destroy-Balanced :
      (e : TdEvent) (w : World)
      → Balanced n (is_descriptor n e.e_fd) w.log 0 (td_destroy os e w).log
  unfolding td_destroy
  td_destroy-Balanced e w = close_if_open-Balanced os ints n e.e_fd w

  pub destroy_five-Balanced :
      (g : TdGroup) (w : World) → Balanced n (five_hold n g) w.log 0 (destroy_five os g w).log
  unfolding destroy_five
  destroy_five-Balanced g w =
      let w1 = td_destroy os g.be_bound w in
      let w2 = td_destroy os g.fe_bound w1 in
      let w3 = td_destroy os g.bad_spec w2 in
      let w4 = td_destroy os g.retiring w3 in
      omega (
        arith,
        td_destroy-Balanced g.be_bound w,
        td_destroy-Balanced g.fe_bound w1,
        td_destroy-Balanced g.bad_spec w2,
        td_destroy-Balanced g.retiring w3,
        td_destroy-Balanced g.slots w4,
      )

  td_end-Balanced :
      (e : TdEvent) (held : ℕ) (w : World) → Balanced n held w.log held (td_end os e w).log
  unfolding td_end
  td_end-Balanced e held w = elim (Bool-cases (e.e_fd ==ℤ negsuc 0)) [
    | inl closed ↦ rw closed
    | inr going ↦ rw going (syscall-Balanced os ints n _ held w (λ s. refl) refl)
  ]

  pub end_five-Balanced :
      (g : TdGroup) (held : ℕ) (w : World) → Balanced n held w.log held (end_five os g w).log
  unfolding end_five
  end_five-Balanced g held w =
      let w1 = td_end os g.slots w in
      let w2 = td_end os g.retiring w1 in
      let w3 = td_end os g.bad_spec w2 in
      let w4 = td_end os g.fe_bound w3 in
      omega (
        arith,
        td_end-Balanced g.slots held w,
        td_end-Balanced g.retiring held w1,
        td_end-Balanced g.bad_spec held w2,
        td_end-Balanced g.fe_bound held w3,
        td_end-Balanced g.be_bound held w4,
      )

  module _ (fl : Float) where
    pub retrieve_scaled-Balanced :
        (e : TdEvent) (held : ℕ) (w : World)
        → Balanced n held w.log held (retrieve_scaled fl os e w).1.log
    unfolding retrieve_scaled
    retrieve_scaled-Balanced e held w = elim (Bool-cases (e.e_fd ==ℤ negsuc 0)) [
      | inl closed ↦ rw closed
      | inr going ↦ rw going (read_counter-Balanced os ints n e.e_fd held w)
    ]
