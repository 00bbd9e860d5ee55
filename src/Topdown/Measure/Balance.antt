-- ===== src/Topdown/Measure/Balance.antt =====
-- Descriptors over a whole run of `measure_bin`.
use bbench.Base.{ℕ, ◌≢◌, refl, true, false, not, arith, inl, inr, Bool-cases}
use bbench.Base.Int.{ℤ, pos, negsuc, ◌==ℤ◌}
use bbench.Base.Float.{Float}
use bbench.Base.Text.{CString}
use bbench.Perf.Abi.{PerfAbi}
use bbench.Perf.Sys.{Os, World, syscall, waitpid}
use bbench.Perf.KernelClock.Balance.{Balanced, ReturnsInt, Balanced-trans, syscall-Balanced}
use bbench.Cli.Options.{BenchmarkOpts}
use bbench.Process.{left, hung}
use bbench.Bench.Run.Settles.{
  Settles, Settles-trans, and_then-Settles, run_command-Settles, guarded-Settles, Settles-result,
}
use bbench.Bench.Run.Settles.Attached.{attached-Settles}
use bbench.Topdown.{fresh_td, td_configure, td_open_pid, retrieve_scaled}
use bbench.Topdown.Measure.{
  TdGroup, td_group, supported, open_five, destroy_five, end_five, read_fractions, measure_run,
  measure_supported, measure_bin, td_slots,
}
use bbench.Topdown.Measure.Descriptors.{
  five_hold, five_hold-td_group, td_open_pid-Balanced, open_five-Balanced, td_destroy-Balanced,
  destroy_five-Balanced, end_five-Balanced, retrieve_scaled-Balanced,
}

module _ (os : Os) (ints : ReturnsInt os) (n : ℕ) where
  module _ (fl : Float) (abi : PerfAbi) where
    read_fractions-Balanced :
        (g : TdGroup) (held : ℕ) (w : World)
        → Balanced n held w.log held (read_fractions fl os abi g w).1.log
    unfolding read_fractions
    read_fractions-Balanced g held w =
        let (s, w1) = retrieve_scaled fl os g.slots w in
        let (_, w2) = retrieve_scaled fl os g.retiring w1 in
        let (_, w3) = retrieve_scaled fl os g.bad_spec w2 in
        let (_, w4) = retrieve_scaled fl os g.fe_bound w3 in
        let first = retrieve_scaled-Balanced os ints n fl g.slots held w in
        elim (Bool-cases (s ==ℤ pos 0)) [
          | inl none_read ↦ rw none_read first
          | inr some_read ↦
              let r = retrieve_scaled-Balanced os ints n fl g.retiring held w1 in
              let b = retrieve_scaled-Balanced os ints n fl g.bad_spec held w2 in
              let f = retrieve_scaled-Balanced os ints n fl g.fe_bound held w3 in
              let k = retrieve_scaled-Balanced os ints n fl g.be_bound held w4 in
              rw some_read (omega arith)
        ]

    measure_run-Settles :
        (opts : BenchmarkOpts) (pid : ℤ) (g : TdGroup) (w : World)
        → Settles os ints n
            (five_hold n g)
            w.log
            (five_hold n g)
            (measure_run fl os abi opts pid g w)
    unfolding measure_run
    measure_run-Settles opts pid g w =
        let held = five_hold n g in
        let w1 : World = (syscall os (waitpid pid false) w).1 in
        let w2 = end_five os g w1 in
        let waited = syscall-Balanced os ints n (waitpid pid false) held w (λ s. refl) refl in
        Settles-trans os ints n held held held w.log w2 _
          (Balanced-trans os ints n held held held _ _ _ waited
            (end_five-Balanced os ints n g held w1))
          (and_then-Settles os ints n held w2.log _ _
            (run_command-Settles os ints n held opts.post w2)
            (λ u w3. read_fractions-Balanced g held w3))

    measure_supported-Settles :
        (path : CString) (opts : BenchmarkOpts) (w : World)
        → Settles os ints n 0 w.log 0 (measure_supported fl os abi path opts w)
    unfolding measure_supported
    measure_supported-Settles path opts w =
        let g = td_group abi opts.excl_kernel in
        let none_held = five_hold-td_group n abi opts.excl_kernel in
        guarded-Settles os ints n 0 0 0 (destroy_five os g) w.log _ _
          (λ w1. rw none_held at (destroy_five-Balanced os ints n g w1))
          (run_command-Settles os ints n 0 opts.pre w)
          (λ u w1. rw none_held at (
            attached-Settles os ints n (open_five os) (destroy_five os) (measure_run fl os abi opts)
              (five_hold n) (destroy_five-Balanced os ints n) (measure_run-Settles opts) path g w1
              (λ pid w2. rw none_held (open_five-Balanced os ints n pid g w2))))

  supported-Balanced :
      (abi : PerfAbi) (cached : ℤ) (w : World)
      → let (_, _, w') = supported os abi cached w in Balanced n 0 w.log 0 w'.log
  unfolding supported
  supported-Balanced abi cached w =
      let probe = td_configure abi td_slots true fresh_td in
      let (r, opened, w1) = td_open_pid os (pos 0) probe w in
      let opens = td_open_pid-Balanced os ints n (pos 0) probe 0 w in
      let closes = td_destroy-Balanced os ints n opened w1 in
      elim (Bool-cases (not (cached ==ℤ negsuc 0))) [
        | inl known ↦ rw known refl
        | inr unknown ↦ elim (Bool-cases (not (r ==ℤ negsuc 0))) [
          | inl yes_ ↦ rw (unknown, yes_) (omega arith)
          | inr no_ ↦ rw (unknown, no_) (omega arith)
        ]
      ]

  pub measure_bin-Settles :
      (fl : Float) (abi : PerfAbi) (path : CString) (opts : BenchmarkOpts) (cached : ℤ) (w : World)
      → Settles os ints n 0 w.log 0 (measure_bin fl os abi path opts cached w).1
  unfolding measure_bin
  measure_bin-Settles fl abi path opts cached w =
      let (answer, _, w1) = supported os abi cached w in
      let asked = supported-Balanced abi cached w in
      elim (Bool-cases (not answer)) [
        | inl no_ ↦ rw no_ asked
        | inr yes_ ↦ rw yes_ (
            Settles-trans os ints n 0 0 0 w.log w1 _ asked
              (measure_supported-Settles fl abi path opts w1))
      ]

-- `measure_bin` whatever the answer of `supported` was: unless it ends in a child that left, it
-- returns or throws, and every descriptor that it opened is closed. The numbers that `perf_event_open`
-- returns must be ints.
pub measure_bin-Balanced :
    (fl : Float) (os : Os) (abi : PerfAbi) (path : CString) (opts : BenchmarkOpts) (cached : ℤ)
    (w : World) (n : ℕ)
    → ReturnsInt os
    → (measure_bin fl os abi path opts cached w).1.0 ≢ left
    → let (_, (o, w')) = measure_bin fl os abi path opts cached w in
      (o ≢ hung) × Balanced n 0 w.log 0 w'.log
measure_bin-Balanced fl os abi path opts cached w n ints stays =
    Settles-result os ints n 0 0 w.log (measure_bin fl os abi path opts cached w).1
      (measure_bin-Settles os ints n fl abi path opts cached w) stays
