-- ===== src/Bench/Run/Settles/Timed.antt =====
-- Descriptors over `time_run`: the part of a run between the two readings of the clock.
use bbench.Base.{ℕ, refl, inl, inr, ltb, if◌then◌else◌, Bool-cases}
use bbench.Base.Int.{ℤ}
use bbench.Perf.Sys.{Os, World, realtime_alarm}
use bbench.Perf.SystemClock.{SystemClock}
use bbench.Perf.KernelClock.Balance.{Balanced, ReturnsInt}
use bbench.Cli.Options.{BenchmarkOpts}
use bbench.Bench.Wait.{sleep_ms, wait_with_timeout}
use bbench.Bench.Wait.Returns.{IsMonotonic, wait_with_timeout-IsWaited}
use bbench.Bench.Wait.Balance.{sleep_ms-Keeps, wait_with_timeout-Ends}
use bbench.Bench.Run.{on_wait, time_run}
use bbench.Bench.Run.Settles.{
  Settles, Settles-trans, and_then-Settles, start_clock-Settles, stop_clock-Settles,
  run_command-Settles,
}

module _ (os : Os) (ints : ReturnsInt os) (n : ℕ) (clock : IsMonotonic os) where
  wait-Settles :
      (held : ℕ) (pid : ℤ) (timeout_ms : ℕ) (w : World)
      → Settles os ints n held w.log held (on_wait w (wait_with_timeout os pid timeout_ms w))
  wait-Settles held pid timeout_ms w =
      let (w', returned, _) = wait_with_timeout-IsWaited os pid timeout_ms w clock in
      let kept = wait_with_timeout-Ends os ints n held pid timeout_ms w in
      rw returned (rw returned at kept)

  pub time_run-Settles :
      (held : ℕ) (opts : BenchmarkOpts) (pid : ℤ) (cl : SystemClock) (end_all : World → World)
      (w : World)
      → ((w1 : World) → Balanced n held w1.log held (end_all w1).log)
      → Settles os ints n held w.log held (time_run os opts pid cl end_all w)
  unfolding time_run
  time_run-Settles held opts pid cl end_all w ends =
      let w1 : World = if ltb 0 opts.delay_ms then sleep_ms os opts.delay_ms w else w in
      let slept : Balanced n held w.log held w1.log = elim (Bool-cases (ltb 0 opts.delay_ms)) [
        | inl late ↦ rw late (sleep_ms-Keeps os ints n held opts.delay_ms w)
        | inr at_once ↦ rw at_once
      ] in
      Settles-trans os ints n held held held w.log w1 _ slept (
        and_then-Settles os ints n held w1.log _ _
          (start_clock-Settles os ints n held realtime_alarm cl w1)
          (λ cl1 w2.
            and_then-Settles os ints n held w2.log _ _ (wait-Settles held pid opts.timeout_ms w2)
              (λ u w3.
                and_then-Settles os ints n held w3.log _ _
                  (stop_clock-Settles os ints n held realtime_alarm cl1 w3)
                  (λ cl2 w4.
                    let w5 = end_all w4 in
                    Settles-trans os ints n held held held w4.log w5 _ (ends w4) (
                      and_then-Settles os ints n held w5.log _ _
                        (run_command-Settles os ints n held opts.post w5) (λ v w6. refl))))))
