-- ===== src/Bench/Dynamic/Balance.antt =====
-- Descriptors over a whole run of `benchmark_bin_dynamic`.
use bbench.Base.{ℕ, ◌≡◌, ◌≢◌, refl, ◌∙◌, List}
use bbench.Base.Int.{ℤ}
use bbench.Base.Float.{Float}
use bbench.Base.Text.{CString}
use bbench.Perf.Abi.{PerfAbi}
use bbench.Perf.Sys.{Os, World}
use bbench.Perf.SystemClock.{SystemClock}
use bbench.Perf.KernelClock.Balance.{Balanced, ReturnsInt}
use bbench.Cli.Options.{BenchmarkOpts}
use bbench.Events.Table.{EventDef}
use bbench.Events.Dynamic.{
  DynamicEvent, group_end, group_destroy, event_enable_on_exec, event_pinned, event_inherit,
}
use bbench.Events.Dynamic.Balance.{
  holds, group_reopen-Balanced, group_end-Balanced, group_destroy-Balanced, for_each-Balanced,
  holds-make_group, holds-group_set,
}
use bbench.Process.{left, hung}
use bbench.Process.Attach.{Attaches}
use bbench.Bench.Wait.Returns.{IsMonotonic}
use bbench.Bench.Run.Settles.{
  Settles, and_then-Settles, make_clock-Settles, run_pre-Settles, guarded-Settles, Settles-result,
}
use bbench.Bench.Run.Settles.Attached.{attached-Settles}
use bbench.Bench.Run.Settles.Timed.{time_run-Settles}
use bbench.Bench.Dynamic.{
  reopen_group, dynamic_group, collect_rows, attached_run, benchmark_bin_dynamic,
}

module _ (os : Os) (ints : ReturnsInt os) (n : ℕ) where
  reopen_group-Attaches :
      (gr : List DynamicEvent) → Attaches os ints n (reopen_group os) (holds n) gr
  unfolding reopen_group
  reopen_group-Attaches gr pid w = group_reopen-Balanced os ints n pid gr w

  module _ (clock : IsMonotonic os) (fl : Float) (abi : PerfAbi)
      (microseconds : fl.Double → fl.Double) where
    collect_rows-Settles :
        (s : CString) (opts : BenchmarkOpts) (cl : SystemClock) (pid : ℤ) (gr : List DynamicEvent)
        (w : World)
        → Settles os ints n
            (holds n gr)
            w.log
            (holds n gr)
            (collect_rows fl os abi microseconds s opts pid cl gr w)
    unfolding collect_rows
    collect_rows-Settles s opts cl pid gr w =
        and_then-Settles os ints n (holds n gr) w.log _ _
          (time_run-Settles os ints n clock (holds n gr) opts pid cl (group_end os gr) w
            (group_end-Balanced os ints n gr (holds n gr)))
          (λ cl1 w1. for_each-Balanced os ints n fl gr (holds n gr) w1)

    attached_run-Settles :
        (s : CString) (opts : BenchmarkOpts) (cl : SystemClock) (gr : List DynamicEvent) (w : World)
        → Settles os ints n
            (holds n gr)
            w.log
            0
            (attached_run fl os abi microseconds s opts cl gr w)
    unfolding attached_run
    attached_run-Settles s opts cl gr w =
        attached-Settles os ints n (reopen_group os) (group_destroy os) _ (holds n)
          (group_destroy-Balanced os ints n) (collect_rows-Settles s opts cl) s gr w
          (reopen_group-Attaches gr)

    holds-dynamic_group :
        (defs : List EventDef) (opts : BenchmarkOpts)
        → holds n (dynamic_group fl os abi microseconds defs opts) ≡ 0
    unfolding dynamic_group event_enable_on_exec event_pinned event_inherit
    holds-dynamic_group defs opts =
        holds-group_set n _ _ (λ e. refl)
        ∙ holds-group_set n _ _ (λ e. refl)
        ∙ holds-group_set n _ _ (λ e. refl)
        ∙ holds-make_group n abi defs opts.excl_kernel

    pub benchmark_bin_dynamic-Settles :
        (s : CString) (defs : List EventDef) (opts : BenchmarkOpts) (w : World)
        → Settles os ints n 0 w.log 0 (benchmark_bin_dynamic fl os abi microseconds s defs opts w)
    unfolding benchmark_bin_dynamic
    benchmark_bin_dynamic-Settles s defs opts w =
        let gr = dynamic_group fl os abi microseconds defs opts in
        let held = holds n gr in
        rw (holds-dynamic_group defs opts) at (
          guarded-Settles os ints n held held 0 (group_destroy os gr) w.log _ _
            (group_destroy-Balanced os ints n gr)
            (and_then-Settles os ints n held w.log _ _ (make_clock-Settles os ints n held w)
              (λ cl w1. run_pre-Settles os ints n held opts cl w1))
            (λ cl w1. attached_run-Settles s opts cl gr w1))

-- On every operating system with a monotonic clock whose descriptors fit an `int`, whatever else its
-- calls return: in the parent, `benchmark_bin_dynamic` ends, with a result or by an exception, and by
-- then each descriptor has been closed as often as it was opened.
pub benchmark_bin_dynamic-Balanced :
    (fl : Float) (os : Os) (abi : PerfAbi) (microseconds : fl.Double → fl.Double) (s : CString)
    (defs : List EventDef) (opts : BenchmarkOpts) (w : World) (n : ℕ)
    → ReturnsInt os
    → IsMonotonic os
    → (benchmark_bin_dynamic fl os abi microseconds s defs opts w).0 ≢ left
    → let (o, w') = benchmark_bin_dynamic fl os abi microseconds s defs opts w in
      (o ≢ hung) × Balanced n 0 w.log 0 w'.log
benchmark_bin_dynamic-Balanced fl os abi microseconds s defs opts w n ints clock parent =
    Settles-result os ints n 0 0 w.log _
      (benchmark_bin_dynamic-Settles os ints n clock fl abi microseconds s defs opts w) parent
