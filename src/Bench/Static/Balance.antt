-- ===== src/Bench/Static/Balance.antt =====
-- Descriptors over a whole run of `benchmark_bin` with options.
use bbench.Base.{ℕ, ◌≡◌, ◌≢◌, refl, ◌∙◌, List, [], ◌∷◌, Option, none, some}
use bbench.Base.Int.{ℤ}
use bbench.Base.Float.{Float}
use bbench.Base.Text.{CString}
use bbench.Perf.Abi.{PerfAbi}
use bbench.Perf.Sys.{Os, World}
use bbench.Perf.SystemClock.{SystemClock}
use bbench.Perf.KernelClock.{set_inherit, set_pinned, set_enable_on_exec, read_scaled}
use bbench.Perf.KernelClock.Balance.{Balanced, ReturnsInt, Balanced-trans, read_triplet-Balanced}
use bbench.Cli.Options.{BenchmarkOpts}
use bbench.Clock.Kinds.{EventKind}
use bbench.Clock.Group.{Member, get, reopen_all, end_all, destroy_all}
use bbench.Clock.Group.Balance.{
  group_holds, group_holds-quiet_group, group_holds-set_all, reopen_all-Balanced, end_all-Balanced,
  destroy_all-Balanced,
}
use bbench.Process.{left, hung}
use bbench.Results.{Benchmark}
use bbench.Results.Fields.{Field}
use bbench.Bench.Wait.Returns.{IsMonotonic}
use bbench.Bench.Run.Settles.{
  Settles, and_then-Settles, make_clock-Settles, run_pre-Settles, guarded-Settles, Settles-result,
}
use bbench.Bench.Run.Settles.Attached.{attached-Settles}
use bbench.Bench.Run.Settles.Timed.{time_run-Settles}
use bbench.Bench.Collect.{assignments, assign, assign_all, collect}
use bbench.Bench.Static.{
  kinds_of_detail, options_group, collect_run, attached_counters, bench_bin_with_opts,
  benchmark_bin_opts,
}

group_holds-options_group :
    (n : ℕ) (abi : PerfAbi) (kinds : List EventKind) (opts : BenchmarkOpts)
    → group_holds n (options_group abi kinds opts) ≡ 0
unfolding options_group set_inherit set_pinned set_enable_on_exec
group_holds-options_group n abi kinds opts =
    group_holds-set_all n _ _ (λ c. refl)
    ∙ group_holds-set_all n _ _ (λ c. refl)
    ∙ group_holds-set_all n _ _ (λ c. refl)
    ∙ group_holds-quiet_group n abi kinds

module _ (os : Os) (ints : ReturnsInt os) (n : ℕ) (fl : Float) where
  assign-Balanced :
      (o : Option Member) (f : Field) (held : ℕ) (b : Benchmark fl) (w : World)
      → Balanced n held w.log held (assign fl os o f b w).1.log
  unfolding assign read_scaled
  assign-Balanced none f held b w = refl
  assign-Balanced (some m) f held b w = read_triplet-Balanced os ints n m.clock held w

  assign_all-Balanced :
      (rows : List (EventKind × Field)) (gr : List Member) (held : ℕ) (b : Benchmark fl) (w : World)
      → Balanced n held w.log held (assign_all fl os rows gr b w).1.log
  unfolding assign_all
  assign_all-Balanced [] gr held b w = refl
  assign_all-Balanced ((k, f) ∷ rows) gr held b w =
      let (b1, w1) = assign fl os (get k gr) f b w in
      Balanced-trans os ints n held held held _ _ _ (assign-Balanced (get k gr) f held b w)
        (assign_all-Balanced rows gr held b1 w1)

  pub collect-Balanced :
      (name : CString) (time : fl.Double) (gr : List Member) (held : ℕ) (w : World)
      → Balanced n held w.log held (collect fl os name time gr w).1.log
  unfolding collect
  collect-Balanced name time gr held w = assign_all-Balanced assignments gr held _ w

  module _ (clock : IsMonotonic os) (abi : PerfAbi) (microseconds : fl.Double → fl.Double) where
    collect_run-Settles :
        (s : CString) (opts : BenchmarkOpts) (cl : SystemClock) (pid : ℤ) (gr : List Member)
        (w : World)
        → Settles os ints n
            (group_holds n gr)
            w.log
            (group_holds n gr)
            (collect_run fl os abi microseconds s opts cl pid gr w)
    unfolding collect_run
    collect_run-Settles s opts cl pid gr w =
        let held = group_holds n gr in
        and_then-Settles os ints n held w.log _ _
          (time_run-Settles os ints n clock held opts pid cl (end_all os gr) w
            (end_all-Balanced os ints n gr held))
          (λ cl1 w1. collect-Balanced s _ gr held w1)

    attached_counters-Settles :
        (s : CString) (opts : BenchmarkOpts) (cl : SystemClock) (gr : List Member) (w : World)
        → Settles os ints n
            (group_holds n gr)
            w.log
            0
            (attached_counters fl os abi microseconds s opts cl gr w)
    unfolding attached_counters
    attached_counters-Settles s opts cl gr w =
        attached-Settles os ints n (reopen_all os) (destroy_all os) _ (group_holds n)
          (destroy_all-Balanced os ints n) (collect_run-Settles s opts cl) s gr w
          (λ pid w1. reopen_all-Balanced os ints n pid gr w1)

    bench_bin_with_opts-Settles :
        (kinds : List EventKind) (s : CString) (opts : BenchmarkOpts) (w : World)
        → Settles os ints n 0 w.log 0 (bench_bin_with_opts fl os abi microseconds kinds s opts w)
    unfolding bench_bin_with_opts
    bench_bin_with_opts-Settles kinds s opts w =
        let gr = options_group abi kinds opts in
        let none_held = group_holds-options_group n abi kinds opts in
        and_then-Settles os ints n 0 w.log _ _ (make_clock-Settles os ints n 0 w) (λ cl w1.
          guarded-Settles os ints n 0 0 0 (destroy_all os gr) w1.log _ _
            (λ w2. rw none_held at (destroy_all-Balanced os ints n gr w2))
            (run_pre-Settles os ints n 0 opts cl w1)
            (λ cl1 w2. rw none_held at (attached_counters-Settles s opts cl1 gr w2)))

    pub benchmark_bin_opts-Settles :
        (s : CString) (opts : BenchmarkOpts) (w : World)
        → Settles os ints n 0 w.log 0 (benchmark_bin_opts fl os abi microseconds s opts w)
    unfolding benchmark_bin_opts
    benchmark_bin_opts-Settles s opts w =
        bench_bin_with_opts-Settles (kinds_of_detail opts.detail) s opts w

-- On every operating system with a monotonic clock whose descriptors fit an `int`, whatever else its
-- calls return, and at every level of detail: in the parent, `benchmark_bin` ends, with a result or
-- by an exception, and by then each descriptor has been closed as often as it was opened.
pub benchmark_bin_opts-Balanced :
    (fl : Float) (os : Os) (abi : PerfAbi) (microseconds : fl.Double → fl.Double) (s : CString)
    (opts : BenchmarkOpts) (w : World) (n : ℕ)
    → ReturnsInt os
    → IsMonotonic os
    → (benchmark_bin_opts fl os abi microseconds s opts w).0 ≢ left
    → let (o, w') = benchmark_bin_opts fl os abi microseconds s opts w in
      (o ≢ hung) × Balanced n 0 w.log 0 w'.log
benchmark_bin_opts-Balanced fl os abi microseconds s opts w n ints clock parent =
    Settles-result os ints n 0 0 w.log _
      (benchmark_bin_opts-Settles os ints n fl clock abi microseconds s opts w) parent
