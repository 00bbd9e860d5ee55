-- ===== src/Bench/Static/Name.antt =====
-- The name of a result of `benchmark_bin`.
use bbench.Base.{◌≡◌, List}
use bbench.Base.Int.{ℤ}
use bbench.Base.Float.{Float}
use bbench.Base.Text.{CString}
use bbench.Perf.Abi.{PerfAbi}
use bbench.Perf.Sys.{Os, World}
use bbench.Perf.SystemClock.{SystemClock}
use bbench.Cli.Options.{BenchmarkOpts}
use bbench.Clock.Group.{Member}
use bbench.Results.{Benchmark}
use bbench.Bench.Run.Yields.{Yields, after-Yields, guarded-Yields, attached-Yields}
use bbench.Bench.Collect.Fields.{collect-name}
use bbench.Bench.Static.{collect_run, attached_counters, bench_bin_with_opts, benchmark_bin_opts}

-- A result that bears the name of its program.
abbrev pub Named : {fl : Float} → CString → Benchmark fl → Type 0
Named s b = b.name ≡ s

module _ (fl : Float) (os : Os) (abi : PerfAbi) (microseconds : fl.Double → fl.Double) where
  collect_run-Named :
      (s : CString) (opts : BenchmarkOpts) (cl : SystemClock) (pid : ℤ) (gr : List Member)
      (w : World)
      → Yields (Named s) (collect_run fl os abi microseconds s opts cl pid gr w)
  unfolding collect_run
  collect_run-Named s opts cl pid gr w =
      after-Yields (Named s) _ _ (λ cl1 w1. (collect-name fl os s _ gr w1).0)

  pub benchmark_bin_opts-Named :
      (s : CString) (opts : BenchmarkOpts) (w : World)
      → Yields (Named s) (benchmark_bin_opts fl os abi microseconds s opts w)
  unfolding benchmark_bin_opts bench_bin_with_opts attached_counters
  benchmark_bin_opts-Named s opts w = after-Yields (Named s) _ _ (λ cl w1.
      guarded-Yields (Named s) _ _ _ (λ cl1 w2.
        attached-Yields (Named s) os _ _ _ s _ w2
          (λ pid gr w3. collect_run-Named s opts cl1 pid gr w3)))
