-- ===== src/Bench/Static.antt =====
-- `benchmark_bin` with options of src/bench.hpp: one run of a program under the counters of a level
-- of detail.
pub mod Balance
pub mod Name
use bbench.Base.{ℕ, true, List, ◌==◌, if◌then◌else◌}
use bbench.Base.Int.{ℤ}
use bbench.Base.Float.{Float}
use bbench.Base.Text.{CString}
use bbench.Perf.Abi.{PerfAbi}
use bbench.Perf.Sys.{Os, World}
use bbench.Perf.SystemClock.{SystemClock, read_us}
use bbench.Perf.KernelClock.{set_inherit, set_pinned, set_enable_on_exec}
use bbench.Cli.Options.{BenchmarkOpts}
use bbench.Clock.Kinds.{EventKind}
use bbench.Clock.Group.{Member, quiet_group, set_all, reopen_all, end_all, destroy_all}
use bbench.Process.{Outcome, ok}
use bbench.Results.{Benchmark}
use bbench.Bench.Run.{and_then, guarded, make_clock, run_pre, time_run, attached}
use bbench.Bench.Collect.{event_group_d1, event_group_d2, event_group_d3, collect}

-- `switch ( opts.detail )`
abbrev pub kinds_of_detail : ℕ → List EventKind
kinds_of_detail detail =
    if detail == 2 then event_group_d2 else if detail == 3 then event_group_d3 else event_group_d1

-- The group behind its constructor and its setters.
unfoldable pub options_group : PerfAbi → List EventKind → BenchmarkOpts → List Member
options_group abi kinds opts =
    set_all (set_enable_on_exec true) (
      set_all (set_pinned opts.pinned) (set_all (set_inherit opts.inherit) (quiet_group abi kinds)))

module _ (fl : Float) (os : Os) (abi : PerfAbi) (microseconds : fl.Double → fl.Double) where
  -- What follows `process_attach` in the parent.
  unfoldable pub collect_run :
      CString
      → BenchmarkOpts
      → SystemClock
      → ℤ
      → List Member
      → World
      → Outcome (Benchmark fl) × World
  collect_run s opts cl pid gr w =
      and_then (time_run os opts pid cl (end_all os gr) w)
        λ cl1 w1. let (b, w2) = collect fl os s (read_us fl microseconds cl1) gr w1 in (ok b, w2)

  -- From `process_attach` on.
  unfoldable pub attached_counters :
      CString → BenchmarkOpts → SystemClock → List Member → World → Outcome (Benchmark fl) × World
  attached_counters s opts cl gr w =
      attached os (reopen_all os) (destroy_all os) (collect_run s opts cl) s gr w

  -- `__bench_bin_with_opts<G>(s, opts)`
  unfoldable pub bench_bin_with_opts :
      List EventKind → CString → BenchmarkOpts → World → Outcome (Benchmark fl) × World
  bench_bin_with_opts kinds s opts w = and_then (make_clock os w) λ cl w1.
      let gr = options_group abi kinds opts in
      guarded (destroy_all os gr) (run_pre os opts cl w1)
        λ cl1 w2. attached_counters s opts cl1 gr w2

  -- `benchmark_bin(s, opts)`
  unfoldable pub benchmark_bin_opts :
      CString → BenchmarkOpts → World → Outcome (Benchmark fl) × World
  benchmark_bin_opts s opts w = bench_bin_with_opts (kinds_of_detail opts.detail) s opts w
