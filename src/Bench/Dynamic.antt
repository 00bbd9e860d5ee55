-- ===== src/Bench/Dynamic.antt =====
-- `benchmark_bin_dynamic` of src/bench.hpp: one run of a program under the events of `-e`.
pub mod Balance
use bbench.Base.{ℕ, true, List}
use bbench.Base.Int.{ℤ}
use bbench.Base.Float.{Float}
use bbench.Base.Text.{CString}
use bbench.Perf.Abi.{PerfAbi}
use bbench.Perf.Sys.{Os, World}
use bbench.Perf.SystemClock.{SystemClock, read_us}
use bbench.Cli.Options.{BenchmarkOpts}
use bbench.Events.Table.{EventDef}
use bbench.Events.Dynamic.{
  DynamicEvent, EventRow, make_group, group_set, event_inherit, event_pinned, event_enable_on_exec,
  group_reopen, group_end, group_destroy, for_each,
}
use bbench.Process.{Outcome, ok}
use bbench.Bench.Run.{and_then, guarded, make_clock, run_pre, time_run, attached}

-- `dynamic_result_t`; a row is what `for_each` passes on.
pub record DynamicResult (fl : Float) : Type 0 where
  pub name : CString
  pub time : fl.Double
  pub rows : List EventRow

module _ (os : Os) where
  -- The function that `process_attach` is given.
  unfoldable pub reopen_group : ℤ → List DynamicEvent → World → List DynamicEvent × World
  reopen_group pid gr w = let (_, gr', w') = group_reopen os pid gr w in (gr', w')

module _ (fl : Float) (os : Os) (abi : PerfAbi) (microseconds : fl.Double → fl.Double) where
  -- The group behind its constructor and its setters.
  unfoldable pub dynamic_group : List EventDef → BenchmarkOpts → List DynamicEvent
  dynamic_group defs opts = group_set (event_enable_on_exec true) (
      group_set (event_pinned opts.pinned)
        (group_set (event_inherit opts.inherit) (make_group abi defs opts.excl_kernel)))

  -- What follows `process_attach` in the parent.
  unfoldable pub collect_rows :
      CString
      → BenchmarkOpts
      → ℤ
      → SystemClock
      → List DynamicEvent
      → World
      → Outcome (DynamicResult fl) × World
  collect_rows s opts pid cl gr w = and_then (time_run os opts pid cl (group_end os gr) w) λ cl1 w1.
      let (rows, w2) = for_each fl os gr w1 in
      (ok (record { name = s; time = read_us fl microseconds cl1; rows = rows }), w2)

  -- From `process_attach` on.
  unfoldable pub attached_run :
      CString
      → BenchmarkOpts
      → SystemClock
      → List DynamicEvent
      → World
      → Outcome (DynamicResult fl) × World
  attached_run s opts cl gr w =
      attached os (reopen_group os) (group_destroy os)
        (λ pid gr1 w1. collect_rows s opts pid cl gr1 w1) s gr w

  -- `benchmark_bin_dynamic(s, defs, opts)`
  unfoldable pub benchmark_bin_dynamic :
      CString → List EventDef → BenchmarkOpts → World → Outcome (DynamicResult fl) × World
  benchmark_bin_dynamic s defs opts w =
      let gr = dynamic_group defs opts in
      guarded (group_destroy os gr) (and_then (make_clock os w) λ cl w1. run_pre os opts cl w1)
        λ cl w2. attached_run s opts cl gr w2
