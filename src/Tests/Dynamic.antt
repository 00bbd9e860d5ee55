-- ===== src/Tests/Dynamic.antt =====
-- A run of `benchmark_bin_dynamic` over a concrete operating system.
use bbench.Base.{◌≡◌, ◌≢◌, refl, Bool, true, false, List, [], ◌∷◌, some, arith}
use bbench.Base.Int.{pos}
use bbench.Base.Text.{codes}
use bbench.Perf.Sys.{World, syscall}
use bbench.Perf.KernelClock.Balance.{Balanced, ReturnsInt}
use bbench.Perf.SystemClock.{start_clock, stop_clock, get_time}
use bbench.Cli.Options.{BenchmarkOpts, default_bench_opts}
use bbench.Events.Table.{EventDef}
use bbench.Process.{Outcome, ok, thrown, left, hung, process, process_attach}
use bbench.Bench.Wait.{wait_with_timeout}
use bbench.Bench.Run.{
  and_then, guarded, unwind, run_command, make_clock, run_pre, time_run, attached,
}
use bbench.Bench.Dynamic.{collect_rows, attached_run, benchmark_bin_dynamic}
use bbench.Bench.Dynamic.Balance.{benchmark_bin_dynamic-Balanced}
use bbench.Tests.Machine.{plain_float, plain_abi}
use bbench.Tests.Runs.{steady_os, steady_os-IsMonotonic}

abbrev pub start_of_log : World
start_of_log = record { log = []; errno = pos 0 }

abbrev two_events : List EventDef
two_events =
    record { name = codes "cycles"; type = 0; config = 0 }
    ∷ record { name = codes "cs"; type = 1; config = 3 }
    ∷ []

abbrev pub with_hooks : BenchmarkOpts
with_hooks = record default_bench_opts { pre = some (codes "sync"); post = some (codes "true") }

abbrev pub has_left {ℓ} : {A : Type ℓ} → Outcome A → Bool
has_left left = true
has_left (ok a) = false
has_left (thrown e) = false
has_left hung = false

in_parent :
    has_left
      (benchmark_bin_dynamic plain_float steady_os plain_abi
        (λ x. x)
        (codes "ls")
        two_events
        with_hooks
        start_of_log).0
    ≡ false
unfolding benchmark_bin_dynamic and_then guarded unwind run_command make_clock run_pre time_run
    attached attached_run collect_rows start_clock stop_clock get_time syscall process
    process_attach wait_with_timeout
in_parent = refl

pub steady_os-ReturnsInt : ReturnsInt steady_os
steady_os-ReturnsInt log a pid cpu group flags = omega arith

benchmark_bin_dynamic-Balanced_example :
    let (o, w') =
      benchmark_bin_dynamic plain_float steady_os plain_abi
        (λ x. x)
        (codes "ls")
        two_events
        with_hooks
        start_of_log in
    (o ≢ hung) × Balanced 3 0 [] 0 w'.log
benchmark_bin_dynamic-Balanced_example =
    benchmark_bin_dynamic-Balanced plain_float steady_os plain_abi (λ x. x) (codes "ls") two_events
      with_hooks start_of_log 3 steady_os-ReturnsInt steady_os-IsMonotonic
      (λ e. let q = in_parent in cc)
