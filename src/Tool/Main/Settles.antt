-- ===== src/Tool/Main/Settles.antt =====
-- Descriptors over the parts of `main`.
use bbench.Base.{
  ℕ, zero, suc, refl, Bool, true, not, ◌==◌, ◌&&◌, inl, inr, List, [], ◌∷◌, ◌++◌, Option, none,
  some, Bool-cases,
}
use bbench.Base.Int.{ℤ}
use bbench.Base.Float.{Float}
use bbench.Base.Text.{CString, Micron}
use bbench.Perf.Sys.{World}
use bbench.Perf.KernelClock.Balance.{Balanced, ReturnsInt}
use bbench.Cli.Options.{BenchmarkOpts, CliOpts}
use bbench.Events.Table.{EventDef}
use bbench.Events.List.{parse_event_list}
use bbench.Process.{Outcome}
use bbench.Results.{Benchmark}
use bbench.Bench.Wait.Returns.{IsMonotonic}
use bbench.Bench.Run.Settles.{Settles, Settles-frame, Settles-trans, and_then-Settles}
use bbench.Bench.Static.Balance.{benchmark_bin_opts-Settles}
use bbench.Bench.Dynamic.{DynamicResult}
use bbench.Bench.Dynamic.Balance.{benchmark_bin_dynamic-Settles}
use bbench.Topdown.Measure.Balance.{measure_bin-Settles}
use bbench.Report.Sink.{Item, Sink, stderr_sink}
use bbench.Report.Sink.Balance.{emit_items-Balanced}
use bbench.Tool.Main.{
  Platform, send, repeat_runs, measure_all, repeat_dynamic, dynamic_all, report_topdown, report_one,
  report_all, main_events, main_groups, main_reports,
}

module _ {fl : Float} (pf : Platform fl) (ints : ReturnsInt pf.os) (clock : IsMonotonic pf.os)
    (n : ℕ) where
  open pf use {os, abi, microseconds, printer}

  -- What the parts of `main` keep: the descriptors that are held meanwhile.
  abbrev Keeps {ℓ} : {A : Type ℓ} → ℕ → World → Outcome A × World → Type 0
  Keeps held w r = Settles os ints n held w.log held r

  send-Balanced :
      (out : Sink) (items : List (Item fl)) (held : ℕ) (w : World)
      → Balanced n held w.log held (send pf out items w).log
  send-Balanced out items held w = emit_items-Balanced printer os ints n out items held w

  repeat_runs-Settles :
      (r : ℕ) (path : CString) (opts : BenchmarkOpts) (runs : List (Benchmark fl)) (held : ℕ)
      (w : World)
      → Keeps held w (repeat_runs pf r path opts runs w)
  unfolding repeat_runs
  repeat_runs-Settles zero path opts runs held w = refl
  repeat_runs-Settles (suc r) path opts runs held w =
      and_then-Settles os ints n held w.log _ _
        (Settles-frame os ints n held w.log _
          (benchmark_bin_opts-Settles os ints n fl clock abi microseconds path opts w))
        (λ b w1. repeat_runs-Settles r path opts (runs ++ b ∷ []) held w1)

  measure_all-Settles :
      (cli : CliOpts) (paths : List CString) (results : List (List (Benchmark fl))) (held : ℕ)
      (w : World)
      → Keeps held w (measure_all pf cli paths results w)
  unfolding measure_all
  measure_all-Settles cli [] results held w = refl
  measure_all-Settles cli (path ∷ paths) results held w =
      and_then-Settles os ints n held w.log _ _
        (repeat_runs-Settles cli.n_runs path cli.bench_opts [] held w)
        (λ runs w1. measure_all-Settles cli paths (results ++ runs ∷ []) held w1)

  repeat_dynamic-Settles :
      (r : ℕ) (path : CString) (events : List EventDef) (opts : BenchmarkOpts)
      (res : DynamicResult fl) (held : ℕ) (w : World)
      → Keeps held w (repeat_dynamic pf r path events opts res w)
  unfolding repeat_dynamic
  repeat_dynamic-Settles zero path events opts res held w = refl
  repeat_dynamic-Settles (suc r) path events opts res held w =
      and_then-Settles os ints n held w.log _ _
        (Settles-frame os ints n held w.log _
          (benchmark_bin_dynamic-Settles os ints n clock fl abi microseconds path events opts w))
        (λ res1 w1. repeat_dynamic-Settles r path events opts res1 held w1)

  dynamic_all-Settles :
      (cli : CliOpts) (events : List EventDef) (out : Sink) (paths : List CString) (held : ℕ)
      (w : World)
      → Keeps held w (dynamic_all pf cli events out paths w)
  unfolding dynamic_all
  dynamic_all-Settles cli events out [] held w = refl
  dynamic_all-Settles cli events out (path ∷ paths) held w =
      and_then-Settles os ints n held w.log _ _
        (repeat_dynamic-Settles cli.n_runs path events cli.bench_opts _ held w)
        (λ res w1.
          Settles-trans os ints n held held held w1.log (send pf out _ w1) _
            (send-Balanced out _ held w1) (dynamic_all-Settles cli events out paths held _))

  module _ ⦃m : Micron⦄ where
    report_topdown-Settles :
        (cli : CliOpts) (color : Bool) (out : Sink) (agg : Benchmark fl) (cached : ℤ) (held : ℕ)
        (w : World)
        → Keeps held w (report_topdown pf cli color out agg cached w)
    unfolding report_topdown
    report_topdown-Settles cli color out agg cached held w = elim (Bool-cases cli.topdown_only) [
      | inl asked ↦ rw asked (
          and_then-Settles os ints n held w.log _ _
            (Settles-frame os ints n held w.log _
              (measure_bin-Settles os ints n fl abi agg.name cli.bench_opts cached w))
            (λ td w1. send-Balanced out _ held w1))
      | inr quiet ↦ rw quiet refl
    ]

    report_one-Settles :
        (cli : CliOpts) (color : Bool) (out : Sink) (first : Bool) (runs : List (Benchmark fl))
        (cached : ℤ) (held : ℕ) (w : World)
        → Keeps held w (report_one pf cli color out first runs cached w)
    unfolding report_one
    report_one-Settles cli color out first runs cached held w =
        elim (Bool-cases (not (cli.csv_sep == 0))) [
          | inl csv ↦ rw csv (send-Balanced out _ held w)
          | inr human ↦ rw human (
              Settles-trans os ints n held held held w.log (send pf out _ w) _
                (send-Balanced out _ held w) (report_topdown-Settles cli color out _ cached held _))
        ]

    report_all-Settles :
        (cli : CliOpts) (color : Bool) (out : Sink) (first : Bool)
        (results : List (List (Benchmark fl))) (cached : ℤ) (held : ℕ) (w : World)
        → Keeps held w (report_all pf cli color out first results cached w)
    unfolding report_all
    report_all-Settles cli color out first [] cached held w = refl
    report_all-Settles cli color out first (runs ∷ results) cached held w =
        and_then-Settles os ints n held w.log _ _
          (report_one-Settles cli color out first runs cached held w)
          (λ cached1 w1.
            report_all-Settles cli color out (not (cli.csv_sep == 0) && first) results cached1 held
              w1)

    pub main_reports-Settles :
        (events : Option CString) (cli : CliOpts) (color : Bool) (out : Sink) (held : ℕ) (w : World)
        → Keeps held w (main_reports pf events cli color out w)
    unfolding main_events main_groups
    main_reports-Settles (some csv) cli color out held w =
        let events = parse_event_list abi (some csv) [] in
        elim (Bool-cases events.all_ok) [
          | inl found ↦ rw found (dynamic_all-Settles cli events.out out cli.paths held w)
          | inr missing ↦ rw missing (
              Settles-trans os ints n held held held w.log (send pf stderr_sink _ w) _
                (send-Balanced stderr_sink _ held w)
                (dynamic_all-Settles cli events.out out cli.paths held _))
        ]
    main_reports-Settles none cli color out held w =
        and_then-Settles os ints n held w.log _ _ (measure_all-Settles cli cli.paths [] held w)
          (λ all_results w1.
            Settles-trans os ints n held held held w1.log (send pf out _ w1) _
              (send-Balanced out _ held w1) (report_all-Settles cli color out true _ _ held _))
