-- ===== src/Tool/Main.antt =====
-- `main` of tools/bbench.cpp. The messages of `parse_argv` and the usage are micron's to print.
pub mod Settles
pub mod Balance
pub mod Table
use bbench.Base.{
  ℕ, zero, suc, ◌%◌, ◌^◌, ◌==◌, Bool, true, false, not, ◌&&◌, List, [], ◌∷◌, ◌++◌, Option, none,
  some, ltb, if◌then◌else◌,
}
use bbench.Base.Int.{ℤ, pos, negsuc}
use bbench.Base.Float.{Float}
use bbench.Base.Text.{CString, Micron, codes}
use bbench.Perf.Abi.{PerfAbi}
use bbench.Perf.Sys.{Os, World}
use bbench.Cli.Options.{BenchmarkOpts, CliOpts}
use bbench.Cli.Argv.{Refusal, overflowed, Parsed, accepted, rejected, parse_argv}
use bbench.Events.Table.{EventDef}
use bbench.Events.List.{parse_event_list}
use bbench.Process.{Outcome, ok}
use bbench.Results.{Benchmark}
use bbench.Runs.{collapse_runs, sort_results}
use bbench.Bench.Run.{and_then}
use bbench.Bench.Static.{benchmark_bin_opts}
use bbench.Bench.Dynamic.{DynamicResult, benchmark_bin_dynamic}
use bbench.Topdown.Measure.{measure_bin}
use bbench.Report.Sink.{
  Item, text, newline, Printer, Sink, stdout_sink, stderr_sink, file_sink, close_sink, emit_items,
}
use bbench.Report.Csv.{emit_csv_header, emit_csv_one}
use bbench.Report.Human.{emit_human_one, emit_table}
use bbench.Tool.Emit.{emit_stats, emit_metrics, emit_topdown, emit_dynamic}

-- What `main` leaves to others: the usage, the message of a refusal, and what follows an overflow of
-- `long long`.
pub record Console : Type 0 where
  pub print_usage : World → World
  pub print_refusal : Refusal → World → World
  pub undefined : World → Outcome ℤ × World

-- What does not change during `main`: the machine, micron, and the compiler.
pub record Platform (fl : Float) : Type 0 where
  pub os : Os
  pub abi : PerfAbi
  pub microseconds : fl.Double → fl.Double
  pub printer : Printer fl
  pub console : Console

abbrev pub no_result : (fl : Float) → DynamicResult fl
no_result fl = record { name = []; time = fl.of_ℕ 0; rows = [] }

module _ {fl : Float} (pf : Platform fl) where
  open pf use {os, abi, microseconds, printer, console}

  abbrev pub send : Sink → List (Item fl) → World → World
  send out items w = emit_items printer os out items w

  -- `for (usize r = 0; r < cli.n_runs; ++r) runs.emplace_back(…);`
  unfoldable pub repeat_runs :
      ℕ
      → CString
      → BenchmarkOpts
      → List (Benchmark fl)
      → World
      → Outcome (List (Benchmark fl)) × World
  repeat_runs zero path opts runs w = (ok runs, w)
  repeat_runs (suc r) path opts runs w =
      and_then (benchmark_bin_opts fl os abi microseconds path opts w)
        λ b w1. repeat_runs r path opts (runs ++ b ∷ []) w1

  -- The loop over the programs.
  unfoldable pub measure_all :
      CliOpts
      → List CString
      → List (List (Benchmark fl))
      → World
      → Outcome (List (List (Benchmark fl))) × World
  measure_all cli [] results w = (ok results, w)
  measure_all cli (path ∷ paths) results w =
      and_then (repeat_runs cli.n_runs path cli.bench_opts [] w)
        λ runs w1. measure_all cli paths (results ++ runs ∷ []) w1

  -- `for (usize r = 0; r < cli.n_runs; ++r) res = …;`
  unfoldable pub repeat_dynamic :
      ℕ
      → CString
      → List EventDef
      → BenchmarkOpts
      → DynamicResult fl
      → World
      → Outcome (DynamicResult fl) × World
  repeat_dynamic zero path events opts res w = (ok res, w)
  repeat_dynamic (suc r) path events opts res w =
      and_then (benchmark_bin_dynamic fl os abi microseconds path events opts w)
        λ res1 w1. repeat_dynamic r path events opts res1 w1

  -- The loop over the programs under `-e`.
  unfoldable pub dynamic_all :
      CliOpts → List EventDef → Sink → List CString → World → Outcome {0} Unit × World
  dynamic_all cli events out [] w = (ok tt, w)
  dynamic_all cli events out (path ∷ paths) w =
      and_then (repeat_dynamic cli.n_runs path events cli.bench_opts (no_result fl) w) λ res w1.
        dynamic_all cli events out paths (send out (emit_dynamic fl cli.verbose path res) w1)

  -- `if (cli.topdown_only) { … }`, with the static variable of `supported`.
  unfoldable pub report_topdown :
      ⦃m : Micron⦄ → CliOpts → Bool → Sink → Benchmark fl → ℤ → World → Outcome ℤ × World
  report_topdown cli color out agg cached w =
      if cli.topdown_only
      then (let (cached1, (td, w1)) = measure_bin fl os abi agg.name cli.bench_opts cached w in
          and_then (td, w1) λ t w2. (ok cached1, send out (emit_topdown fl t color) w2))
      else (ok cached, w)

  -- One round of the last loop. A list of runs has the name of its first run, which is also the
  -- name of the averages.
  unfoldable pub report_one :
      ⦃m : Micron⦄
      → CliOpts
      → Bool
      → Sink
      → Bool
      → List (Benchmark fl)
      → ℤ
      → World
      → Outcome ℤ × World
  report_one cli color out first runs cached w =
      let agg = collapse_runs fl runs in
      let detail = cli.bench_opts.detail in
      let human =
        (if first then [] else newline ∷ [])
        ++ emit_human_one fl agg detail color (cli.n_runs % 2 ^ 32)
        ++ (if ltb 1 cli.n_runs then emit_stats fl runs color else [])
        ++ (if cli.table then emit_table fl runs else [])
        ++ emit_metrics fl agg color cli.metrics_csv in
      if not (cli.csv_sep == 0)
      then (ok cached, send out (emit_csv_one fl agg detail cli.csv_sep) w)
      else report_topdown cli color out agg cached (send out human w)

  unfoldable pub report_all :
      ⦃m : Micron⦄
      → CliOpts
      → Bool
      → Sink
      → Bool
      → List (List (Benchmark fl))
      → ℤ
      → World
      → Outcome {0} Unit × World
  report_all cli color out first [] cached w = (ok tt, w)
  report_all cli color out first (runs ∷ results) cached w =
      and_then (report_one cli color out first runs cached w)
        λ cached1 w1. report_all cli color out (not (cli.csv_sep == 0) && first) results cached1 w1

  -- `if (cli.bench_opts.event_csv) { … }`
  unfoldable pub main_events :
      ⦃m : Micron⦄ → CliOpts → CString → Sink → World → Outcome {0} Unit × World
  main_events cli csv out w =
      let events = parse_event_list abi (some csv) [] in
      let message = text (codes "bbench: one or more event names in -e were not recognized\n") in
      let w1 = if events.all_ok then w else send stderr_sink (message ∷ []) w in
      dynamic_all cli events.out out cli.paths w1

  -- From the declaration of `all_results` on.
  unfoldable pub main_groups :
      ⦃m : Micron⦄ → CliOpts → Bool → Sink → World → Outcome {0} Unit × World
  main_groups cli color out w = and_then (measure_all cli cli.paths [] w) λ all_results w1.
      let header =
        if not (cli.csv_sep == 0)
        then emit_csv_header fl cli.bench_opts.detail cli.csv_sep
        else [] in
      report_all cli color out true (sort_results fl all_results) (negsuc 0) (send out header w1)

  abbrev pub main_reports :
      ⦃m : Micron⦄ → Option CString → CliOpts → Bool → Sink → World → Outcome {0} Unit × World
  main_reports (some csv) cli color out w = main_events cli csv out w
  main_reports none cli color out w = main_groups cli color out w

  -- The sink that `main` opens.
  abbrev pub open_out : Option CString → World → Sink × World
  open_out (some path) w = file_sink os path w
  open_out none w = (stdout_sink, w)

  abbrev pub is_none : Option CString → Bool
  is_none none = true
  is_none (some path) = false

  -- Behind `parse_argv`. An exception leaves `main`, and then nothing closes the sink.
  unfoldable pub main_accepted : ⦃m : Micron⦄ → CliOpts → World → Outcome ℤ × World
  main_accepted cli w =
      let (out, w1) = open_out cli.output_file w in
      let color = is_none cli.output_file && cli.csv_sep == 0 in
      and_then (main_reports cli.bench_opts.event_csv cli color out w1)
        λ _ w2. (ok (pos 0), close_sink os out w2)

  abbrev pub main_parsed : ⦃m : Micron⦄ → Parsed → World → Outcome ℤ × World
  main_parsed (accepted cli) w = main_accepted cli w
  main_parsed (rejected overflowed) w = console.undefined w
  main_parsed (rejected why) w = (ok (negsuc 0), console.print_refusal why w)

  -- `main(argc, argv)`, on `argv[1] … argv[argc - 1]`
  unfoldable pub main : ⦃m : Micron⦄ → List CString → World → Outcome ℤ × World
  main [] w = (ok (negsuc 0), console.print_usage w)
  main (a ∷ args) w = main_parsed (parse_argv (a ∷ args)) w
