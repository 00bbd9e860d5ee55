-- ===== src/Tool/Main/Table.antt =====
-- What `main` writes with a separator: the whole CSV table.
use mathlib.Core.List.{append-nil, append_assoc}
use bbench.Base.{
  ℕ, zero, suc, ◌+◌, ◌≡◌, refl, sym, ◌∙◌, ap, Bool, true, false, not, ◌&&◌, ◌==◌, List, [], ◌∷◌,
  ◌++◌, map, Option, none, some, length, length-append, All, All-append, arith,
}
use bbench.Base.Int.{ℤ, pos, is_negative}
use bbench.Base.Float.{Float}
use bbench.Base.Text.{CString, Micron}
use bbench.Perf.Sys.{World}
use bbench.Cli.Options.{BenchmarkOpts, CliOpts}
use bbench.Process.{Outcome, ok}
use bbench.Results.{Benchmark}
use bbench.Runs.{collapse_runs, sort_results}
use bbench.Runs.Means.{IsMean, collapse_runs-IsMean}
use bbench.Bench.Run.{and_then}
use bbench.Bench.Run.Yields.{
  ok_injective, Yields, Yields-imp, Yields-ok, and_then-Yields, and_then-ok,
}
use bbench.Bench.Static.Name.{Named, benchmark_bin_opts-Named}
use bbench.Report.Sink.{Item, text, Sink, close_sink, bytes_of, emit_items}
use bbench.Report.Sink.Balance.{emit_items-append, after_writes, emit_items-after_writes}
use bbench.Report.Csv.{emit_csv_one}
use bbench.Report.Csv.Columns.{columns, line, emit_csv_one-columns}
use bbench.Cli.Argv.{accepted, parse_argv}
use bbench.Tool.Main.Balance.{main-main_accepted}
use bbench.Tool.Main.{
  Platform, send, repeat_runs, measure_all, report_one, report_all, main_groups, main_reports,
  open_out, is_none, main_accepted, main,
}

module _ {fl : Float} where
  -- `n` runs of the program `path`.
  abbrev pub RunsOf : ℕ → CString → List (Benchmark fl) → Type 0
  RunsOf n path runs = (length runs ≡ n) × All (Named path) runs

  -- `n` runs of each program, in the order of the programs.
  abbrev pub AllRuns : ℕ → List CString → List (List (Benchmark fl)) → Type 0
  AllRuns n [] [] = Unit
  AllRuns n [] (runs ∷ results) = ⊥
  AllRuns n (path ∷ paths) [] = ⊥
  AllRuns n (path ∷ paths) (runs ∷ results) = RunsOf n path runs × AllRuns n paths results

  -- A result for each program, with the means over its runs.
  abbrev pub AllMeans : List (List (Benchmark fl)) → List (Benchmark fl) → Type 0
  AllMeans [] [] = Unit
  AllMeans [] (b ∷ means) = ⊥
  AllMeans (runs ∷ results) [] = ⊥
  AllMeans (runs ∷ results) (b ∷ means) = IsMean fl runs b × AllMeans results means

  collapse_runs-AllMeans :
      (results : List (List (Benchmark fl))) → AllMeans results (map (collapse_runs fl) results)
  collapse_runs-AllMeans [] = tt
  collapse_runs-AllMeans (runs ∷ results) =
      (collapse_runs-IsMean fl runs, collapse_runs-AllMeans results)

  -- The line of titles, and the line of a result.
  abbrev pub titles : ℕ → ℕ → List (Item fl)
  titles detail sep = line fl sep (map (λ c. text c.title) (columns fl detail))

  abbrev pub row : ℕ → ℕ → Benchmark fl → List (Item fl)
  row detail sep b = line fl sep (map (λ c. c.value b) (columns fl detail))

  abbrev pub rows : ℕ → ℕ → List (Benchmark fl) → List (Item fl)
  rows detail sep [] = []
  rows detail sep (b ∷ means) = row detail sep b ++ rows detail sep means

  -- The titles of the columns, then a line for each result.
  abbrev pub table : ℕ → ℕ → List (Benchmark fl) → List (Item fl)
  table detail sep means = titles detail sep ++ rows detail sep means

module _ {fl : Float} (pf : Platform fl) where
  open pf use {os, abi, microseconds, printer}

  repeat_runs-RunsOf :
      (r n : ℕ) (path : CString) (opts : BenchmarkOpts) (runs : List (Benchmark fl)) (w : World)
      → length runs + r ≡ n
      → All (Named path) runs
      → Yields (RunsOf n path) (repeat_runs pf r path opts runs w)
  unfolding repeat_runs
  repeat_runs-RunsOf zero n path opts runs w l named = (omega arith, named)
  repeat_runs-RunsOf (suc r) n path opts runs w l named =
      and_then-Yields (Named path) _ _ _
        (benchmark_bin_opts-Named fl os abi microseconds path opts w)
        (λ b w1 name.
          repeat_runs-RunsOf r n path opts (runs ++ b ∷ []) w1
            (omega (arith, length-append runs (b ∷ [])))
            (All-append (Named path) runs (b ∷ []) named (name, tt)))

  -- What `measure_all` adds to the results that it is given.
  abbrev Adds : ℕ → List CString → List (List (Benchmark fl)) → List (List (Benchmark fl)) → Type 0
  Adds n paths results all =
      (more : List (List (Benchmark fl))) × (all ≡ results ++ more) × AllRuns n paths more

  measure_all-Adds :
      (cli : CliOpts) (paths : List CString) (results : List (List (Benchmark fl))) (w : World)
      → Yields (Adds cli.n_runs paths results) (measure_all pf cli paths results w)
  unfolding measure_all
  measure_all-Adds cli [] results w = ([], sym (append-nil results), tt)
  measure_all-Adds cli (path ∷ paths) results w =
      and_then-Yields (RunsOf cli.n_runs path) _ _ _
        (repeat_runs-RunsOf cli.n_runs cli.n_runs path cli.bench_opts [] w (omega arith) tt)
        (λ runs w1 here.
          Yields-imp (Adds cli.n_runs paths (results ++ runs ∷ [])) _ _
            (λ all (more, e, rest).
              (runs ∷ more, e ∙ append_assoc results (runs ∷ []) more, (here, rest)))
            (measure_all-Adds cli paths (results ++ runs ∷ []) w1))

  module _ ⦃m : Micron⦄ (cli : CliOpts) (csv : not (cli.csv_sep == 0) ≡ true) (color : Bool)
      (out : Sink) where
    report_one-csv :
        (first : Bool) (runs : List (Benchmark fl)) (cached : ℤ) (w : World)
        → report_one pf cli color out first runs cached w ≡ (
          ok cached,
          send pf out (emit_csv_one fl (collapse_runs fl runs) cli.bench_opts.detail cli.csv_sep) w,
        )
    unfolding report_one
    report_one-csv first runs cached w = rw csv

    report_all-rows :
        (results : List (List (Benchmark fl))) (first : Bool) (cached : ℤ) (w : World)
        → report_all pf cli color out first results cached w ≡ (
          ok tt,
          send pf out (rows cli.bench_opts.detail cli.csv_sep (map (collapse_runs fl) results)) w,
        )
    unfolding report_all and_then emit_items
    report_all-rows [] first cached w = refl
    report_all-rows (runs ∷ results) first cached w =
        let detail = cli.bench_opts.detail in
        let b = collapse_runs fl runs in
        rw (report_one-csv first runs cached w, (emit_csv_one-columns fl detail cli.csv_sep b).1)
          (report_all-rows results _ cached _
            ∙ ap (λ (w1 : World). (ok tt, w1))
                (emit_items-append printer os out (row detail cli.csv_sep b)
                  (rows detail cli.csv_sep (map (collapse_runs fl) results)) w))

    main_groups-table :
        (w : World) (results : List (List (Benchmark fl))) (w1 : World)
        → measure_all pf cli cli.paths [] w ≡ (ok results, w1)
        → main_groups pf cli color out w ≡ (
          ok tt,
          send pf out
              (table cli.bench_opts.detail cli.csv_sep
                (map (collapse_runs fl) (sort_results fl results)))
              w1,
        )
    unfolding main_groups and_then
    main_groups-table w results w1 h =
        let detail = cli.bench_opts.detail in
        let header = (emit_csv_one-columns fl detail cli.csv_sep (collapse_runs fl [])).0 in
        rw (h, csv, header)
          (report_all-rows (sort_results fl results) true _ _
            ∙ ap (λ (w2 : World). (ok tt, w2))
                (emit_items-append printer os out (titles detail cli.csv_sep)
                  (rows detail cli.csv_sep (map (collapse_runs fl) (sort_results fl results))) w1))

module _ {fl : Float} ⦃m : Micron⦄ (pf : Platform fl) where
  main_reports-none :
      (cli : CliOpts) (color : Bool) (out : Sink) (w : World) (events : Option CString)
      → events ≡ none
      → main_reports pf events cli color out w ≡ main_groups pf cli color out w
  main_reports-none cli color out w none h = refl
  main_reports-none cli color out w (some csv) h = cc

-- For every command line that is accepted, with a separator and without `-e`, where the output file,
-- if one is asked for, could be opened, and whatever `--topdown`, `-M`, `--table` and `-v` ask for:
-- where `main` returns, it has made as many runs of each program as were asked for, in the order of
-- the programs, each named after its program, and behind them it has written to its output the bytes
-- of one table and nothing else, the line of titles and a line for each program, in the order of
-- `sort_results`, with the time and the counters of the level of detail, each the mean over the runs
-- of that program; then it has closed the output, and it returns 0.
pub main-table :
    (fl : Float) ⦃m : Micron⦄ (pf : Platform fl) (args : List CString) (cli : CliOpts)
    (w w' : World) (code : ℤ)
    → parse_argv args ≡ accepted cli
    → cli.bench_opts.event_csv ≡ none
    → not (cli.csv_sep == 0) ≡ true
    → is_negative (open_out pf cli.output_file w).0.fd ≡ false
    → main pf args w ≡ (ok code, w')
    → let (out, w0) = open_out pf cli.output_file w in
      (results : List (List (Benchmark fl))) × (w1 : World) × (means : List (Benchmark fl))
      × (measure_all pf cli cli.paths [] w0 ≡ (ok results, w1))
      × AllRuns cli.n_runs cli.paths results
      × AllMeans (sort_results fl results) means
      × (code ≡ pos 0)
      × (w'
          ≡ close_sink pf.os out (
              after_writes pf.os out.fd
                (map (bytes_of pf.printer) (table cli.bench_opts.detail cli.csv_sep means))
                w1))
unfolding main_accepted main_groups
main-table fl pf args cli w w' code h no_events csv opened returns =
    let (out, w0) = open_out pf cli.output_file w in
    let color = is_none pf cli.output_file && cli.csv_sep == 0 in
    let ran = sym (main-main_accepted pf args cli w h) ∙ returns in
    let k : Unit {0} → World → Outcome ℤ × World = λ _ w2. (ok (pos 0), close_sink pf.os out w2) in
    let groups = main_reports-none pf cli color out w0 cli.bench_opts.event_csv no_events in
    let (u, w2, made, closed) =
      and_then-ok (main_groups pf cli color out w0) k code w'
        (sym (ap (λ (r : Outcome {0} Unit × World). and_then r k) groups) ∙ ran) in
    let (results, w1, measured, _) = and_then-ok (measure_all pf cli cli.paths [] w0) _ u w2 made in
    let (more, e, all) =
      Yields-ok (Adds pf cli.n_runs cli.paths []) _ results w1
        (measure_all-Adds pf cli cli.paths [] w0) measured in
    let sent = sym made ∙ main_groups-table pf cli csv color out w0 results w1 measured in
    let means = map (collapse_runs fl) (sort_results fl results) in
    let written =
      emit_items-after_writes pf.printer pf.os out (table cli.bench_opts.detail cli.csv_sep means)
        w1 opened in
    (
      results,
      w1,
      means,
      measured,
      rw e all,
      collapse_runs-AllMeans (sort_results fl results),
      ok_injective (sym (ap (λ (r : Outcome ℤ × World). r.0) closed)),
      sym (ap (λ (r : Outcome ℤ × World). r.1) closed)
          ∙ ap (λ (r : Outcome {0} Unit × World). close_sink pf.os out r.1) sent
          ∙ ap (close_sink pf.os out) written,
    )
