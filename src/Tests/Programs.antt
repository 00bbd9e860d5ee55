-- ===== src/Tests/Programs.antt =====
-- Runs of the two programs over a concrete operating system, and their reports.
use bbench.Base.{◌<◌, map, arith, ℕ, ◌≡◌, refl, ap, length, true, false, List, [], ◌∷◌, some}
use mathlib.Core.List.{Permᴰ}
use bbench.Results.Fields.{get_field}
use bbench.Report.Csv.Counters.{shown, shown-kinds_of_detail}
use bbench.Bench.Static.{kinds_of_detail}
use bbench.Bench.Collect.Fields.{kind_of}
use bbench.Base.Int.{ℤ, pos, residue}
use bbench.Base.Text.{codes, plain_strings, same}
use bbench.Base.Buffer.{join}
use bbench.Perf.Sys.{World, syscall}
use bbench.Perf.KernelClock.Balance.{Balanced}
use bbench.Perf.SystemClock.{start_clock, stop_clock, get_time}
use bbench.Cli.Number.{parse_int_btime, read_sign, read_digits, digit_loop, is_digit}
use bbench.Cli.Options.{CliOpts, default_cli_opts}
use bbench.Cli.Argv.{accepted, parse_argv, parse_loop, is_dashed, classify, apply_flag}
use bbench.Process.{Outcome, ok, process, process_attach}
use bbench.Results.{Benchmark, empty_benchmark}
use bbench.Runs.{sort_results, sort_loop, min_from, swap_first}
use bbench.Bench.Wait.{wait_with_timeout}
use bbench.Bench.Run.{
  and_then, guarded, unwind, run_command, make_clock, run_pre, time_run, attached,
}
use bbench.Bench.Static.{collect_run, attached_counters, bench_bin_with_opts, benchmark_bin_opts}
use bbench.Bench.Calls.{bench_bin}
use bbench.Report.Sink.{int, double, stdout_sink, close_sink, bytes_of, Printer}
use bbench.Report.Sink.Balance.{after_writes}
use bbench.Report.Csv.{emit_csv_one}
use bbench.Report.Human.{emit_human_one}
use bbench.Report.Human.Numbers.{numbers, emit_human_one-numbers}
use bbench.Tool.Emit.{emit_metrics}
use bbench.Tool.Emit.MetricNames.{emit_named, emit_metrics-join}
use bbench.Tool.Main.{
  Platform, repeat_runs, measure_all, report_one, report_all, main_groups, main_accepted, main,
}
use bbench.Tool.Main.Balance.{main-Balanced}
use bbench.Tool.Main.Table.{AllRuns, AllMeans, table, main-table}
use bbench.Btime.{
  Settings, chosen, default_settings, switch_of, arguments_loop, BtimePlatform, time_runs,
  measure_program, btime_main,
}
use bbench.Btime.Valid.{arguments_loop-IsSane}
use bbench.Btime.Report.{Reported, btime_main-report}
use bbench.Tests.Machine.{plain_float, plain_abi, plain_os}
use bbench.Tests.Runs.{steady_os, steady_os-IsMonotonic}
use bbench.Tests.Dynamic.{start_of_log, steady_os-ReturnsInt}

abbrev plain_printer : Printer plain_float
plain_printer = record { fmt_int = λ z. codes "0"; d2s = λ x. codes "0"; beyond = λ s n. [] }

abbrev platform : Platform plain_float
platform = record {
  os = steady_os;
  abi = plain_abi;
  microseconds = λ x. x;
  printer = plain_printer;
  console = record {
    print_usage = λ w. w;
    print_refusal = λ why w. w;
    undefined = λ w. (ok (pos 0), w);
  };
}

abbrev arguments : List (List ℕ)
arguments = codes "-x" ∷ codes "," ∷ codes "ls" ∷ []

abbrev as_csv : CliOpts
as_csv = record default_cli_opts { csv_sep = b','; paths = codes "ls" ∷ [] }

arguments_accepted : parse_argv arguments ≡ accepted as_csv
unfolding parse_argv parse_loop classify apply_flag same
arguments_accepted = refl

returned : (main platform arguments start_of_log).0 ≡ ok (pos 0)
unfolding main parse_argv parse_loop classify apply_flag same main_accepted main_groups measure_all
    repeat_runs report_all report_one sort_results sort_loop min_from swap_first benchmark_bin_opts
    bench_bin_with_opts and_then make_clock start_clock get_time syscall guarded run_pre run_command
    process attached_counters attached unwind process_attach collect_run time_run wait_with_timeout
    stop_clock
returned = refl

main-Balanced_example : Balanced 3 0 [] 0 (main platform arguments start_of_log).1.log
main-Balanced_example =
    main-Balanced plain_float platform arguments as_csv start_of_log 3 (pos 0) steady_os-ReturnsInt
      steady_os-IsMonotonic arguments_accepted returned

abbrev last_world : World
last_world = (main platform arguments start_of_log).1

main-table_example :
    (results : List (List (Benchmark plain_float))) × (w1 : World) × (means : List
      (Benchmark plain_float))
    × (measure_all platform as_csv (codes "ls" ∷ []) [] start_of_log ≡ (ok results, w1))
    × AllRuns 1 (codes "ls" ∷ []) results
    × AllMeans (sort_results plain_float results) means
    × (pos 0 ≡ pos 0)
    × (last_world
        ≡ close_sink steady_os stdout_sink
            (after_writes steady_os (pos 1) (map (bytes_of plain_printer) (table 1 b',' means)) w1))
main-table_example =
    main-table plain_float platform arguments as_csv start_of_log last_world (pos 0)
      arguments_accepted refl refl refl (ap (λ (o : Outcome ℤ). (o, last_world)) returned)

abbrev result : Benchmark plain_float
result = record (empty_benchmark plain_float) { name = codes "ls"; time = 7 }

emit_metrics-join_example :
    emit_metrics plain_float result false (some (join (codes "ipc" ∷ [] ∷ codes "none" ∷ [])))
    ≡ emit_named plain_float result false (codes "ipc" ∷ [] ∷ codes "none" ∷ [])
emit_metrics-join_example =
    emit_metrics-join plain_float result false (codes "ipc" ∷ [] ∷ codes "none" ∷ [])
      ((refl, (refl, (refl, tt))), (tt, ((refl, (refl, (refl, (refl, tt)))), tt)))

emit_human_one-numbers_example :
    numbers (emit_human_one plain_float result 3 true 5)
    ≡ int (pos 5) ∷ numbers (emit_csv_one plain_float result 3 b',')
emit_human_one-numbers_example = emit_human_one-numbers plain_float result 3 5 b',' true

abbrev btime_platform : BtimePlatform plain_float
btime_platform = record {
  os = plain_os;
  microseconds = λ x. x;
  printer = plain_printer;
  usage = λ w. w;
  undefined = λ w. (ok (pos 0), w);
}

abbrev btime_arguments : List (List ℕ)
btime_arguments = codes "-r" ∷ codes "2" ∷ codes "-q" ∷ codes "ls" ∷ []

abbrev twice_quiet : Settings
twice_quiet = record { n_runs = 2; csv_sep = 0; quiet = true }

btime_chosen : arguments_loop btime_arguments default_settings ≡ chosen twice_quiet (codes "ls")
unfolding arguments_loop switch_of parse_int_btime read_sign read_digits digit_loop is_digit same
    residue
btime_chosen = refl

btime_returned : (btime_main btime_platform btime_arguments start_of_log).0 ≡ ok (pos 0)
unfolding btime_main arguments_loop switch_of parse_int_btime read_sign read_digits digit_loop
    is_digit same residue measure_program time_runs bench_bin and_then start_clock stop_clock
    get_time syscall process
btime_returned = refl

abbrev btime_world : World
btime_world = (btime_main btime_platform btime_arguments start_of_log).1

btime_main-report_example :
    (times : List ℕ) × (w1 : World) × (time_runs btime_platform 2 (codes "ls") [] start_of_log
      ≡ (ok times, w1))
    × (length times ≡ 2)
    × (pos 0 ≡ pos 0)
    × Reported btime_platform twice_quiet times w1 btime_world
btime_main-report_example =
    btime_main-report btime_platform btime_arguments twice_quiet (codes "ls") start_of_log
      btime_world (pos 0) (λ a. ground arith) (λ a b c h k. ground arith) btime_chosen
      (ap (λ (o : Outcome ℤ). (o, btime_world)) btime_returned)

arguments_loop-IsSane_example : (0 < 2) × (is_dashed (codes "ls") ≡ false)
arguments_loop-IsSane_example =
    arguments_loop-IsSane btime_arguments twice_quiet (codes "ls") btime_chosen

shown-kinds_of_detail_example :
    (numbers (emit_csv_one plain_float result 3 b',')
      ≡ double 7 ∷ map (λ f. int (get_field f result)) (shown 3))
    × Permᴰ (map kind_of (shown 3)) (kinds_of_detail 3)
shown-kinds_of_detail_example =
    shown-kinds_of_detail plain_float result 3 b',' (omega arith) (omega arith)
