-- ===== src/Lib.antt =====
-- bbench: verification of the benchmarking library and of its two command-line programs.
--
-- The program. `bbench` (tools/bbench.cpp) reads a command line, runs each named program under a
-- group of performance counters of the kernel as often as it is told, and reports the averages;
-- `btime` (tools/btime.cpp) measures only the time. Both stand on the headers of src/: perf.hpp opens
-- and reads a counter, events.hpp names the counters that `-e` can ask for and groups them,
-- process.hpp starts a program and holds it back until its counters are attached, bench.hpp waits for
-- it with a time limit, funcs.hpp holds the results and metrics.hpp divides them.
--
-- The files.
--   Base      Shared names, signed integers over the native numbers with the casts of the sources,
--             C strings, and `double`.
--   Cli       tools/bbench.cpp: `parse_int` (Cli/Number), `cli_opts` and `benchmark_opts` of
--             src/options.hpp (Cli/Options), `parse_argv` (Cli/Argv). Each flag is a constructor of
--             `Flag`, what a flag does is a `Step`, and a refusal is a value instead of a message.
--   Perf      src/perf.hpp: the configuration of a counter (Perf/Attr), and `kernel_clock`
--             (Perf/KernelClock), and `system_clock` (Perf/SystemClock). Perf/Sys holds the system
--             calls as a log, and the operating system that answers them; Perf/Abi the constants of
--             the kernel's header.
--   Events    src/events.hpp: the table of events (Events/Table), `parse_event_list` (Events/List),
--             `dynamic_event` and `dynamic_event_group` (Events/Dynamic).
--   Process   src/process.hpp: `process` and `process_attach`.
--   Clock     src/clock.hpp: the named counters (Clock/Kinds), `event` and `event_group`
--             (Clock/Group), and `stopwatch` (Clock/Stopwatch). A template argument is a value: a
--             group is made from a list of kinds.
--   Bench     src/bench.hpp: `__sleep_ms`, `__now_ms` and `__wait_with_timeout` (Bench/Wait), the
--             parts that the benchmarks share (Bench/Run), `collect` and the groups of the levels of
--             detail (Bench/Collect), and the benchmarks themselves: `benchmark_bin` with options
--             (Bench/Static), `benchmark_bin_dynamic` (Bench/Dynamic), and those of a function or of
--             a program without options, with `perf_init_leader` of src/funcs.hpp (Bench/Calls).
--   Results   src/funcs.hpp: `benchmark_t`, its counters as fields (Results/Fields), and its ratios.
--   Runs      tools/bbench.cpp: `avg_int`, `avg_double` and `collapse_runs` (Runs/Means) and
--             `sort_results` (Runs/Sorting).
--   Metrics   src/metrics.hpp.
--   Report    src/format.hpp: `sink` (Report/Sink), the CSV report (Report/Csv), the report for a
--             reader and the table of runs (Report/Human), each as the items that it emits, and
--             `compute_stats` (Report/Stats).
--   Topdown   src/topdown.hpp: `__td_event`, `supported` and `measure_bin` (Topdown/Measure).
--   Tool      tools/bbench.cpp behind the command line: `emit_stats`, `emit_metrics` and
--             `emit_topdown` (Tool/Emit), and `main` (Tool/Main), which puts the parts together.
--   Btime     tools/btime.cpp: `main`, and the layout of its report (Btime/Layout).
--   Cargs     src/cargs.hpp, which neither program uses: the tests of arguments (Cargs/Text), the two
--             parses (Cargs/Parser), and the accessors (Cargs/Access).
--   Tests     Runs of the definitions, and the theorems at concrete inputs.
--
-- State. An object is a record, and a method takes it and gives it back. What the program does to the
-- world is a `World`: the log of the system calls with what each returned, the latest first, and
-- `errno`. A destructor is a function, an exception an `Outcome`: where one leaves a function, the
-- destructors of its objects run, as they do where a caller catches it. In the child of a `fork` the
-- outcome is `left`.
--
-- Parameters. `Micron` is micron's `strcmp` and `strlen`, with the laws that `strcmp` is 0 exactly on
-- equal strings and `strlen` the length. `PerfAbi` is the kernel's header: the numbers of its
-- enumerations. `Os` is the operating system: what a call returns, and what it writes. `Float` is
-- `double`, without laws; a theorem that needs some names them. micron's conversion of seconds to
-- microseconds is an argument, and so are the texts that it makes of numbers (`Printer`), the usage
-- and the messages on a command line, and what follows an overflow of `long long`, which C++ leaves
-- undefined (`Console`). Some bytes beyond a literal are written by `emit_topdown`; they are the
-- printer's too.
--
-- Bounds. `__wait_with_timeout` has two loops without a bound of their own. The model runs the outer
-- one on `timeout_ms` + 1 rounds of fuel and the inner one on 51, one more than the milliseconds that
-- they wait for: each round sleeps for at least one. Selection sort runs one round for each item.
-- Numerals are read by recursion on the text, and stop where `long long` would overflow, which is
-- undefined in the sources. Sums of counters wrap at 64 bits, where they too would overflow. A call
-- that blocks, as `waitpid` without a timeout, is taken to return: nothing is said of a program that
-- never ends.
--
-- An exception that leaves `main` ends the program, and then no destructor of `main` runs.
--
-- Not modelled. Constructors, copies and moves that only store what they are given; functions that
-- only call another one, as `benchmark_batch` and the calls of `event` as a leader; `perf_event`
-- with a group and `perf_event_cpu`, which nothing calls; in src/cargs.hpp, the template arguments
-- other than the default ones, and the macros that turn an early return into an exception. micron
-- and the kernel are parameters, micron's `sstring` among them (`FixedString`). The order in which
-- micron's tuple destroys the members of a group is taken to be from the last to the first;
-- functions that are measured return.
pub mod Base
pub mod Cli
pub mod Perf
pub mod Events
pub mod Tests
pub mod Topdown
pub mod Process
pub mod Results
pub mod Runs
pub mod Metrics
pub mod Report
pub mod Clock
pub mod Bench
pub mod Tool
pub mod Btime
pub mod Cargs
