-- ===== src/Tests/Static.antt =====
-- Runs of the benchmarks of src/bench.hpp and of `measure_bin` over a concrete operating system.
use bbench.Base.{◌≡◌, ◌≢◌, refl, false, List, [], ◌∷◌, ◌+◌, length}
use bbench.Base.Int.{ℤ, pos, negsuc, to_i32, to_i64}
use bbench.Base.Text.{codes}
use bbench.Perf.Sys.{Os, zeroed_attr, World, syscall, perf_event_pid, pe_call}
use bbench.Perf.KernelClock.{read_counter, read_triplet, scaled, read_scaled}
use bbench.Perf.KernelClock.Balance.{Balanced}
use bbench.Perf.SystemClock.{start_clock, stop_clock, get_time}
use bbench.Clock.Kinds
use bbench.Clock.Kinds.{EventKind}
use bbench.Clock.Group.{Member, get}
use bbench.Process.{ok, hung, process, process_attach}
use bbench.Results.Fields.{Field, get_field}
use bbench.Bench.Wait.{wait_with_timeout}
use bbench.Bench.Run.{
  and_then, guarded, unwind, run_command, make_clock, run_pre, time_run, attached,
}
use bbench.Bench.Collect.{event_group_d1, assign, assign_all, collect}
use bbench.Bench.Collect.Fields.{ReadsTo, count_in, get_field-collect}
use bbench.Bench.Static.{collect_run, attached_counters, bench_bin_with_opts, benchmark_bin_opts}
use bbench.Bench.Static.Balance.{benchmark_bin_opts-Balanced}
use bbench.Bench.Calls.{
  measure, benchmark, benchmark_bin, cpu_bench, cpu_bench_bin, perf_init_leader, bench_all,
  bench_repeat, repeat_loop, timed,
}
use bbench.Bench.Run.Yields.{Yields}
use bbench.Bench.Calls.Repeat.{copies, bench_repeat-bench_all}
use bbench.Bench.Calls.Counter.{cpu_bench-Balanced}
use bbench.Bench.Calls.Balance.{benchmark-Balanced}
use bbench.Topdown.{td_open_pid}
use bbench.Topdown.Measure.{supported, measure_run, measure_supported, measure_bin}
use bbench.Topdown.Measure.Balance.{measure_bin-Balanced}
use bbench.Tests.Machine.{plain_float, plain_abi, plain_os, plain_os-ReturnsInt}
use bbench.Tests.Runs.{steady_os, steady_os-IsMonotonic}
use bbench.Tests.Dynamic.{start_of_log, with_hooks, has_left, steady_os-ReturnsInt}

options_stay :
    has_left
      (benchmark_bin_opts plain_float steady_os plain_abi
        (λ x. x)
        (codes "ls")
        with_hooks
        start_of_log).0
    ≡ false
unfolding benchmark_bin_opts bench_bin_with_opts and_then make_clock start_clock get_time syscall
    guarded run_pre run_command process attached_counters attached unwind process_attach collect_run
    time_run wait_with_timeout stop_clock
options_stay = refl

benchmark_bin_opts-Balanced_example :
    let (o, w') =
      benchmark_bin_opts plain_float steady_os plain_abi
        (λ x. x)
        (codes "ls")
        with_hooks
        start_of_log in
    (o ≢ hung) × Balanced 3 0 [] 0 w'.log
benchmark_bin_opts-Balanced_example =
    benchmark_bin_opts-Balanced plain_float steady_os plain_abi (λ x. x) (codes "ls") with_hooks
      start_of_log 3 steady_os-ReturnsInt steady_os-IsMonotonic (λ e. let q = options_stay in cc)

benchmark_stays :
    has_left
      (benchmark plain_float plain_os plain_abi
        (λ c. 0)
        event_group_d1
        (codes "f")
        (λ w. w)
        start_of_log).0
    ≡ false
unfolding benchmark and_then make_clock start_clock get_time syscall measure unwind stop_clock
benchmark_stays = refl

benchmark_bin_stays :
    has_left
      (benchmark_bin plain_float plain_os plain_abi
        (λ c. 0)
        event_group_d1
        (codes "f")
        []
        start_of_log).0
    ≡ false
unfolding benchmark_bin and_then make_clock start_clock get_time syscall guarded process measure
    unwind stop_clock
benchmark_bin_stays = refl

benchmark-Balanced_example :
    Balanced 3 0 [] 0
      (benchmark plain_float plain_os plain_abi
        (λ c. 0)
        event_group_d1
        (codes "f")
        (λ w. w)
        start_of_log).1.log
    × Balanced 3 0 [] 0
        (benchmark_bin plain_float plain_os plain_abi
          (λ c. 0)
          event_group_d1
          (codes "f")
          []
          start_of_log).1.log
benchmark-Balanced_example =
    benchmark-Balanced plain_float plain_os plain_abi (λ c. 0) event_group_d1 (codes "f") (λ w. w)
      [] start_of_log 3 plain_os-ReturnsInt (λ held w. refl) (λ e. let q = benchmark_stays in cc)
      (λ e. let q = benchmark_bin_stays in cc)

cpu_bench_bin_stays :
    has_left
      (cpu_bench_bin plain_float plain_os plain_abi Kinds.hardware_cycles
        (codes "f")
        []
        start_of_log).0
    ≡ false
unfolding cpu_bench_bin guarded process syscall
cpu_bench_bin_stays = refl

cpu_bench-Balanced_example :
    Balanced 3 0 [] 0
      (cpu_bench plain_float plain_os plain_abi Kinds.hardware_cycles (λ w. w) start_of_log).1.log
    × Balanced 3 0 [] 0
        (cpu_bench_bin plain_float plain_os plain_abi Kinds.hardware_cycles
          (codes "f")
          []
          start_of_log).1.log
    × Balanced 3 0 [] 0 (perf_init_leader plain_os plain_abi start_of_log).log
cpu_bench-Balanced_example =
    cpu_bench-Balanced plain_float plain_os plain_abi Kinds.hardware_cycles (λ w. w) (codes "f") []
      start_of_log 3 plain_os-ReturnsInt (λ held w. refl) (λ e. let q = cpu_bench_bin_stays in cc)

-- Three runs of a function, on an operating system where no clock fails.
repeated_times :
    (bench_repeat plain_float plain_os (λ c. 7) 3 (λ w. w) start_of_log).0 ≡ ok (7 ∷ 7 ∷ 7 ∷ [])
unfolding bench_repeat repeat_loop timed and_then make_clock start_clock stop_clock get_time syscall
repeated_times = refl

bench_repeat-bench_all_example :
    Yields
      (λ ts. length ts ≡ 2)
      (bench_all plain_float plain_os (λ c. 7) ((λ w. w) ∷ (λ w. w) ∷ []) start_of_log)
    × (bench_repeat plain_float plain_os (λ c. 7) 3 (λ w. w) start_of_log
        ≡ bench_all plain_float plain_os (λ c. 7) (copies 3 (λ w. w)) start_of_log)
    × Yields
        (λ ts. length ts ≡ 3)
        (bench_repeat plain_float plain_os (λ c. 7) 3 (λ w. w) start_of_log)
bench_repeat-bench_all_example =
    bench_repeat-bench_all plain_float plain_os (λ c. 7) 3 (λ w. w) ((λ w. w) ∷ (λ w. w) ∷ [])
      start_of_log

-- An operating system whose counters go up with each call, and two open counters.
abbrev counting_os : Os
counting_os = record plain_os {
  counter = λ log fd _. record { value = length log + 40; time_enabled = 5; time_running = 5 };
}

abbrev member_on : EventKind → ℤ → Member
member_on k fd = record {
  kind = k;
  clock = record { e_fd = fd; last_errno = pos 0; event = zeroed_attr };
}

abbrev open_group : List Member
open_group = member_on Kinds.hardware_cycles (pos 3) ∷ member_on Kinds.cpu_time (pos 4) ∷ []

-- The second read sees the count behind the first one.
collected :
    let b = (collect plain_float counting_os (codes "ls") 7 open_group start_of_log).0 in
    (get_field Field.cycles b ≡ pos 40) × (get_field Field.cpu_time b ≡ pos 41)
unfolding collect assign_all assign read_scaled read_triplet read_counter scaled syscall get to_i64
collected = (refl, refl)

get_field-collect_example :
    let b = (collect plain_float counting_os (codes "ls") 7 open_group start_of_log).0 in
    ((w1 : World) × ReadsTo plain_float counting_os start_of_log w1
      × (get_field Field.cpu_time b
          ≡ count_in plain_float counting_os w1 (get Kinds.cpu_time open_group)))
    × (b.name ≡ codes "ls")
    × (b.time ≡ 7)
get_field-collect_example =
    get_field-collect plain_float counting_os Field.cpu_time (codes "ls") 7 open_group start_of_log

measure_stays :
    has_left
      (measure_bin plain_float plain_os plain_abi
        (codes "ls")
        with_hooks
        (negsuc 0)
        start_of_log).1.0
    ≡ false
unfolding measure_bin supported td_open_pid to_i32 perf_event_pid pe_call syscall measure_supported
    guarded run_command and_then process attached unwind process_attach measure_run
measure_stays = refl

measure_bin-Balanced_example :
    let (_, (o, w')) =
      measure_bin plain_float plain_os plain_abi (codes "ls") with_hooks (negsuc 0) start_of_log in
    (o ≢ hung) × Balanced 3 0 [] 0 w'.log
measure_bin-Balanced_example =
    measure_bin-Balanced plain_float plain_os plain_abi (codes "ls") with_hooks (negsuc 0)
      start_of_log 3 plain_os-ReturnsInt (λ e. let q = measure_stays in cc)
