-- ===== src/Tests/Runs.antt =====
-- Runs of programs: their order, their metrics, and the wait for a program's end.
use bbench.Base.{
  ℕ, ◌-◌, ◌*◌, ◌/◌, ◌%◌, ◌^◌, ◌≡◌, refl, List, [], ◌∷◌, some, length, map, ltb, if◌then◌else◌,
  arith,
}
use bbench.Base.Int.{pos, residue, to_i64, ◌+ℤ◌}
use bbench.Base.Text.{codes, plain_strings, same}
use bbench.Perf.Sys.{Log, Os, World, nanosleep}
use bbench.Results.{Benchmark, empty_benchmark}
use bbench.Runs.{
  collapse_runs, average, avg_int, sum_int, avg_double, sum_double, faster, sort_results, sort_loop,
  min_from, swap_first,
}
use bbench.Metrics.{known_metrics, lookup_metric, find_metric, ipc}
use bbench.Metrics.Idle.{lookup_metric-IsIdle}
use bbench.Bench.Wait.{reading, wait_with_timeout}
use bbench.Bench.Wait.Returns.{IsMonotonic, IsWaited, wait_with_timeout-IsWaited}
use bbench.Tests.Machine.{plain_float, plain_os}

abbrev run_of : ℕ → Benchmark plain_float
run_of t = record (empty_benchmark plain_float) { time = t; cycles = pos (10 * t) }

abbrev programs : List (List (Benchmark plain_float))
programs = (run_of 7 ∷ run_of 9 ∷ []) ∷ (run_of 3 ∷ run_of 5 ∷ []) ∷ (run_of 6 ∷ []) ∷ []

sorted_times :
    map (λ runs. (collapse_runs plain_float runs).time) (sort_results plain_float programs)
    ≡ 4 ∷ 6 ∷ 8 ∷ []
unfolding sort_results sort_loop min_from swap_first faster collapse_runs average avg_double
    sum_double
sorted_times = refl

averaged : (collapse_runs plain_float (run_of 3 ∷ run_of 5 ∷ [])).cycles ≡ pos 40
unfolding collapse_runs average avg_int sum_int residue to_i64 ◌+ℤ◌
averaged = refl

abbrev idle : Benchmark plain_float
idle = empty_benchmark plain_float

lookup_metric-IsIdle_example : (ipc plain_float idle ≡ 0) × (codes "ipc" ≡ codes "ipc")
unfolding lookup_metric find_metric known_metrics same empty_benchmark
lookup_metric-IsIdle_example =
    lookup_metric-IsIdle plain_float (codes "ipc")
      (record { name = codes "ipc"; fn = ipc plain_float }) idle refl
      (record {
        cycles = refl;
        instructions = refl;
        branches = refl;
        l1d = refl;
        l1i = refl;
        llc = refl;
        dtlb = refl;
        itlb = refl;
        time = refl;
      })

-- One millisecond for each call, up to the last one of 64 bits.
abbrev ticks : Log → ℕ
ticks log = if ltb (length log) (2 ^ 64 - 1) then length log else 2 ^ 64 - 1

abbrev pub steady_os : Os
steady_os = record plain_os {
  time = λ log _ _. record {
    tv_sec = pos (ticks log / 1000);
    tv_nsec = pos (ticks log % 1000 * 1000000);
  };
}

reading-ticks : (log : Log) → reading steady_os log ≡ ticks log
unfolding reading residue
reading-ticks log = ground arith

pub steady_os-IsMonotonic : IsMonotonic steady_os
steady_os-IsMonotonic = record {
  onwards = λ log e. ground (arith, reading-ticks log, reading-ticks (e ∷ log));
  asleep = λ log sec nsec r long h.
      let call = nanosleep (record { tv_sec = pos sec; tv_nsec = pos nsec }) in
      ground (arith, reading-ticks log, reading-ticks (record { call = call; reply = r } ∷ log));
}

abbrev nothing_yet : World
nothing_yet = record { log = []; errno = pos 0 }

wait_with_timeout-IsWaited_example :
    (w' : World) × (wait_with_timeout steady_os (pos 77) 20 nothing_yet ≡ some w')
    × IsWaited (pos 77) w'.log
wait_with_timeout-IsWaited_example =
    wait_with_timeout-IsWaited steady_os (pos 77) 20 nothing_yet steady_os-IsMonotonic
