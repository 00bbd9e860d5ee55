-- ===== src/Bench/Calls.antt =====
-- The benchmarks of src/bench.hpp that a program calls on a function of its own or on a program, with
-- no options. A function is what it does to the world; `elapsed` is the reading that the template
-- argument `R` chooses.
pub mod Balance
pub mod Counter
pub mod Repeat
use bbench.Base.{ℕ, zero, suc, Bool, false, true, List, [], ◌∷◌, ◌++◌}
use bbench.Base.Int.{ℤ}
use bbench.Base.Float.{Float}
use bbench.Base.Text.{CString}
use bbench.Perf.Abi.{PerfAbi}
use bbench.Perf.Sys.{Os, World, ClockId, realtime_alarm, monotonic, waitpid, syscall}
use bbench.Perf.SystemClock.{SystemClock, zeroed_clock, start_clock, stop_clock}
use bbench.Perf.KernelClock.{reopen_pid, start, stop, read_scaled, destroy}
use bbench.Clock.Kinds.{EventKind, hardware_cycles}
use bbench.Clock.Group.{
  Member, quiet_group, make_event, open_all, reopen_all, begin_all, end_all, destroy_all,
  count_call,
}
use bbench.Process.{Outcome, ok, process}
use bbench.Results.{Benchmark}
use bbench.Bench.Run.{and_then, guarded, unwind, on_clock, make_clock}
use bbench.Bench.Collect.{collect}

module _ (os : Os) where
  -- `micron::waitpid(pid, nullptr, 0)`
  abbrev wait_for : ℤ → World → World
  wait_for pid w = (syscall os (waitpid pid false) w).1

  -- `cl.begin(); body; cl.end();`
  unfoldable pub timed :
      ClockId → SystemClock → (World → World) → World → Outcome SystemClock × World
  timed id cl body w =
      and_then (on_clock (start_clock os id cl w))
        λ cl1 w1. on_clock (stop_clock os id cl1 (body w1))

module _ (fl : Float) (os : Os) (abi : PerfAbi) (elapsed : SystemClock → fl.Double) where
  -- From `cl.begin()` to the end of the function, with the group open.
  unfoldable pub measure :
      CString → SystemClock → List Member → (World → World) → World → Outcome (Benchmark fl) × World
  measure name cl gr body w = unwind (destroy_all os gr) (
      and_then (on_clock (start_clock os realtime_alarm cl w)) λ cl1 w1.
        and_then (on_clock (stop_clock os realtime_alarm cl1 (body (begin_all os gr w1)))) λ cl2 w2.
          let (b, w3) = collect fl os name (elapsed cl2) gr (end_all os gr w2) in (ok b, w3))

  -- `benchmark<R, G>(name, func, args...)`; without a name, the name is empty.
  unfoldable pub benchmark :
      List EventKind → CString → (World → World) → World → Outcome (Benchmark fl) × World
  benchmark kinds name func w =
      and_then (make_clock os w)
        λ cl w1. let (gr, w2) = open_all os (quiet_group abi kinds) w1 in measure name cl gr func w2

  -- `benchmark_bin<G>(s, args...)`
  unfoldable pub benchmark_bin :
      List EventKind → CString → List CString → World → Outcome (Benchmark fl) × World
  benchmark_bin kinds s args w = and_then (make_clock os w) λ cl w1.
      let gr = quiet_group abi kinds in
      guarded (destroy_all os gr) (process os false s args w1)
        λ pid w2. let (gr1, w3) = reopen_all os pid gr w2 in measure s cl gr1 (wait_for os pid) w3

module _ (fl : Float) (os : Os) (abi : PerfAbi) where
  -- `cpu_bench<C>(func, args...)`
  unfoldable pub cpu_bench : EventKind → (World → World) → World → ℤ × World
  cpu_bench k func w =
      let (m, w1) = make_event os abi k w in
      let (v, w2) = count_call os fl m func w1 in (v, destroy os m.clock w2)

  -- `cpu_bench_bin<C>(s, a...)`: the counter is opened on this process, then on the program.
  unfoldable pub cpu_bench_bin : EventKind → CString → List CString → World → Outcome ℤ × World
  cpu_bench_bin k s args w =
      let (m, w1) = make_event os abi k w in
      guarded (destroy os m.clock) (process os false s args w1) λ pid w2.
        let (_, c, w3) = reopen_pid os pid m.clock w2 in
        let (v, w4) =
          read_scaled fl os c (stop os false c (wait_for os pid (start os false c w3))) in
        (ok v, destroy os c w4)

-- `perf_init_leader` of src/funcs.hpp: the event that it starts as a leader is its own, and ends
-- with it.
unfoldable pub perf_init_leader : Os → PerfAbi → World → World
perf_init_leader os abi w =
    let (m, w1) = make_event os abi hardware_cycles w in
    destroy os m.clock (start os true m.clock w1)

module _ (fl : Float) (os : Os) (elapsed : SystemClock → fl.Double) where
  -- `bench<R>(func, args...)`
  unfoldable pub bench : (World → World) → World → Outcome fl.Double × World
  bench func w =
      and_then (make_clock os w)
        λ cl w1. and_then (timed os realtime_alarm cl func w1) λ cl1 w2. (ok (elapsed cl1), w2)

  -- `bench_bin<R>(s, a...)`, on the monotonic clock; the program is waited for.
  unfoldable pub bench_bin : CString → List CString → World → Outcome fl.Double × World
  bench_bin s args w = and_then (on_clock (start_clock os monotonic zeroed_clock w)) λ cl w1.
      and_then (on_clock (start_clock os monotonic cl w1)) λ cl1 w2.
        and_then (process os true s args w2) λ _ w3.
          and_then (on_clock (stop_clock os monotonic cl1 w3)) λ cl2 w4. (ok (elapsed cl2), w4)

  -- The calls of `bench<R>(funcs...)`, one after the other on one clock.
  unfoldable pub bench_each :
      List (World → World) → SystemClock → List fl.Double → World → Outcome (List fl.Double) × World
  bench_each [] cl results w = (ok results, w)
  bench_each (func ∷ funcs) cl results w =
      and_then (timed os realtime_alarm cl func w)
        λ cl1 w1. bench_each funcs cl1 (results ++ elapsed cl1 ∷ []) w1

  unfoldable pub bench_all : List (World → World) → World → Outcome (List fl.Double) × World
  bench_all funcs w = and_then (make_clock os w) λ cl w1. bench_each funcs cl [] w1

  -- The loop of `bench_repeat<N, R>(func, args...)`.
  unfoldable pub repeat_loop :
      ℕ → (World → World) → SystemClock → List fl.Double → World → Outcome (List fl.Double) × World
  repeat_loop zero func cl results w = (ok results, w)
  repeat_loop (suc n) func cl results w =
      and_then (timed os realtime_alarm cl func w)
        λ cl1 w1. repeat_loop n func cl1 (results ++ elapsed cl1 ∷ []) w1

  unfoldable pub bench_repeat : ℕ → (World → World) → World → Outcome (List fl.Double) × World
  bench_repeat n func w = and_then (make_clock os w) λ cl w1. repeat_loop n func cl [] w1
