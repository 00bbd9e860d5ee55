-- ===== src/Bench/Calls/Balance.antt =====
-- Descriptors over the benchmarks of a function and of a program.
use bbench.Base.{ℕ, ◌≢◌, refl, List, false}
use bbench.Base.Float.{Float}
use bbench.Base.Text.{CString}
use bbench.Perf.Abi.{PerfAbi}
use bbench.Perf.Sys.{Os, World, realtime_alarm, waitpid}
use bbench.Perf.SystemClock.{SystemClock}
use bbench.Perf.KernelClock.Balance.{Balanced, ReturnsInt, Balanced-trans, syscall-Balanced}
use bbench.Clock.Kinds.{EventKind}
use bbench.Clock.Group.{Member, quiet_group, open_all, reopen_all, begin_all, end_all, destroy_all}
use bbench.Clock.Group.Balance.{
  group_holds, group_holds-quiet_group, open_all-Balanced, reopen_all-Balanced, begin_all-Balanced,
  end_all-Balanced, destroy_all-Balanced,
}
use bbench.Process.{left}
use bbench.Bench.Run.Settles.{
  Settles, Settles-trans, and_then-Settles, make_clock-Settles, start_clock-Settles,
  stop_clock-Settles, process-Settles, unwind-Settles, guarded-Settles, Settles-result,
}
use bbench.Bench.Static.Balance.{collect-Balanced}
use bbench.Bench.Calls.{measure, benchmark, benchmark_bin}

-- A function that leaves no descriptor open, whatever else it holds by then.
abbrev pub LeavesNone : ℕ → (World → World) → Type 0
LeavesNone n body = (held : ℕ) (w : World) → Balanced n held w.log held (body w).log

module _ (os : Os) (ints : ReturnsInt os) (n : ℕ) (fl : Float) (abi : PerfAbi)
    (elapsed : SystemClock → fl.Double) where
  measure-Settles :
      (name : CString) (cl : SystemClock) (gr : List Member) (body : World → World) (w : World)
      → LeavesNone n body
      → Settles os ints n (group_holds n gr) w.log 0 (measure fl os abi elapsed name cl gr body w)
  unfolding measure
  measure-Settles name cl gr body w none_left =
      let held = group_holds n gr in
      unwind-Settles os ints n held held 0 (destroy_all os gr) w.log _
        (destroy_all-Balanced os ints n gr)
        (and_then-Settles os ints n held w.log _ _
          (start_clock-Settles os ints n held realtime_alarm cl w)
          (λ cl1 w1.
            let w2 = begin_all os gr w1 in
            let w3 = body w2 in
            Settles-trans os ints n held held held w1.log w3 _
              (Balanced-trans os ints n held held held _ _ _
                (begin_all-Balanced os ints n gr held w1) (none_left held w2))
              (and_then-Settles os ints n held w3.log _ _
                (stop_clock-Settles os ints n held realtime_alarm cl1 w3)
                (λ cl2 w4.
                  Balanced-trans os ints n held held held _ _ _
                    (end_all-Balanced os ints n gr held w4)
                    (collect-Balanced os ints n fl name (elapsed cl2) gr held
                      (end_all os gr w4))))))

  benchmark-Settles :
      (kinds : List EventKind) (name : CString) (func : World → World) (w : World)
      → LeavesNone n func
      → Settles os ints n 0 w.log 0 (benchmark fl os abi elapsed kinds name func w)
  unfolding benchmark
  benchmark-Settles kinds name func w none_left =
      and_then-Settles os ints n 0 w.log _ _ (make_clock-Settles os ints n 0 w) (λ cl w1.
        let (gr, w2) = open_all os (quiet_group abi kinds) w1 in
        Settles-trans os ints n 0 (group_holds n gr) 0 w1.log w2 _
          (open_all-Balanced os ints n (quiet_group abi kinds) w1
            (group_holds-quiet_group n abi kinds))
          (measure-Settles name cl gr func w2 none_left))

  benchmark_bin-Settles :
      (kinds : List EventKind) (s : CString) (args : List CString) (w : World)
      → Settles os ints n 0 w.log 0 (benchmark_bin fl os abi elapsed kinds s args w)
  unfolding benchmark_bin
  benchmark_bin-Settles kinds s args w =
      let gr = quiet_group abi kinds in
      let none_held = group_holds-quiet_group n abi kinds in
      and_then-Settles os ints n 0 w.log _ _ (make_clock-Settles os ints n 0 w) (λ cl w1.
        guarded-Settles os ints n 0 0 0 (destroy_all os gr) w1.log _ _
          (λ w2. rw none_held at (destroy_all-Balanced os ints n gr w2))
          (process-Settles os ints n 0 false s args w1)
          (λ pid w2.
            let (gr1, w3) = reopen_all os pid gr w2 in
            Settles-trans os ints n 0 (group_holds n gr1) 0 w2.log w3 _
              (rw none_held at (reopen_all-Balanced os ints n pid gr w2))
              (measure-Settles s cl gr1 _ w3 (λ held w4.
                syscall-Balanced os ints n (waitpid pid false) held w4 (λ r. refl) refl))))

-- On every operating system whose descriptors fit an `int`, whatever else its calls return, and for
-- every group of counters: `benchmark` of a function that leaves no descriptor open, and
-- `benchmark_bin` of a program, have closed each descriptor as often as they opened it, whether they
-- end with a result or by an exception.
pub benchmark-Balanced :
    (fl : Float) (os : Os) (abi : PerfAbi) (elapsed : SystemClock → fl.Double)
    (kinds : List EventKind) (name : CString) (func : World → World) (args : List CString)
    (w : World) (n : ℕ)
    → ReturnsInt os
    → LeavesNone n func
    → (benchmark fl os abi elapsed kinds name func w).0 ≢ left
    → (benchmark_bin fl os abi elapsed kinds name args w).0 ≢ left
    → Balanced n 0 w.log 0 (benchmark fl os abi elapsed kinds name func w).1.log
      × Balanced n 0 w.log 0 (benchmark_bin fl os abi elapsed kinds name args w).1.log
benchmark-Balanced fl os abi elapsed kinds name func args w n ints none_left stays stays_bin = (
  (Settles-result os ints n 0 0 w.log _
      (benchmark-Settles os ints n fl abi elapsed kinds name func w none_left) stays).1,
  (Settles-result os ints n 0 0 w.log _
      (benchmark_bin-Settles os ints n fl abi elapsed kinds name args w) stays_bin).1,
)
