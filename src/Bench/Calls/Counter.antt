-- ===== src/Bench/Calls/Counter.antt =====
-- Descriptors over `cpu_bench`, `cpu_bench_bin` and `perf_init_leader`, which have one counter.
use bbench.Base.{ℕ, ◌≢◌, List, false, true, refl}
use bbench.Base.Float.{Float}
use bbench.Base.Text.{CString}
use bbench.Perf.Abi.{PerfAbi}
use bbench.Perf.Sys.{Os, World, waitpid}
use bbench.Perf.KernelClock.{KernelClock, reopen_pid, start, stop, read_scaled, destroy}
use bbench.Perf.KernelClock.Balance.{
  is_descriptor, Balanced, ReturnsInt, Balanced-trans, syscall-Balanced, open_this-Balanced,
  reopen_pid-Balanced, destroy-Balanced, start-Balanced, stop-Balanced, read_triplet-Balanced,
}
use bbench.Clock.Kinds.{EventKind, hardware_cycles}
use bbench.Clock.Group.{quiet_member, make_event, count_call}
use bbench.Process.{left}
use bbench.Bench.Run.Settles.{
  Settles, Settles-result, guarded-Settles, Settles-trans, process-Settles,
}
use bbench.Bench.Calls.{wait_for, cpu_bench, cpu_bench_bin, perf_init_leader}
use bbench.Bench.Calls.Balance.{LeavesNone}

module _ (os : Os) (ints : ReturnsInt os) (n : ℕ) where
  make_event-Balanced :
      (abi : PerfAbi) (k : EventKind) (w : World)
      → let (m, w') = make_event os abi k w in
        Balanced n 0 w.log (is_descriptor n m.clock.e_fd) w'.log
  unfolding make_event
  make_event-Balanced abi k w = open_this-Balanced os ints n (quiet_member abi k).clock w

  -- A counter that is started, read and closed around a piece of code.
  counted-Balanced :
      (fl : Float) (c : KernelClock) (body : World → World) (w : World)
      → LeavesNone n body
      → let (_, w') = read_scaled fl os c (stop os false c (body (start os false c w))) in
        Balanced n (is_descriptor n c.e_fd) w.log 0 (destroy os c w').log
  unfolding read_scaled
  counted-Balanced fl c body w none_left =
      let held = is_descriptor n c.e_fd in
      let w1 = start os false c w in
      let w2 = body w1 in
      let w3 = stop os false c w2 in
      let (_, w4) = read_scaled fl os c w3 in
      let join = Balanced-trans os ints n held held in
      join 0 _ _ _ (start-Balanced os ints n false c held w) (
        join 0 _ _ _ (none_left held w1) (
          join 0 _ _ _ (stop-Balanced os ints n false c held w2) (
            join 0 _ _ _ (read_triplet-Balanced os ints n c held w3)
              (destroy-Balanced os ints n c w4))))

  cpu_bench-log :
      (fl : Float) (abi : PerfAbi) (k : EventKind) (func : World → World) (w : World)
      → LeavesNone n func
      → Balanced n 0 w.log 0 (cpu_bench fl os abi k func w).1.log
  unfolding cpu_bench count_call
  cpu_bench-log fl abi k func w none_left =
      let (m, w1) = make_event os abi k w in
      Balanced-trans os ints n 0 (is_descriptor n m.clock.e_fd) 0 _ _ _
        (make_event-Balanced abi k w) (counted-Balanced fl m.clock func w1 none_left)

  perf_init_leader-log :
      (abi : PerfAbi) (w : World) → Balanced n 0 w.log 0 (perf_init_leader os abi w).log
  unfolding perf_init_leader
  perf_init_leader-log abi w =
      let (m, w1) = make_event os abi hardware_cycles w in
      let held = is_descriptor n m.clock.e_fd in
      Balanced-trans os ints n 0 held 0 _ _ _ (make_event-Balanced abi hardware_cycles w) (
        Balanced-trans os ints n held held 0 _ _ _ (start-Balanced os ints n true m.clock held w1)
          (destroy-Balanced os ints n m.clock (start os true m.clock w1)))

  cpu_bench_bin-Settles :
      (fl : Float) (abi : PerfAbi) (k : EventKind) (s : CString) (args : List CString) (w : World)
      → Settles os ints n 0 w.log 0 (cpu_bench_bin fl os abi k s args w)
  unfolding cpu_bench_bin
  cpu_bench_bin-Settles fl abi k s args w =
      let (m, w1) = make_event os abi k w in
      let held = is_descriptor n m.clock.e_fd in
      Settles-trans os ints n 0 held 0 w.log w1 _ (make_event-Balanced abi k w) (
        guarded-Settles os ints n held held 0 (destroy os m.clock) w1.log _ _
          (λ w2. destroy-Balanced os ints n m.clock w2)
          (process-Settles os ints n held false s args w1)
          (λ pid w2.
            let (_, c, w3) = reopen_pid os pid m.clock w2 in
            Balanced-trans os ints n held (is_descriptor n c.e_fd) 0 _ _ _
              (reopen_pid-Balanced os ints n pid m.clock w2)
              (counted-Balanced fl c (wait_for os pid) w3 (λ more w4.
                syscall-Balanced os ints n (waitpid pid false) more w4 (λ r. refl) refl))))

-- On every operating system whose descriptors fit an `int`, whatever else its calls return, and for
-- every counter: `cpu_bench` of a function that leaves no descriptor open, `cpu_bench_bin` of a
-- program, unless it ends in a child that left, and `perf_init_leader` have closed each descriptor as
-- often as they opened it. So the leader that `perf_init_leader` starts is closed when it returns.
pub cpu_bench-Balanced :
    (fl : Float) (os : Os) (abi : PerfAbi) (k : EventKind) (func : World → World) (s : CString)
    (args : List CString) (w : World) (n : ℕ)
    → ReturnsInt os
    → LeavesNone n func
    → (cpu_bench_bin fl os abi k s args w).0 ≢ left
    → Balanced n 0 w.log 0 (cpu_bench fl os abi k func w).1.log
      × Balanced n 0 w.log 0 (cpu_bench_bin fl os abi k s args w).1.log
      × Balanced n 0 w.log 0 (perf_init_leader os abi w).log
cpu_bench-Balanced fl os abi k func s args w n ints none_left stays = (
  cpu_bench-log os ints n fl abi k func w none_left,
  (Settles-result os ints n 0 0 w.log _ (cpu_bench_bin-Settles os ints n fl abi k s args w)
      stays).1,
  perf_init_leader-log os ints n abi w,
)
