-- ===== src/Bench/Run/Settles.antt =====
-- Descriptors over the parts of a run.
pub mod Attached
pub mod Timed
use bbench.Base.{
  arith, ℕ, ◌≢◌, refl, inl, inr, Bool, true, false, List, [], Option, none, some, ltb,
  if◌then◌else◌, Bool-cases,
}
use bbench.Base.Int.{ℤ, pos, ◌==ℤ◌}
use bbench.Base.Text.{CString}
use bbench.Perf.Sys.{
  Log, Os, World, ClockId, realtime_alarm, clock_gettime, spawn, waitpid, syscall,
}
use bbench.Perf.SystemClock.{SystemClock, get_time, start_clock, stop_clock}
use bbench.Perf.KernelClock.Balance.{Balanced, ReturnsInt, Balanced-trans, syscall-Balanced}
use bbench.Cli.Options.{BenchmarkOpts}
use bbench.Process.{Outcome, ok, thrown, left, hung, process, argv_of, strings, process_attach}
use bbench.Process.Attach.{Attaches, process_attach-Balanced, process_attach-hung}
use bbench.Bench.Wait.{sleep_ms, wait_with_timeout}
use bbench.Bench.Wait.Returns.{IsMonotonic, wait_with_timeout-IsWaited}
use bbench.Bench.Wait.Balance.{sleep_ms-Keeps, wait_with_timeout-Ends}
use bbench.Bench.Run.{
  and_then, guarded, unwind, on_clock, on_wait, run_command, make_clock, run_pre, time_run,
  attached,
}

module _ (os : Os) (ints : ReturnsInt os) (n : ℕ) where
  -- A piece of code that ends, by an exception or not, and then has brought the descriptors that are
  -- held from `a` to `b`.
  abbrev pub Settles {ℓ} : {A : Type ℓ} → ℕ → Log → ℕ → Outcome A × World → Type 0
  Settles a log b (ok x, w) = Balanced n a log b w.log
  Settles a log b (thrown e, w) = Balanced n a log b w.log
  Settles a log b (left, w) = Unit
  Settles a log b (hung, w) = ⊥

  pub Settles-trans {ℓ} :
      {A : Type ℓ} (a b c : ℕ) (log : Log) (w : World) (r : Outcome A × World)
      → Balanced n a log b w.log
      → Settles b w.log c r
      → Settles a log c r
  Settles-trans a b c log w (ok x, w') h k = Balanced-trans os ints n a b c _ _ _ h k
  Settles-trans a b c log w (thrown e, w') h k = Balanced-trans os ints n a b c _ _ _ h k
  Settles-trans a b c log w (left, w') h k = tt
  Settles-trans a b c log w (hung, w') h k = absurd k

  -- What is held besides stays held.
  pub Settles-frame {ℓ} :
      {A : Type ℓ} (held : ℕ) (log : Log) (r : Outcome A × World)
      → Settles 0 log 0 r
      → Settles held log held r
  Settles-frame held log (ok x, w) h = omega arith
  Settles-frame held log (thrown e, w) h = omega arith
  Settles-frame held log (left, w) h = tt
  Settles-frame held log (hung, w) h = absurd h

  pub and_then-Settles {ℓ} :
      {A B : Type ℓ} (held : ℕ) (log : Log) (r : Outcome A × World)
      (k : A → World → Outcome B × World)
      → Settles held log held r
      → ((x : A) (w : World) → Settles held w.log held (k x w))
      → Settles held log held (and_then r k)
  unfolding and_then
  and_then-Settles held log (ok x, w) k h next = Settles-trans held held held log w _ h (next x w)
  and_then-Settles held log (thrown e, w) k h next = h
  and_then-Settles held log (left, w) k h next = tt
  and_then-Settles held log (hung, w) k h next = h

  on_clock-Settles :
      (held : ℕ) (log : Log) (failed : Bool) (c : SystemClock) (w : World)
      → Balanced n held log held w.log
      → Settles held log held (on_clock (failed, c, w))
  on_clock-Settles held log true c w h = h
  on_clock-Settles held log false c w h = h

  pub start_clock-Settles :
      (held : ℕ) (id : ClockId) (c : SystemClock) (w : World)
      → Settles held w.log held (on_clock (start_clock os id c w))
  unfolding start_clock get_time
  start_clock-Settles held id c w =
      on_clock-Settles held w.log _ _ (syscall os (clock_gettime id) w).1
        (syscall-Balanced os ints n _ held w (λ s. refl) refl)

  pub stop_clock-Settles :
      (held : ℕ) (id : ClockId) (c : SystemClock) (w : World)
      → Settles held w.log held (on_clock (stop_clock os id c w))
  unfolding stop_clock get_time
  stop_clock-Settles held id c w =
      on_clock-Settles held w.log _ _ (syscall os (clock_gettime id) w).1
        (syscall-Balanced os ints n _ held w (λ s. refl) refl)

  pub process-Settles :
      (held : ℕ) (waits : Bool) (t : CString) (args : List CString) (w : World)
      → Settles held w.log held (process os waits t args w)
  unfolding process
  process-Settles held waits t args w =
      let call = spawn t (strings (argv_of t args)) in
      let (r, w1) = syscall os call w in
      let spawned = syscall-Balanced os ints n call held w (λ s. refl) refl in
      elim (Bool-cases (r ==ℤ pos 0)) [
        | inl started ↦ elim (Bool-cases waits) [
          | inl waiting ↦
              rw (started, waiting)
                (Balanced-trans os ints n held held held _ _ _ spawned (
                  syscall-Balanced os ints n (waitpid (os.child w.log) false) held w1 (λ s. refl)
                    refl))
          | inr going ↦ rw (started, going) spawned
        ]
        | inr failed ↦ rw failed spawned
      ]

  pub run_command-Settles :
      (held : ℕ) (command : Option CString) (w : World)
      → Settles held w.log held (run_command os command w)
  unfolding run_command
  run_command-Settles held none w = refl
  run_command-Settles held (some command) w =
      and_then-Settles held w.log _ _ (process-Settles held true command [] w) (λ pid w1. refl)

  pub make_clock-Settles : (held : ℕ) (w : World) → Settles held w.log held (make_clock os w)
  unfolding make_clock
  make_clock-Settles held w = start_clock-Settles held realtime_alarm _ w

  pub run_pre-Settles :
      (held : ℕ) (opts : BenchmarkOpts) (cl : SystemClock) (w : World)
      → Settles held w.log held (run_pre os opts cl w)
  unfolding run_pre
  run_pre-Settles held opts cl w =
      and_then-Settles held w.log _ _ (run_command-Settles held opts.pre w) (λ u w1. refl)

  pub unwind-Settles {ℓ} :
      {A : Type ℓ} (a b c : ℕ) (destroy : World → World) (log : Log) (r : Outcome A × World)
      → ((w : World) → Balanced n b w.log c (destroy w).log)
      → Settles a log b r
      → Settles a log c (unwind destroy r)
  unfolding unwind
  unwind-Settles a b c destroy log (ok x, w) d h = Balanced-trans os ints n a b c _ _ _ h (d w)
  unwind-Settles a b c destroy log (thrown e, w) d h = Balanced-trans os ints n a b c _ _ _ h (d w)
  unwind-Settles a b c destroy log (left, w) d h = tt
  unwind-Settles a b c destroy log (hung, w) d h = h

  pub guarded-Settles {ℓ} :
      {A B : Type ℓ} (a b c : ℕ) (destroy : World → World) (log : Log) (r : Outcome A × World)
      (k : A → World → Outcome B × World)
      → ((w : World) → Balanced n b w.log c (destroy w).log)
      → Settles a log b r
      → ((x : A) (w : World) → Settles b w.log c (k x w))
      → Settles a log c (guarded destroy r k)
  unfolding guarded
  guarded-Settles a b c destroy log (ok x, w) k d h next = Settles-trans a b c log w _ h (next x w)
  guarded-Settles a b c destroy log (thrown e, w) k d h next =
      Balanced-trans os ints n a b c _ _ _ h (d w)
  guarded-Settles a b c destroy log (left, w) k d h next = tt
  guarded-Settles a b c destroy log (hung, w) k d h next = h

  -- What a whole function that settles has done in the parent.
  pub Settles-result {ℓ} :
      {A : Type ℓ} (a b : ℕ) (log : Log) (r : Outcome A × World)
      → Settles a log b r
      → r.0 ≢ left
      → (r.0 ≢ hung) × Balanced n a log b r.1.log
  Settles-result a b log (ok x, w) h k = (λ e. cc, h)
  Settles-result a b log (thrown e, w) h k = (λ q. cc, h)
  Settles-result a b log (left, w) h k = absurd (k refl)
  Settles-result a b log (hung, w) h k = absurd h
