-- ===== src/Bench/Run.antt =====
-- What the benchmarks of src/bench.hpp and src/topdown.hpp share: code in sequence that an exception
-- ends, the hooks, the timed part of a run, and a run that is attached to its counters.
pub mod Settles
pub mod Yields
use bbench.Base.{ℕ, Bool, true, List, [], Option, none, some, ltb, if◌then◌else◌}
use bbench.Base.Int.{ℤ}
use bbench.Base.Text.{CString}
use bbench.Perf.Sys.{Os, World, realtime_alarm}
use bbench.Perf.SystemClock.{SystemClock, zeroed_clock, start_clock, stop_clock}
use bbench.Cli.Options.{BenchmarkOpts}
use bbench.Process.{clock_failed, Outcome, ok, thrown, left, hung, process, process_attach}
use bbench.Bench.Wait.{sleep_ms, wait_with_timeout}

-- Code in sequence: an exception, and a process that left, end it.
unfoldable pub and_then {ℓ} :
    {A B : Type ℓ} → Outcome A × World → (A → World → Outcome B × World) → Outcome B × World
and_then (ok a, w) k = k a w
and_then (thrown e, w) k = (thrown e, w)
and_then (left, w) k = (left, w)
and_then (hung, w) k = (hung, w)

-- The same where an object is alive: an exception runs its destructor. A child that left has no
-- destructors to run.
unfoldable pub guarded {ℓ} :
    {A B : Type ℓ}
    → (World → World)
    → Outcome A × World
    → (A → World → Outcome B × World)
    → Outcome B × World
guarded destroy (ok a, w) k = k a w
guarded destroy (thrown e, w) k = (thrown e, destroy w)
guarded destroy (left, w) k = (left, w)
guarded destroy (hung, w) k = (hung, w)

-- The destructor at the end of a function, also where an exception leaves it.
unfoldable pub unwind {ℓ} : {A : Type ℓ} → (World → World) → Outcome A × World → Outcome A × World
unwind destroy (ok a, w) = (ok a, destroy w)
unwind destroy (thrown e, w) = (thrown e, destroy w)
unwind destroy (left, w) = (left, w)
unwind destroy (hung, w) = (hung, w)

-- A call on a clock, which throws where the clock failed.
abbrev pub on_clock : Bool × SystemClock × World → Outcome SystemClock × World
on_clock (failed, c, w) = (if failed then thrown clock_failed else ok c, w)

abbrev pub on_wait : World → Option World → Outcome {0} Unit × World
on_wait w none = (hung, w)
on_wait w (some w1) = (ok tt, w1)

module _ (os : Os) where
  -- `if ( command ) process<true>(command);`
  unfoldable pub run_command : Option CString → World → Outcome {0} Unit × World
  run_command none w = (ok tt, w)
  run_command (some command) w = and_then (process os true command [] w) λ _ w1. (ok tt, w1)

  -- `time_clock cl;`
  unfoldable pub make_clock : World → Outcome SystemClock × World
  make_clock w = on_clock (start_clock os realtime_alarm zeroed_clock w)

  -- `if ( opts.pre ) process<true>(opts.pre);`, where a clock is alive.
  unfoldable pub run_pre : BenchmarkOpts → SystemClock → World → Outcome SystemClock × World
  run_pre opts cl w = and_then (run_command opts.pre w) λ _ w1. (ok cl, w1)

  -- From the delay to `post`, with the end of the counters in between.
  unfoldable pub time_run :
      BenchmarkOpts → ℤ → SystemClock → (World → World) → World → Outcome SystemClock × World
  time_run opts pid cl end_all w =
      let w1 = if ltb 0 opts.delay_ms then sleep_ms os opts.delay_ms w else w in
      and_then (on_clock (start_clock os realtime_alarm cl w1)) λ cl1 w2.
        and_then (on_wait w2 (wait_with_timeout os pid opts.timeout_ms w2)) λ _ w3.
          and_then (on_clock (stop_clock os realtime_alarm cl1 w3)) λ cl2 w4.
            let w5 = end_all w4 in and_then (run_command opts.post w5) λ _ w6. (ok cl2, w6)

  -- From `process_attach` to the end of the function: the counters `s` are attached, `body` follows
  -- in the parent, and their destructor runs.
  unfoldable pub attached :
      {R S : Type 0}
      → (ℤ → S → World → S × World)
      → (S → World → World)
      → (ℤ → S → World → Outcome R × World)
      → CString
      → S
      → World
      → Outcome R × World
  attached attach destroy body path s w =
      let (o, s1, w1) = process_attach os path attach s w in
      unwind (destroy s1) (and_then (o, w1) λ pid w2. body pid s1 w2)
