-- ===== src/Clock/Stopwatch.antt =====
-- `clock::elapsed` and `stopwatch` of src/clock.hpp.
pub mod Laps
use bbench.Base.{List, [], ◌∷◌, ◌++◌}
use bbench.Base.Float.{Float}
use bbench.Perf.Sys.{Os, World, ClockId, Timespec}
use bbench.Perf.SystemClock.{
  SystemClock, start_clock, stop_clock, read_clock, read_ds, read_ms, read_us, read_ns,
  read_ms_between,
}
use bbench.Process.{Outcome, ok}
use bbench.Bench.Run.{and_then, on_clock}

-- `time_resolution`, each under one of its two names.
pub data TimeResolution : Type 0 where
  seconds deciseconds milliseconds microseconds nanoseconds : TimeResolution

-- micron's conversions of seconds.
pub record Conversions (fl : Float) : Type 0 where
  pub to_ms : fl.Double → fl.Double
  pub to_us : fl.Double → fl.Double
  pub to_ns : fl.Double → fl.Double

-- `clock::elapsed<R>()`
unfoldable pub elapsed : (fl : Float) → Conversions fl → TimeResolution → SystemClock → fl.Double
elapsed fl cv seconds c = read_clock fl c
elapsed fl cv deciseconds c = read_ds fl c
elapsed fl cv milliseconds c = read_ms fl cv.to_ms c
elapsed fl cv microseconds c = read_us fl cv.to_us c
elapsed fl cv nanoseconds c = read_ns fl cv.to_ns c

pub record Stopwatch : Type 0 where
  pub clock : SystemClock
  pub start_time : Timespec
  pub last : Timespec
  pub laps : List Timespec

module _ (os : Os) (id : ClockId) where
  unfoldable pub begin_watch : Stopwatch → World → Outcome Stopwatch × World
  begin_watch s w =
      and_then (on_clock (start_clock os id s.clock w))
        λ c w1. (ok (record s { clock = c; start_time = c.time_begin }), w1)

  -- `lap`, and `end`, which is the same.
  unfoldable pub lap : Stopwatch → World → Outcome Stopwatch × World
  lap s w =
      and_then (on_clock (stop_clock os id s.clock w)) λ c w1.
        (ok (record s { clock = c; last = c.time_end; laps = s.laps ++ c.time_end ∷ [] }), w1)

  -- `stopwatch::operator()`: a function between start and stop, and the time.
  unfoldable pub time_call :
      (fl : Float) → Stopwatch → (World → World) → World → Outcome (fl.Double × Stopwatch) × World
  time_call fl s f w = and_then (on_clock (start_clock os id s.clock w)) λ c w1.
      and_then (on_clock (stop_clock os id c (f w1)))
        λ c1 w2. (ok (read_clock fl c1, record s { clock = c1 }), w2)

-- `stopwatch::elapsed()`
abbrev pub elapsed_laps : (fl : Float) → Conversions fl → Stopwatch → List Timespec → fl.Double
elapsed_laps fl cv s [] = fl.negate (fl.of_ℕ 1)
elapsed_laps fl cv s (_ ∷ _) = read_ms_between fl cv.to_ms s.last s.start_time

unfoldable pub elapsed_watch : (fl : Float) → Conversions fl → Stopwatch → fl.Double
elapsed_watch fl cv s = elapsed_laps fl cv s s.laps
