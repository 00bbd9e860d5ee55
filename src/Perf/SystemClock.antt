-- ===== src/Perf/SystemClock.antt =====
-- `system_clock` of src/perf.hpp, which measures the time between two calls.
use bbench.Base.{◌^◌, Bool}
use bbench.Base.Int.{pos, negsuc, ◌==ℤ◌, ◌-ℤ◌}
use bbench.Base.Float.{Float}
use bbench.Perf.Sys.{Os, World, Timespec, ClockId, clock_gettime, syscall}

pub record SystemClock : Type 0 where
  pub time_begin : Timespec
  pub time_end : Timespec

-- Behind the `memset`s.
abbrev pub zeroed_clock : SystemClock
zeroed_clock = record {
  time_begin = record { tv_sec = pos 0; tv_nsec = pos 0 };
  time_end = record { tv_sec = pos 0; tv_nsec = pos 0 };
}

module _ (os : Os) (id : ClockId) where
  -- `clock_gettime(C, t)`: whether it failed, and `t` behind it.
  unfoldable pub get_time : Timespec → World → Bool × Timespec × World
  get_time t w =
      let (r, w1) = syscall os (clock_gettime id) w in (r ==ℤ negsuc 0, os.time w.log id t, w1)

  -- `start`, `start_get` and the constructors: the flag says that they throw.
  unfoldable pub start_clock : SystemClock → World → Bool × SystemClock × World
  start_clock c w =
      let (failed, t, w1) = get_time c.time_begin w in (failed, record c { time_begin = t }, w1)

  -- `stop` and `stop_get`
  unfoldable pub stop_clock : SystemClock → World → Bool × SystemClock × World
  stop_clock c w =
      let (failed, t, w1) = get_time c.time_end w in (failed, record c { time_end = t }, w1)

-- The reads, over micron's conversions of seconds.
module _ (fl : Float) where
  open fl use {Double, of_ℕ, of_ℤ, add, mul, div}

  -- `sec`, and `ns`
  unfoldable pub seconds_between : SystemClock → Double
  seconds_between c = of_ℤ (c.time_end.tv_sec -ℤ c.time_begin.tv_sec)

  unfoldable pub nanos_between : SystemClock → Double
  nanos_between c = of_ℤ (c.time_end.tv_nsec -ℤ c.time_begin.tv_nsec)

  unfoldable pub read_clock : SystemClock → Double
  read_clock c = add (seconds_between c) (div (nanos_between c) (of_ℕ (10 ^ 9)))

  unfoldable pub read_ds : SystemClock → Double
  read_ds c = mul (read_clock c) (of_ℕ 10)

  unfoldable pub read_ms : (Double → Double) → SystemClock → Double
  read_ms milliseconds c =
      add (milliseconds (seconds_between c)) (div (nanos_between c) (of_ℕ (10 ^ 6)))

  unfoldable pub read_us : (Double → Double) → SystemClock → Double
  read_us microseconds c =
      add (microseconds (seconds_between c)) (div (nanos_between c) (of_ℕ (10 ^ 3)))

  unfoldable pub read_ns : (Double → Double) → SystemClock → Double
  read_ns nanoseconds c = add (nanoseconds (seconds_between c)) (nanos_between c)

  -- `read(t, ts)`, and `read(t)` with `time_begin` for `ts`.
  unfoldable pub read_between : Timespec → Timespec → Double
  read_between t ts =
      add (of_ℤ (t.tv_sec -ℤ ts.tv_sec)) (div (of_ℤ (t.tv_nsec -ℤ ts.tv_nsec)) (of_ℕ (10 ^ 9)))

  unfoldable pub read_at : SystemClock → Timespec → Double
  read_at c t = read_between t c.time_begin

  -- `read_ms(t, ts)`, and `read_ms(t)`.
  unfoldable pub read_ms_between : (Double → Double) → Timespec → Timespec → Double
  read_ms_between milliseconds t ts =
      add (milliseconds (of_ℤ (t.tv_sec -ℤ ts.tv_sec)))
        (div (of_ℤ (t.tv_nsec -ℤ ts.tv_nsec)) (of_ℕ (10 ^ 6)))

  unfoldable pub read_ms_at : (Double → Double) → SystemClock → Timespec → Double
  read_ms_at milliseconds c t = read_ms_between milliseconds t c.time_begin

  -- `now`, where `t` holds `before` in front of the call; the flag says that it throws.
  unfoldable pub now : Os → ClockId → Timespec → World → Bool × Double × World
  now os id before w =
      let (failed, t, w1) = get_time os id before w in
      (failed, add (of_ℤ t.tv_sec) (div (of_ℤ t.tv_nsec) (of_ℕ (10 ^ 9))), w1)
