-- ===== src/Clock/Stopwatch/Laps.antt =====
-- A stopwatch over any sequence of uses.
use bbench.Base.{◌≡◌, ◌⊎◌, inl, inr, refl, List, [], ◌∷◌, ◌++◌, Option, none, some}
use bbench.Base.Float.{Float}
use bbench.Perf.Sys.{Os, World, ClockId, Timespec}
use bbench.Perf.SystemClock.{read_ms_between}
use bbench.Process.{Outcome, ok}
use bbench.Bench.Run.{and_then}
use bbench.Bench.Run.Yields.{Yields, Yields-ok, and_then-Yields, after-Yields}
use bbench.Clock.Stopwatch.{
  Conversions, Stopwatch, begin_watch, lap, time_call, elapsed_laps, elapsed_watch,
}

-- What a program does with a stopwatch.
pub data Use (fl : Float) : Type 0 where
  begin : Use fl
  take_lap : Use fl
  call : (World → World) → Use fl

module _ (fl : Float) (os : Os) (id : ClockId) where
  abbrev pub use_once : Use fl → Stopwatch → World → Outcome Stopwatch × World
  use_once begin s w = begin_watch os id s w
  use_once take_lap s w = lap os id s w
  use_once (call f) s w = and_then (time_call os id fl s f w) λ (_, s1) w1. (ok s1, w1)

  abbrev pub use_all : List (Use fl) → Stopwatch → World → Outcome Stopwatch × World
  use_all [] s w = (ok s, w)
  use_all (u ∷ us) s w = and_then (use_once u s w) (use_all us)

-- The last of the laps.
abbrev pub last_of : List Timespec → Option Timespec
last_of [] = none
last_of (t ∷ []) = some t
last_of (t ∷ u ∷ ts) = last_of (u ∷ ts)

last_of-append : (ts : List Timespec) (t : Timespec) → last_of (ts ++ t ∷ []) ≡ some t
last_of-append [] t = refl
last_of-append (u ∷ []) t = refl
last_of-append (u ∷ v ∷ ts) t = last_of-append (v ∷ ts) t

-- A watch whose `last` is the last of its laps, where it has any.
abbrev pub IsCurrent : Stopwatch → Type 0
IsCurrent s = (s.laps ≡ []) ⊎ (last_of s.laps ≡ some s.last)

module _ (fl : Float) (os : Os) (id : ClockId) where
  time_call-IsCurrent :
      (s : Stopwatch) (f : World → World) (w : World)
      → IsCurrent s
      → Yields (λ (r : fl.Double × Stopwatch). IsCurrent r.1) (time_call os id fl s f w)
  unfolding time_call
  time_call-IsCurrent s f w h = after-Yields _ _ _ (λ c w1. after-Yields _ _ _ (λ c1 w2. h))

  use_once-IsCurrent :
      (u : Use fl) (s : Stopwatch) (w : World)
      → IsCurrent s
      → Yields IsCurrent (use_once fl os id u s w)
  unfolding begin_watch lap
  use_once-IsCurrent begin s w h = after-Yields _ _ _ (λ c w1. h)
  use_once-IsCurrent take_lap s w h =
      after-Yields _ _ _ (λ c w1. inr (last_of-append s.laps c.time_end))
  use_once-IsCurrent (call f) s w h =
      and_then-Yields (λ (r : fl.Double × Stopwatch). IsCurrent r.1) IsCurrent _ _
        (time_call-IsCurrent s f w h) (λ r w1 k. k)

  use_all-IsCurrent :
      (us : List (Use fl)) (s : Stopwatch) (w : World)
      → IsCurrent s
      → Yields IsCurrent (use_all fl os id us s w)
  use_all-IsCurrent [] s w h = h
  use_all-IsCurrent (u ∷ us) s w h =
      and_then-Yields IsCurrent IsCurrent _ _ (use_once-IsCurrent u s w h)
        (λ s1 w1 k. use_all-IsCurrent us s1 w1 k)

-- The milliseconds to the last of the laps, and -1 without one.
abbrev pub until : (fl : Float) → Conversions fl → Timespec → Option Timespec → fl.Double
until fl cv start none = fl.negate (fl.of_ℕ 1)
until fl cv start (some t) = read_ms_between fl cv.to_ms t start

until-elapsed_laps :
    (fl : Float) (cv : Conversions fl) (s : Stopwatch) (laps : List Timespec)
    → (laps ≡ []) ⊎ (last_of laps ≡ some s.last)
    → elapsed_laps fl cv s laps ≡ until fl cv s.start_time (last_of laps)
until-elapsed_laps fl cv s [] h = refl
until-elapsed_laps fl cv s (t ∷ ts) (inl e) = cc
until-elapsed_laps fl cv s (t ∷ ts) (inr e) = rw e

-- Whatever is done with a stopwatch that starts without laps, in whatever order, as long as no clock
-- fails: `elapsed` is the time in milliseconds from the start that it keeps to the last of its laps,
-- and -1 where it has none.
pub elapsed_watch-use_all :
    (fl : Float) (cv : Conversions fl) (os : Os) (id : ClockId) (us : List (Use fl))
    (s s' : Stopwatch) (w w' : World)
    → s.laps ≡ []
    → use_all fl os id us s w ≡ (ok s', w')
    → elapsed_watch fl cv s' ≡ until fl cv s'.start_time (last_of s'.laps)
unfolding elapsed_watch
elapsed_watch-use_all fl cv os id us s s' w w' fresh ran =
    until-elapsed_laps fl cv s' s'.laps
      (Yields-ok IsCurrent _ s' w' (use_all-IsCurrent fl os id us s w (inl fresh)) ran)
