-- ===== src/Btime.antt =====
-- `main` of tools/btime.cpp, over `argv[1] … argv[argc - 1]`.
pub mod Report
pub mod Layout
pub mod Valid
use bbench.Base.{
  ℕ, zero, suc, ◌+◌, ◌==◌, Bool, true, false, not, ◌&&◌, ◌||◌, List, [], ◌∷◌, ◌++◌, Option, none,
  some, length, ltb, if◌then◌else◌,
}
use bbench.Base.Int.{ℤ, pos, negsuc, to_u64}
use bbench.Base.Float.{Float}
use bbench.Base.Text.{CString, Micron, codes, same}
use bbench.Perf.Sys.{Os, World}
use bbench.Perf.SystemClock.{SystemClock, read_us}
use bbench.Cli.Number.{IntResult, refused, value, overflow, parse_int_btime}
use bbench.Cli.Argv.{is_dashed, below_one, separator_of}
use bbench.Process.{Outcome, ok}
use bbench.Bench.Run.{and_then}
use bbench.Bench.Calls.{bench_bin}
use bbench.Report.Sink.{
  Item, text, int, double, newline, Printer, Sink, stdout_sink, close_sink, emit_items,
}
use bbench.Report.Stats.{Stats, compute_stats}

-- The variables in front of the loop; `csv_sep` is 0 for the human format.
pub record Settings : Type 0 where
  pub n_runs : ℕ
  pub csv_sep : ℕ
  pub quiet : Bool

abbrev pub default_settings : Settings
default_settings = record { n_runs = 1; csv_sep = 0; quiet = false }

-- What the loop ends in: the usage and a code to return, an overflow of `long long`, or a program to
-- measure.
pub data Choice : Type 0 where
  show_usage : ℤ → Choice
  overflowed : Choice
  chosen : Settings → CString → Choice

-- The branches of the chain of tests.
pub data Switch : Type 0 where
  repeat separator silent help unknown binary : Switch

module _ ⦃m : Micron⦄ where
  unfoldable pub switch_of : CString → Switch
  switch_of a =
      if same a (codes "-r")
      then repeat
      else if same a (codes "-x")
      then separator
      else if same a (codes "-q")
      then silent
      else if same a (codes "-h") || same a (codes "--help")
      then help
      else if is_dashed a
      then unknown
      else binary

-- The number behind `-r`, and the loop behind it.
abbrev pub on_runs : Settings → IntResult → (Settings → Choice) → Choice
on_runs s refused next = show_usage (negsuc 0)
on_runs s overflow next = overflowed
on_runs s (value v) next =
    if below_one v then show_usage (negsuc 0) else next (record s { n_runs = to_u64 v })

-- A switch that takes no value, or lacks it; the loop behind it.
abbrev pub on_single : Switch → CString → Settings → (Settings → Choice) → Choice
on_single repeat a s next = show_usage (negsuc 0)
on_single separator a s next = show_usage (negsuc 0)
on_single silent a s next = next (record s { quiet = true })
on_single help a s next = show_usage (pos 0)
on_single unknown a s next = show_usage (negsuc 0)
on_single binary a s next = chosen s a

-- The same with an argument `v` behind it: `skip` is the loop behind that.
abbrev pub on_pair :
    Switch → CString → CString → Settings → (Settings → Choice) → (Settings → Choice) → Choice
on_pair repeat a v s next skip = on_runs s (parse_int_btime v) skip
on_pair separator a v s next skip = skip (record s { csv_sep = separator_of v })
on_pair silent a v s next skip = on_single silent a s next
on_pair help a v s next skip = on_single help a s next
on_pair unknown a v s next skip = on_single unknown a s next
on_pair binary a v s next skip = on_single binary a s next

module _ ⦃m : Micron⦄ where
  -- The loop; behind it, no path shows the usage.
  unfoldable pub arguments_loop : List CString → Settings → Choice
  arguments_loop [] s = show_usage (negsuc 0)
  arguments_loop (a ∷ []) s = on_single (switch_of a) a s (arguments_loop [])
  arguments_loop (a ∷ v ∷ rest) s =
      on_pair (switch_of a) a v s (arguments_loop (v ∷ rest)) (arguments_loop rest)

module _ (fl : Float) where
  open fl use {Double}

  -- `for (usize i = 0; i < times.size(); ++i)`, from `i` on.
  unfoldable pub csv_rows : ℕ → ℕ → List Double → List (Item fl)
  csv_rows sep i [] = []
  csv_rows sep i (t ∷ times) =
      int (pos (i + 1)) ∷ text (sep ∷ []) ∷ double t ∷ newline ∷ csv_rows sep (i + 1) times

  unfoldable pub csv_report : Settings → List Double → List (Item fl)
  csv_report s times =
      let sep : Item fl = text (s.csv_sep ∷ []) in
      let stats = compute_stats fl (λ t. t) times in
      (if not s.quiet then text (codes "run") ∷ sep ∷ text (codes "time_us") ∷ newline ∷ [] else [])
      ++ csv_rows s.csv_sep 0 times
      ++ (if not s.quiet && ltb 1 (length times)
          then text (codes "mean")
            ∷ sep
            ∷ double stats.mean
            ∷ newline
            ∷ text (codes "stddev")
            ∷ sep
            ∷ double stats.stddev
            ∷ newline
            ∷ text (codes "min")
            ∷ sep
            ∷ double stats.mn
            ∷ newline
            ∷ text (codes "max")
            ∷ sep
            ∷ double stats.mx
            ∷ newline
            ∷ []
          else [])

  -- The report on one run.
  unfoldable pub single_report : Settings → Double → List (Item fl)
  single_report s time =
      if s.quiet
      then double time ∷ newline ∷ []
      else text (codes "time(us): ") ∷ double time ∷ newline ∷ []

  unfoldable pub summary : Settings → List Double → List (Item fl)
  summary s times =
      let stats = compute_stats fl (λ t. t) times in
      if s.quiet
      then double stats.mean
        ∷ text (codes " ")
        ∷ double stats.stddev
        ∷ text (codes " ")
        ∷ double stats.mn
        ∷ text (codes " ")
        ∷ double stats.mx
        ∷ newline
        ∷ []
      else text (codes "time(us): mean=")
        ∷ double stats.mean
        ∷ text (codes "  stddev=")
        ∷ double stats.stddev
        ∷ text (codes "  min=")
        ∷ double stats.mn
        ∷ text (codes "  max=")
        ∷ double stats.mx
        ∷ newline
        ∷ []

  -- What is written; `times[0]` is read where there is one run, which has one time.
  unfoldable pub report : Settings → List Double → List (Item fl)
  report s [] = if not (s.csv_sep == 0) then csv_report s [] else summary s []
  report s (time ∷ times) =
      if not (s.csv_sep == 0)
      then csv_report s (time ∷ times)
      else if s.n_runs == 1
      then single_report s time
      else summary s (time ∷ times)

-- What does not change during `main`: the machine, micron, and the compiler.
pub record BtimePlatform (fl : Float) : Type 0 where
  pub os : Os
  pub microseconds : fl.Double → fl.Double
  pub printer : Printer fl
  pub usage : World → World
  pub undefined : World → Outcome ℤ × World

module _ {fl : Float} (pf : BtimePlatform fl) where
  open pf use {os, microseconds, printer, usage, undefined}

  -- `for (usize i = 0; i < n_runs; ++i) times.push_back(…);`
  unfoldable pub time_runs : ℕ → CString → List fl.Double → World → Outcome (List fl.Double) × World
  time_runs zero path times w = (ok times, w)
  time_runs (suc r) path times w =
      and_then (bench_bin fl os (read_us fl microseconds) path [] w)
        λ t w1. time_runs r path (times ++ t ∷ []) w1

  unfoldable pub measure_program : Settings → CString → World → Outcome ℤ × World
  measure_program s path w = and_then (time_runs s.n_runs path [] w) λ times w1. (
    ok (pos 0),
    close_sink os stdout_sink (emit_items printer os stdout_sink (report fl s times) w1),
  )

  abbrev pub main_choice : Choice → World → Outcome ℤ × World
  main_choice (show_usage code) w = (ok code, usage w)
  main_choice overflowed w = undefined w
  main_choice (chosen s path) w = measure_program s path w

  unfoldable pub btime_main : ⦃m : Micron⦄ → List CString → World → Outcome ℤ × World
  btime_main [] w = (ok (negsuc 0), usage w)
  btime_main (a ∷ args) w = main_choice (arguments_loop (a ∷ args) default_settings) w
