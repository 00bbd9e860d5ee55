-- ===== src/Tool/Main/Balance.antt =====
-- Descriptors over a whole run of `main`, and its end.
use bbench.Base.{ℕ, ◌≡◌, refl, List, [], ◌∷◌, Option, none, some}
use bbench.Base.Int.{ℤ, pos}
use bbench.Base.Float.{Float}
use bbench.Base.Text.{CString, Micron}
use bbench.Perf.Sys.{Log, World}
use bbench.Perf.KernelClock.Balance.{Balanced, ReturnsInt, Balanced-trans}
use bbench.Cli.Options.{CliOpts}
use bbench.Cli.Argv.{accepted, parse_argv, parse_loop}
use bbench.Process.{Outcome, ok, thrown, left, hung}
use bbench.Bench.Wait.Returns.{IsMonotonic}
use bbench.Bench.Run.{and_then}
use bbench.Bench.Run.Settles.{Settles}
use bbench.Report.Sink.{Sink, close_sink}
use bbench.Report.Sink.Balance.{sink_holds, file_sink-Balanced, close_sink-Balanced}
use bbench.Tool.Main.{Platform, open_out, main_accepted, main}
use bbench.Tool.Main.Settles.{main_reports-Settles}

module _ {fl : Float} (pf : Platform fl) (ints : ReturnsInt pf.os) (n : ℕ) where
  open pf use {os}

  open_out-Balanced :
      (path : Option CString) (w : World)
      → let (out, w1) = open_out pf path w in Balanced n 0 w.log (sink_holds n out) w1.log
  open_out-Balanced (some path) w = file_sink-Balanced os ints n path w
  open_out-Balanced none w = refl

  -- The end of `main`: where it returns, it has closed the sink.
  closed-Balanced :
      (out : Sink) (log : Log) (r : Outcome {0} Unit × World) (code c : ℤ)
      → Settles os ints n (sink_holds n out) log (sink_holds n out) r
      → (and_then r λ _ w. (ok code, close_sink os out w)).0 ≡ ok c
      → Balanced n (sink_holds n out) log 0 (and_then r λ _ w. (ok code, close_sink os out w)).1.log
  unfolding and_then
  closed-Balanced out log (ok u, w) code c h e =
      Balanced-trans os ints n _ _ 0 _ _ _ h (close_sink-Balanced os ints n out w)
  closed-Balanced out log (thrown q, w) code c h e = cc
  closed-Balanced out log (left, w) code c h e = cc
  closed-Balanced out log (hung, w) code c h e = cc

pub main-main_accepted :
    {fl : Float} ⦃m : Micron⦄ (pf : Platform fl) (args : List CString) (cli : CliOpts) (w : World)
    → parse_argv args ≡ accepted cli
    → main pf args w ≡ main_accepted pf cli w
unfolding main parse_argv parse_loop
main-main_accepted pf [] cli w h = cc
main-main_accepted pf (a ∷ args) cli w h = rw h

-- For every command line that is accepted, on every operating system with a monotonic clock whose
-- descriptors fit an `int`, whatever else its calls return: where `main` returns, each descriptor has
-- been closed as often as it was opened, over all its runs, its reports and its output file.
pub main-Balanced :
    (fl : Float) ⦃m : Micron⦄ (pf : Platform fl) (args : List CString) (cli : CliOpts) (w : World)
    (n : ℕ) (code : ℤ)
    → ReturnsInt pf.os
    → IsMonotonic pf.os
    → parse_argv args ≡ accepted cli
    → (main pf args w).0 ≡ ok code
    → Balanced n 0 w.log 0 (main pf args w).1.log
unfolding main_accepted
main-Balanced fl pf args cli w n code ints clock h returns =
    let (out, w1) = open_out pf cli.output_file w in
    let same_run = main-main_accepted pf args cli w h in
    rw same_run (
      Balanced-trans pf.os ints n 0 _ 0 _ _ _ (open_out-Balanced pf ints n cli.output_file w) (
        closed-Balanced pf ints n out w1.log _ (pos 0) code
          (main_reports-Settles pf ints clock n cli.bench_opts.event_csv cli _ out _ w1)
          (rw same_run at returns)))
