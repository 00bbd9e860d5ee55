-- ===== src/Btime/Report.antt =====
-- What `main` of tools/btime.cpp measures and writes.
use bbench.Base.{
  ℕ, zero, suc, ◌+◌, ◌≡◌, sym, ap, List, [], ◌∷◌, ◌++◌, length, length-append, arith, ◌<◌, ◌∙◌,
  refl, false, All, map,
}
use bbench.Base.Int.{ℤ, pos}
use bbench.Base.Float.{Float}
use bbench.Base.Text.{CString, Micron}
use bbench.Perf.Sys.{World}
use bbench.Process.{Outcome, ok}
use bbench.Bench.Run.Yields.{ok_injective, Yields, Yields-ok, after-Yields, and_then-ok}
use bbench.Report.Sink.{stdout_sink, close_sink, bytes_of, emit_items}
use bbench.Report.Sink.Balance.{after_writes, emit_items-after_writes}
use bbench.Report.Stats.{Stats, Sums, sums_loop, compute_stats}
use bbench.Report.Stats.Extremes.{IsValue, compute_stats-IsValue}
use bbench.Runs.Sorting.{Irreflexive, Transitive}
use bbench.Runs.Means.{total, mean_double}
use bbench.Btime.Layout.{figures, layout, report-layout}
use bbench.Btime.Valid.{arguments_loop-IsSane}
use bbench.Btime.{
  Settings, default_settings, chosen, arguments_loop, report, BtimePlatform, time_runs,
  measure_program, btime_main,
}

module _ {fl : Float} (pf : BtimePlatform fl) where
  open pf use {os, microseconds, printer}

  time_runs-length :
      (r n : ℕ) (program : CString) (times : List fl.Double) (w : World)
      → length times + r ≡ n
      → Yields (λ ts. length ts ≡ n) (time_runs pf r program times w)
  unfolding time_runs
  time_runs-length zero n program times w h = omega arith
  time_runs-length (suc r) n program times w h =
      after-Yields (λ ts. length ts ≡ n) _ _
        (λ t w1.
          time_runs-length r n program (times ++ t ∷ []) w1
            (omega (arith, length-append times (t ∷ []))))

  sums_loop-total :
      (times : List fl.Double) (st : Sums fl)
      → (sums_loop fl (λ t. t) times st).sum ≡ total fl.add st.sum times
  unfolding sums_loop
  sums_loop-total [] st = refl
  sums_loop-total (t ∷ times) st = sums_loop-total times _

  -- The figures of at least one time: their mean, the deviation that `compute_stats` finds, one that
  -- none is below, and one that none is above.
  abbrev pub AreFigures : Stats fl → List fl.Double → Type 0
  AreFigures st times =
      (st.mean ≡ mean_double fl times)
      × (st.stddev ≡ (compute_stats fl (λ t. t) times).stddev)
      × (All (λ t. fl.less t st.mn ≡ false) times × IsValue fl.less (λ t. t) st.mn times)
      × (All (λ t. fl.less st.mx t ≡ false) times × IsValue fl.less (λ t. t) st.mx times)

  compute_stats-AreFigures :
      Irreflexive fl.less
      → Transitive fl.less
      → (t : fl.Double) (times : List fl.Double)
      → AreFigures (compute_stats fl (λ x. x) (t ∷ times)) (t ∷ times)
  unfolding compute_stats
  compute_stats-AreFigures irr tra t times =
      let (least, greatest) = compute_stats-IsValue fl (λ x. x) irr tra t times in
      (
        ap (λ x. fl.div x (fl.of_ℕ (length (t ∷ times))))
            (sums_loop-total (t ∷ times) (record { sum = fl.of_ℕ 0; least = t; greatest = t })),
        refl,
        least,
        greatest,
      )

  -- What btime writes on the times of `n` runs, and the figures that it writes.
  abbrev pub Reported : Settings → List fl.Double → World → World → Type 0
  Reported s times w w' =
      (st : Stats fl) × AreFigures st times
      × (w'
          ≡ after_writes os (pos 1) (map (bytes_of printer) (layout fl s times (figures fl st))) w)

  report-Reported :
      Irreflexive fl.less
      → Transitive fl.less
      → (s : Settings) (times : List fl.Double) (w : World) → length times ≡ s.n_runs
      → 0 < s.n_runs
      → Reported s times w (emit_items printer os stdout_sink (report fl s times) w)
  report-Reported irr tra s [] w h some_ = absurd (omega arith)
  report-Reported irr tra s (t ∷ times) w h some_ =
      let st = compute_stats fl (λ x. x) (t ∷ times) in
      (
        st,
        compute_stats-AreFigures irr tra t times,
        emit_items-after_writes printer os stdout_sink (report fl s (t ∷ times)) w refl
            ∙ ap (λ items. after_writes os (pos 1) (map (bytes_of printer) items) w)
                (report-layout fl s t times h),
      )

  -- Whatever the arguments, and where `<` on doubles is irreflexive and transitive, NaN included: where
  -- `main` of btime measures a program and returns, it takes as many times as were asked for, and
  -- behind them it writes to the standard output the bytes of one report and nothing else, and returns
  -- 0. For CSV that is a line of titles, a line with its number for each time, and for more than one
  -- time a line for each figure under its label, or with `-q` the lines of the times alone; otherwise
  -- it is the time, or for more than one time the figures in one line, behind their labels or with
  -- `-q` alone. The figures are the mean of the times, the `stddev` of `compute_stats`, one of the times
  -- that none is below, and one that none is above.
  pub btime_main-report :
      ⦃m : Micron⦄ (args : List CString) (s : Settings) (program : CString) (w w' : World)
      (code : ℤ)
      → Irreflexive fl.less
      → Transitive fl.less
      → arguments_loop args default_settings ≡ chosen s program
      → btime_main pf args w ≡ (ok code, w')
      → (times : List fl.Double) × (w1 : World) × (time_runs pf s.n_runs program [] w
          ≡ (ok times, w1))
        × (length times ≡ s.n_runs)
        × (code ≡ pos 0)
        × Reported s times w1 w'
  unfolding btime_main measure_program arguments_loop close_sink
  btime_main-report [] s program w w' code irr tra h returns = absurd cc
  btime_main-report (a ∷ args) s program w w' code irr tra h returns =
      let k : List fl.Double → World → Outcome ℤ × World =
        λ times w1. (ok (pos 0), emit_items printer os stdout_sink (report fl s times) w1) in
      let (times, w1, ran, end) =
        and_then-ok (time_runs pf s.n_runs program [] w) k code w' (rw h at returns) in
      let count =
        Yields-ok (λ ts. length ts ≡ s.n_runs) _ times w1
          (time_runs-length s.n_runs s.n_runs program [] w (omega arith)) ran in
      let (some_, _) = arguments_loop-IsSane (a ∷ args) s program h in
      let (st, right, written) = report-Reported irr tra s times w1 count some_ in
      (
        times,
        w1,
        ran,
        count,
        ok_injective (sym (ap (λ (r : Outcome ℤ × World). r.0) end)),
        (st, right, sym (ap (λ (r : Outcome ℤ × World). r.1) end) ∙ written),
      )
