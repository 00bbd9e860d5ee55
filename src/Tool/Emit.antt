-- ===== src/Tool/Emit.antt =====
-- `emit_stats`, `emit_metrics` and `emit_topdown` of tools/bbench.cpp, and the rows of `-e`.
pub mod MetricNames
use bbench.Base.{
  ℕ, ◌-◌, Bool, true, false, ◌&&◌, not, List, [], ◌∷◌, ◌++◌, Option, none, some, length, ltb, ◌==◌,
  if◌then◌else◌,
}
use bbench.Base.Int.{ℤ, pos, ◌==ℤ◌}
use bbench.Base.Float.{Float}
use bbench.Base.Text.{CString, Micron, codes}
use bbench.Base.Buffer.{buffer_size}
use bbench.Events.Dynamic.{EventRow}
use bbench.Results.{Benchmark}
use bbench.Metrics.{NamedMetric, lookup_metric}
use bbench.Report.Sink.{Item, text, sized, int, double, newline}
use bbench.Report.Stats.{compute_stats}
use bbench.Report.Human.{blue, plain}
use bbench.Topdown.Measure.{TopdownResult}
use bbench.Bench.Dynamic.{DynamicResult}

-- A name as `emit` reads it; the events that a run counts have one.
abbrev known_name : Option CString → CString
known_name none = []
known_name (some s) = s

module _ (fl : Float) where
  unfoldable pub emit_stats : List (Benchmark fl) → Bool → List (Item fl)
  emit_stats runs color =
      let s_time = compute_stats fl (λ b. b.time) runs in
      let s_cyc = compute_stats fl (λ b. fl.of_ℤ b.cycles) runs in
      let s_ins = compute_stats fl (λ b. fl.of_ℤ b.instructions) runs in
      blue fl color
      ++ text (codes "time (us):     mean=") ∷ plain fl color
      ++ (double s_time.mean
          ∷ text (codes "  stddev=")
          ∷ double s_time.stddev
          ∷ text (codes "  min=")
          ∷ double s_time.mn
          ∷ text (codes "  max=")
          ∷ double s_time.mx
          ∷ newline
          ∷ [])
      ++ blue fl color
      ++ text (codes "cycles:        mean=") ∷ plain fl color
      ++ (double s_cyc.mean ∷ text (codes "  stddev=") ∷ double s_cyc.stddev ∷ newline ∷ [])
      ++ blue fl color
      ++ text (codes "instructions:  mean=") ∷ plain fl color
      ++ (double s_ins.mean ∷ text (codes "  stddev=") ∷ double s_ins.stddev ∷ newline ∷ [])

  module _ ⦃m : Micron⦄ (b : Benchmark fl) (color : Bool) where
    -- What a name in the buffer emits.
    unfoldable pub emit_metric : CString → Option (NamedMetric fl) → List (Item fl)
    emit_metric buf none = text (codes "metric '") ∷ text buf ∷ text (codes "' not known\n") ∷ []
    emit_metric buf (some x) =
        blue fl color
        ++ text x.name ∷ text (codes ": ") ∷ plain fl color
        ++ (double (x.fn b) ∷ newline ∷ [])

    -- At a comma and at the end: `if (bi > 0) { … bi = 0; }`.
    unfoldable pub emit_buffer : CString → List (Item fl)
    emit_buffer [] = []
    emit_buffer (c ∷ cs) = emit_metric (c ∷ cs) (lookup_metric fl (some (c ∷ cs)))

    -- The loop, with the bytes `buf[0] … buf[bi - 1]`. A byte beyond the buffer is dropped.
    unfoldable pub metrics_loop : CString → CString → List (Item fl)
    metrics_loop [] buf = emit_buffer buf
    metrics_loop (c ∷ p) buf =
        let next = metrics_loop p [] in
        let more =
          metrics_loop p (if ltb (length buf) (buffer_size - 1) then buf ++ c ∷ [] else buf) in
        if c == b',' then emit_buffer buf ++ next else more

    -- `emit_metrics`; `none` is the null pointer.
    unfoldable pub emit_metrics : Option CString → List (Item fl)
    emit_metrics none = []
    emit_metrics (some csv) = metrics_loop csv []

  unfoldable pub emit_topdown : TopdownResult fl → Bool → List (Item fl)
  emit_topdown td color =
      let title : Item fl =
        if color
        then sized (27 ∷ codes "[34mtopdown:" ++ 27 ∷ codes "[0m\n") 21
        else text (codes "topdown:\n") in
      if not td.supported
      then text (codes "topdown: not supported on this CPU/kernel (Intel Icelake+ required)\n") ∷ []
      else title
        ∷ text (codes "  retiring:    ")
        ∷ double td.retiring
        ∷ newline
        ∷ text (codes "  bad-spec:    ")
        ∷ double td.bad_spec
        ∷ newline
        ∷ text (codes "  fe-bound:    ")
        ∷ double td.frontend
        ∷ newline
        ∷ text (codes "  be-bound:    ")
        ∷ double td.backend
        ∷ newline
        ∷ []

  -- `for (const auto &row : res.rows)`
  unfoldable pub emit_rows : Bool → List EventRow → List (Item fl)
  emit_rows verbose [] = []
  emit_rows verbose (row ∷ rows) =
      text (codes "  ")
        ∷ text (known_name row.name)
        ∷ text (codes ": ")
        ∷ int row.value
        ∷ (if verbose && not (row.err ==ℤ pos 0)
            then text (codes "  [open failed: errno=") ∷ int row.err ∷ text (codes "]") ∷ []
            else [])
      ++ newline ∷ emit_rows verbose rows

  -- What the last run of a program under the events of `-e` emits.
  unfoldable pub emit_dynamic : Bool → CString → DynamicResult fl → List (Item fl)
  emit_dynamic verbose path res =
      text path
      ∷ text (codes ": time(us)=")
      ∷ double res.time
      ∷ newline
      ∷ emit_rows verbose res.rows
