-- ===== src/Tool/Emit/MetricNames.antt =====
-- What `emit_metrics` makes of a list of names: each is looked up whole.
use mathlib.Core.List.{append-nil}
use bbench.Base.{
  ◌≤◌, ◌<◌, ◌≡◌, refl, sym, ◌∙◌, ap, inl, inr, Bool, Option, List, [], ◌∷◌, ◌++◌, none, some, arith,
  length, ltb, All, Bool-cases, ltb→lt, if◌then◌else◌,
}
use bbench.Base.Float.{Float}
use bbench.Base.Text.{CString, Micron, codes, same, same_iff}
use bbench.Base.Buffer.{NoComma, join, fill, length-fill, fill_fits, take, fill-take}
use bbench.Results.{Benchmark}
use bbench.Metrics.{NamedMetric, known_metrics, find_metric, lookup_metric}
use bbench.Report.Sink.{Item, text, double, newline}
use bbench.Tool.Emit.{emit_metric, emit_buffer, metrics_loop, emit_metrics}

module _ ⦃m : Micron⦄ (fl : Float) where
  known_metrics_short : All (λ x. length x.name ≤ 25) (known_metrics fl)
  unfolding known_metrics
  known_metrics_short = omega arith

  find_metric_long :
      (name : CString) (xs : List (NamedMetric fl))
      → 25 < length name
      → All (λ x. length x.name ≤ 25) xs
      → find_metric fl name xs ≡ none
  unfolding find_metric
  find_metric_long name [] h short = refl
  find_metric_long name (x ∷ xs) h (s, short) = elim (Bool-cases (same x.name name)) [
    | inl here ↦ absurd (omega (arith, ap length ((same_iff x.name name).0 here)))
    | inr other ↦ rw other (find_metric_long name xs h short)
  ]

  lookup_metric_long : (name : CString) → 25 < length name → lookup_metric fl (some name) ≡ none
  unfolding lookup_metric
  lookup_metric_long name h = find_metric_long name (known_metrics fl) h known_metrics_short

  -- Cutting a name to the buffer does not change what is found.
  lookup_metric-fill :
      (n : CString) → lookup_metric fl (some (fill [] n)) ≡ lookup_metric fl (some n)
  lookup_metric-fill n = elim (Bool-cases (ltb 63 (length n))) [
    | inl long ↦
        lookup_metric_long (fill [] n)
          (omega (arith, length-fill [] n (omega arith) (omega (arith, ltb→lt 63 (length n) long))))
        ∙ sym (lookup_metric_long n (omega (arith, ltb→lt 63 (length n) long)))
    | inr short ↦ rw (fill_fits [] n (ground arith))
  ]

  module _ (b : Benchmark fl) (color : Bool) where
    -- The line that a name stands for: the name of the metric, in blue if there is colour, and its
    -- value, or a message with the first 63 bytes of the name.
    abbrev pub metric_line : CString → Option (NamedMetric fl) → List (Item fl)
    metric_line n none =
        text (codes "metric '") ∷ text (take 63 n) ∷ text (codes "' not known\n") ∷ []
    metric_line n (some x) =
        let shown = text x.name ∷ text (codes ": ") ∷ [] in
        let number = double (x.fn b) ∷ newline ∷ [] in
        if color
        then text (27 ∷ codes "[34m") ∷ (shown ++ text (27 ∷ codes "[0m") ∷ number)
        else shown ++ number

    -- The lines of the names that are not empty, in order.
    abbrev pub emit_named : List CString → List (Item fl)
    emit_named [] = []
    emit_named ([] ∷ ns) = emit_named ns
    emit_named ((c ∷ n) ∷ ns) =
        metric_line (c ∷ n) (lookup_metric fl (some (c ∷ n))) ++ emit_named ns

    emit_metric-metric_line :
        (n : CString) (o : Option (NamedMetric fl))
        → emit_metric fl b color (take 63 n) o ≡ metric_line n o
    unfolding emit_metric
    emit_metric-metric_line n none = refl
    emit_metric-metric_line n (some x) = elim (Bool-cases color) [
      | inl coloured ↦ rw coloured
      | inr not_coloured ↦ rw not_coloured
    ]

    metrics_loop-fill :
        (n rest buf : CString)
        → NoComma n
        → metrics_loop fl b color (n ++ rest) buf ≡ metrics_loop fl b color rest (fill buf n)
    unfolding metrics_loop
    metrics_loop-fill [] rest buf h = refl
    metrics_loop-fill (c ∷ n) rest buf h = rw h.0 (metrics_loop-fill n rest _ h.1)

    emit_buffer-fill :
        (n : CString) (ns : List CString)
        → emit_buffer fl b color (fill [] n) ++ emit_named ns ≡ emit_named (n ∷ ns)
    unfolding emit_buffer
    emit_buffer-fill [] ns = refl
    emit_buffer-fill (c ∷ n) ns = rw (
      ← (lookup_metric-fill (c ∷ n)),
      fill-take (c ∷ n),
      emit_metric-metric_line (c ∷ n) (lookup_metric fl (some (take 63 (c ∷ n)))),
    )

    metrics_loop_end : (buf : CString) → metrics_loop fl b color [] buf ≡ emit_buffer fl b color buf
    unfolding metrics_loop
    metrics_loop_end buf = refl

    metrics_loop_comma :
        (p buf : CString)
        → metrics_loop fl b color (b',' ∷ p) buf
          ≡ emit_buffer fl b color buf ++ metrics_loop fl b color p []
    unfolding metrics_loop
    metrics_loop_comma p buf = refl

    metrics_loop-join :
        (ns : List CString) → All NoComma ns → metrics_loop fl b color (join ns) [] ≡ emit_named ns
    metrics_loop-join [] h = metrics_loop_end [] ∙ sym (append-nil _) ∙ emit_buffer-fill [] []
    metrics_loop-join (n ∷ []) h =
        ap (λ (t : CString). metrics_loop fl b color t []) (sym (append-nil n))
        ∙ metrics_loop-fill n [] [] h.0
        ∙ metrics_loop_end (fill [] n)
        ∙ sym (append-nil _)
        ∙ emit_buffer-fill n []
    metrics_loop-join (n ∷ k ∷ ns) h =
        metrics_loop-fill n (b',' ∷ join (k ∷ ns)) [] h.0
        ∙ metrics_loop_comma (join (k ∷ ns)) (fill [] n)
        ∙ ap (λ items. emit_buffer fl b color (fill [] n) ++ items) (metrics_loop-join (k ∷ ns) h.1)
        ∙ emit_buffer-fill n (k ∷ ns)

    -- For every list of names without commas, joined by commas, `emit_metrics` emits a line for each
    -- name that is not empty, in order: the name and the value of the metric that is found under its
    -- full length, also beyond the 64 bytes of the buffer, the name in blue if there is colour; or, if
    -- there is none, the message that the metric is not known, with the first 63 bytes of its name.
    pub emit_metrics-join :
        (ns : List CString)
        → All NoComma ns
        → emit_metrics fl b color (some (join ns)) ≡ emit_named ns
    unfolding emit_metrics
    emit_metrics-join ns h = metrics_loop-join ns h
