-- ===== src/Cli/Argv/RoundTrip.antt =====
-- Every set of options can be written as a command line that `parse_argv` reads back.
use mathlib.Core.List.{append-nil, append_assoc}
use bbench.Base.{
  ℕ, zero, suc, ◌%◌, ◌^◌, ◌≤◌, ◌<◌, ◌≡◌, ◌≢◌, refl, ◌∙◌, Bool, true, false, not, List, [], ◌∷◌,
  ◌++◌, Option, none, some, arith, All,
}
use bbench.Base.Int.{residue}
use bbench.Base.Text.{CString, Micron, codes}
use bbench.Cli.Number.{i64_limit}
use bbench.Cli.Options.{CliOpts, default_cli_opts}
use bbench.Cli.Argv.Show.{show, parse_int-show}
use bbench.Cli.Argv.Valid.{IsSane}
use bbench.Cli.Argv.{
  one, two, accepted, is_dashed, classify, with_int, apply_flag, check_paths, parse_loop,
  parse_argv, set_bench,
}
use bbench.Cli.Argv.Classify.{
  parse_loop-one, parse_loop-two, classify_plain, classify-runs, classify-detail_1,
  classify-detail_2, classify-detail_3, classify-events, classify-delay, classify-timeout,
  classify-pre, classify-post, classify-table, classify-separator, classify-output,
  classify-verbose, classify-metrics, classify-topdown, classify-no_inherit, classify-no_scale,
  classify-all_kernel, classify-pinned,
}
use bbench.Cli.Argv.CommandLine.{
  flagged, valued, detail_flag, separated, with_runs, with_detail, with_delay, with_events,
  with_pre, with_post, with_table, with_output, with_verbose, with_metrics, with_topdown,
  with_inherit, with_scale, with_kernel, with_pinned, command_line,
}

not-not : (b : Bool) → not (not b) ≡ b
not-not true = refl
not-not false = refl

check_paths_nonempty : (ps : List CString) (o : CliOpts) → ps ≢ [] → check_paths ps o ≡ accepted o
check_paths_nonempty [] o h = absurd (h refl)
check_paths_nonempty (p ∷ ps) o h = refl

module _ ⦃m : Micron⦄ where
  flagged_lem :
      (name : CString) (x : Bool) (rest : List CString) (f : Bool → CliOpts)
      → ((next : Option CString) → apply_flag (classify name) name next (f false) ≡ one (f true))
      → parse_loop (flagged x name rest) (f false) ≡ parse_loop rest (f x)
  flagged_lem name true rest f h = parse_loop-one name rest (f false) (f true) h
  flagged_lem name false rest f h = refl

  valued_lem :
      (name : CString) (x : Option CString) (rest : List CString) (f : Option CString → CliOpts)
      → ((v : CString) → apply_flag (classify name) name (some v) (f none) ≡ two (f (some v)))
      → parse_loop (valued x name rest) (f none) ≡ parse_loop rest (f x)
  valued_lem name (some v) rest f h = parse_loop-two name v rest (f none) (f (some v)) (h v)
  valued_lem name none rest f h = refl

  separated_lem :
      (c : ℕ) (rest : List CString) (o : CliOpts)
      → parse_loop (separated c rest) (record o { csv_sep = 0 })
        ≡ parse_loop rest (record o { csv_sep = c })
  unfolding apply_flag
  separated_lem zero rest o = refl
  separated_lem (suc c) rest o =
      parse_loop-two (codes "-x") (suc c ∷ []) rest _ _ (rw classify-separator)

  detail_lem :
      (d : ℕ) (rest : List CString) (o : CliOpts)
      → (1 ≤ d) × (d ≤ 3)
      → parse_loop (detail_flag d ∷ rest) o
        ≡ parse_loop rest (set_bench (record (o.bench_opts) { detail = d }) o)
  unfolding apply_flag
  detail_lem zero rest o h = absurd (omega arith)
  detail_lem (suc zero) rest o h = parse_loop-one _ rest _ _ (λ next. rw classify-detail_1)
  detail_lem (suc (suc zero)) rest o h = parse_loop-one _ rest _ _ (λ next. rw classify-detail_2)
  detail_lem (suc (suc (suc zero))) rest o h =
      parse_loop-one _ rest _ _ (λ next. rw classify-detail_3)
  detail_lem (suc (suc (suc (suc d)))) rest o h = absurd (omega arith)

  paths_lem :
      (ps : List CString) (o : CliOpts)
      → All (λ p. is_dashed p ≡ false) ps
      → parse_loop ps o ≡ check_paths (o.paths ++ ps) (record o { paths = o.paths ++ ps })
  unfolding parse_loop apply_flag
  paths_lem [] o h = rw append-nil
  paths_lem (p ∷ ps) o h =
      parse_loop-one p ps o (record o { paths = o.paths ++ p ∷ [] })
        (λ next. rw (classify_plain p h.0))
      ∙ paths_lem ps (record o { paths = o.paths ++ p ∷ [] }) h.1
      ∙ rw (append_assoc o.paths (p ∷ []) ps)

  runs_lem :
      (n : ℕ) (rest : List CString) (o : CliOpts)
      → 0 < n
      → n < i64_limit
      → parse_loop (codes "-n" ∷ show n ∷ rest) o ≡ parse_loop rest (record o { n_runs = n })
  unfolding apply_flag with_int residue
  runs_lem zero rest o h k = absurd (omega arith)
  runs_lem (suc n) rest o h k =
      let fits : suc n % 2 ^ 64 ≡ suc n = omega arith in
      parse_loop-two _ _ rest _ _ (rw (classify-runs, parse_int-show (suc n) k, fits))

  delay_lem :
      (n : ℕ) (rest : List CString) (o : CliOpts)
      → n < 2 ^ 32
      → parse_loop (codes "-D" ∷ show n ∷ rest) o
        ≡ parse_loop rest (set_bench (record (o.bench_opts) { delay_ms = n }) o)
  unfolding apply_flag with_int residue
  delay_lem n rest o h =
      let fits : n % 2 ^ 32 ≡ n = omega arith in
      parse_loop-two _ _ rest _ _ (rw (classify-delay, parse_int-show n (omega arith), fits))

  timeout_lem :
      (n : ℕ) (rest : List CString) (o : CliOpts)
      → n < 2 ^ 32
      → parse_loop (codes "--timeout" ∷ show n ∷ rest) o
        ≡ parse_loop rest (set_bench (record (o.bench_opts) { timeout_ms = n }) o)
  unfolding apply_flag with_int residue
  timeout_lem n rest o h =
      let fits : n % 2 ^ 32 ≡ n = omega arith in
      parse_loop-two _ _ rest _ _ (rw (classify-timeout, parse_int-show n (omega arith), fits))

  -- Every sane set of options with a run count below 2^63 and a binary to run has a command line
  -- that `parse_argv` reads back to exactly those options.
  pub parse_argv-command_line :
      (o : CliOpts)
      → IsSane o
      → o.n_runs < i64_limit
      → o.paths ≢ []
      → parse_argv (command_line o) ≡ accepted o
  unfolding parse_argv command_line apply_flag
  parse_argv-command_line o h k ne =
      runs_lem o.n_runs _ default_cli_opts h.some_run k
      ∙ detail_lem b.detail _ (with_runs o o.n_runs) h.detail_range
      ∙ delay_lem b.delay_ms _ (with_detail o b.detail) h.delay_range
      ∙ timeout_lem b.timeout_ms _ (with_delay o b.delay_ms) h.timeout_range
      ∙ valued_lem _ b.event_csv _ (with_events o) (λ v. rw classify-events)
      ∙ valued_lem _ b.pre _ (with_pre o) (λ v. rw classify-pre)
      ∙ valued_lem _ b.post _ (with_post o) (λ v. rw classify-post)
      ∙ flagged_lem _ o.table _ (with_table o) (λ next. rw classify-table)
      ∙ separated_lem o.csv_sep _ (with_table o o.table)
      ∙ valued_lem _ o.output_file _ (with_output o) (λ v. rw classify-output)
      ∙ flagged_lem _ o.verbose _ (with_verbose o) (λ next. rw classify-verbose)
      ∙ valued_lem _ o.metrics_csv _ (with_metrics o) (λ v. rw classify-metrics)
      ∙ flagged_lem _ o.topdown_only _ (with_topdown o) (λ next. rw classify-topdown)
      ∙ flagged_lem _ (not b.inherit) _ (with_inherit o) (λ next. rw classify-no_inherit)
      ∙ flagged_lem _ (not b.scale) _ (with_scale o) (λ next. rw classify-no_scale)
      ∙ flagged_lem _ (not b.excl_kernel) _ (with_kernel o) (λ next. rw classify-all_kernel)
      ∙ flagged_lem _ b.pinned _ (with_pinned o) (λ next. rw classify-pinned)
      ∙ paths_lem o.paths (with_pinned o b.pinned) h.plain_paths
      ∙ rw (not-not b.inherit, not-not b.scale, not-not b.excl_kernel, ← h.one_land)
          (check_paths_nonempty o.paths o ne)
    where
      open o use {bench_opts as b}
