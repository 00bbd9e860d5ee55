-- ===== src/Cli/Argv/CommandLine.antt =====
-- A command line for given options, and the options behind each of its parts.
use bbench.Base.{ℕ, zero, suc, Bool, not, List, [], ◌∷◌, Option, none, some, ◌==◌, if◌then◌else◌}
use bbench.Base.Text.{CString, codes}
use bbench.Cli.Options.{CliOpts, default_cli_opts}
use bbench.Cli.Argv.Show.{show}
use bbench.Cli.Argv.{set_bench}

abbrev pub flagged : Bool → CString → List CString → List CString
flagged b name rest = if b then name ∷ rest else rest

abbrev pub valued : Option CString → CString → List CString → List CString
valued none name rest = rest
valued (some v) name rest = name ∷ v ∷ rest

abbrev pub detail_flag : ℕ → CString
detail_flag d = if d == 1 then codes "-d" else if d == 2 then codes "-dd" else codes "-ddd"

abbrev pub separated : ℕ → List CString → List CString
separated zero rest = rest
separated (suc c) rest = codes "-x" ∷ (suc c ∷ []) ∷ rest

-- A command line for the options `o`: every field in turn, the binaries last.
unfoldable pub command_line : CliOpts → List CString
command_line o =
    codes "-n"
    ∷ show o.n_runs
    ∷ detail_flag b.detail
    ∷ codes "-D"
    ∷ show b.delay_ms
    ∷ codes "--timeout"
    ∷ show b.timeout_ms
    ∷ valued b.event_csv (codes "-e") (
        valued b.pre (codes "--pre") (
          valued b.post (codes "--post") (
            flagged o.table (codes "--table") (
              separated o.csv_sep (
                valued o.output_file (codes "-o") (
                  flagged o.verbose (codes "-v") (
                    valued o.metrics_csv (codes "-M") (
                      flagged o.topdown_only (codes "--topdown") (
                        flagged (not b.inherit) (codes "--no-inherit") (
                          flagged (not b.scale) (codes "--no-scale") (
                            flagged (not b.excl_kernel) (codes "--all-kernel")
                              (flagged b.pinned (codes "--pinned") o.paths))))))))))))
  where
    open o use {bench_opts as b}

-- The options with the fields that the command line has set so far.
module _ (o : CliOpts) where
  open o use {bench_opts as b}

  abbrev pub with_runs : ℕ → CliOpts
  with_runs n = record default_cli_opts { n_runs = n }

  abbrev pub with_detail : ℕ → CliOpts
  with_detail x =
      let t : CliOpts = with_runs o.n_runs in set_bench (record (t.bench_opts) { detail = x }) t

  abbrev pub with_delay : ℕ → CliOpts
  with_delay x =
      let t : CliOpts = with_detail b.detail in set_bench (record (t.bench_opts) { delay_ms = x }) t

  abbrev pub with_timeout : ℕ → CliOpts
  with_timeout x =
      let t : CliOpts = with_delay b.delay_ms in
      set_bench (record (t.bench_opts) { timeout_ms = x }) t

  abbrev pub with_events : Option CString → CliOpts
  with_events x =
      let t : CliOpts = with_timeout b.timeout_ms in
      set_bench (record (t.bench_opts) { event_csv = x }) t

  abbrev pub with_pre : Option CString → CliOpts
  with_pre x =
      let t : CliOpts = with_events b.event_csv in set_bench (record (t.bench_opts) { pre = x }) t

  abbrev pub with_post : Option CString → CliOpts
  with_post x = let t : CliOpts = with_pre b.pre in set_bench (record (t.bench_opts) { post = x }) t

  abbrev pub with_table : Bool → CliOpts
  with_table x = record (with_post b.post) { table = x }

  abbrev pub with_separator : ℕ → CliOpts
  with_separator x = record (with_table o.table) { csv_sep = x }

  abbrev pub with_output : Option CString → CliOpts
  with_output x = record (with_separator o.csv_sep) { output_file = x }

  abbrev pub with_verbose : Bool → CliOpts
  with_verbose x = record (with_output o.output_file) { verbose = x }

  abbrev pub with_metrics : Option CString → CliOpts
  with_metrics x = record (with_verbose o.verbose) { metrics_csv = x }

  abbrev pub with_topdown : Bool → CliOpts
  with_topdown x = record (with_metrics o.metrics_csv) { topdown_only = x }

  abbrev pub with_inherit : Bool → CliOpts
  with_inherit x =
      let t : CliOpts = with_topdown o.topdown_only in
      set_bench (record (t.bench_opts) { inherit = not x }) t

  abbrev pub with_scale : Bool → CliOpts
  with_scale x =
      let t : CliOpts = with_inherit (not b.inherit) in
      set_bench (record (t.bench_opts) { scale = not x }) t

  abbrev pub with_kernel : Bool → CliOpts
  with_kernel x =
      let t : CliOpts = with_scale (not b.scale) in
      set_bench (record (t.bench_opts) { excl_kernel = not x; excl_user = x }) t

  abbrev pub with_pinned : Bool → CliOpts
  with_pinned x =
      let t : CliOpts = with_kernel (not b.excl_kernel) in
      set_bench (record (t.bench_opts) { pinned = x }) t
