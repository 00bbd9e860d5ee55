-- ===== src/Cli/Options.antt =====
-- `benchmark_opts` of src/options.hpp and `cli_opts` of tools/bbench.cpp.
use bbench.Base.{ℕ, Bool, true, false, Option, none, List, []}
use bbench.Base.Text.{CString}

pub record BenchmarkOpts : Type 0 where
  pub detail : ℕ
  pub delay_ms : ℕ
  pub timeout_ms : ℕ
  pub inherit : Bool
  pub scale : Bool
  pub pinned : Bool
  pub excl_kernel : Bool
  pub excl_user : Bool
  pub event_csv : Option CString
  pub pre : Option CString
  pub post : Option CString

abbrev pub default_bench_opts : BenchmarkOpts
default_bench_opts = record {
  detail = 1;
  delay_ms = 0;
  timeout_ms = 0;
  inherit = true;
  scale = true;
  pinned = false;
  excl_kernel = true;
  excl_user = false;
  event_csv = none;
  pre = none;
  post = none;
}

-- A null pointer is `none`; `csv_sep` is 0 for the human format.
pub record CliOpts : Type 0 where
  pub bench_opts : BenchmarkOpts
  pub n_runs : ℕ
  pub verbose : Bool
  pub table : Bool
  pub topdown_only : Bool
  pub csv_sep : ℕ
  pub output_file : Option CString
  pub metrics_csv : Option CString
  pub paths : List CString

abbrev pub default_cli_opts : CliOpts
default_cli_opts = record {
  bench_opts = default_bench_opts;
  n_runs = 1;
  verbose = false;
  table = false;
  topdown_only = false;
  csv_sep = 0;
  output_file = none;
  metrics_csv = none;
  paths = [];
}
