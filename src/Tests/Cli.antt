-- ===== src/Tests/Cli.antt =====
-- Command lines of bbench and numbers.
use bbench.Base.{◌≡◌, refl, ◌≢◌, true, false, List, [], ◌∷◌, arith}
use bbench.Base.Int.{pos, negsuc, residue}
use bbench.Base.Text.{CString, codes, plain_strings, same}
use bbench.Cli.Number.{
  refused, value, overflow, parse_int, parse_int_btime, skip_spaces, read_sign, read_digits,
  digit_loop, is_digit,
}
use bbench.Cli.Options.{CliOpts, default_cli_opts, default_bench_opts}
use bbench.Cli.Argv.{
  accepted, rejected, needs_value, unknown_flag, usage, parse_argv, parse_loop, classify,
  apply_flag, with_int,
}
use bbench.Cli.Argv.Valid.{IsSane, parse_argv-IsSane}
use bbench.Cli.Argv.CommandLine.{command_line}
use bbench.Cli.Argv.RoundTrip.{parse_argv-command_line}

abbrev args : List CString
args = codes "-n" ∷ codes "5" ∷ codes "-dd" ∷ codes "--all-kernel" ∷ codes "ls" ∷ []

abbrev options : CliOpts
options = record default_cli_opts {
  n_runs = 5;
  bench_opts = record default_bench_opts { detail = 2; excl_kernel = false; excl_user = true };
  paths = codes "ls" ∷ [];
}

numbers :
    (parse_int (codes "  -42x") ≡ value (negsuc 41))
    × (parse_int (codes "+") ≡ refused)
    × (parse_int_btime (codes " 1") ≡ refused)
    × (parse_int (codes "9223372036854775807") ≡ value (pos 9223372036854775807))
    × (parse_int (codes "9223372036854775808") ≡ overflow)
unfolding parse_int parse_int_btime skip_spaces read_sign read_digits digit_loop is_digit
numbers = (refl, refl, refl, refl, refl)

parse_args : parse_argv args ≡ accepted options
unfolding parse_argv parse_loop classify apply_flag with_int same parse_int skip_spaces read_sign
    read_digits digit_loop is_digit residue
parse_args = refl

refusals :
    (parse_argv (codes "ls" ∷ codes "-D" ∷ []) ≡ rejected (needs_value (codes "-D")))
    × (parse_argv (codes "-q" ∷ []) ≡ rejected (unknown_flag (codes "-q")))
    × (parse_argv (codes "--table" ∷ []) ≡ rejected usage)
unfolding parse_argv parse_loop classify apply_flag with_int same
refusals = (refl, refl, refl)

options-IsSane : IsSane options
unfolding is_digit
options-IsSane = ground arith

parse_argv-command_line_example : parse_argv (command_line options) ≡ accepted options
parse_argv-command_line_example =
    parse_argv-command_line options options-IsSane (omega arith) (λ e. cc)

parse_argv-IsSane_example : IsSane options × (options.paths ≢ [])
parse_argv-IsSane_example = parse_argv-IsSane args parse_args
