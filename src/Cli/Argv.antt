-- ===== src/Cli/Argv.antt =====
-- `parse_argv` of tools/bbench.cpp, over `argv[1] … argv[argc - 1]`.
pub mod Valid
pub mod Show
pub mod Classify
pub mod CommandLine
pub mod RoundTrip
use bbench.Base.{
  ℕ, zero, suc, Bool, true, false, not, ◌&&◌, ◌||◌, List, [], ◌∷◌, ◌++◌, Option, none, some, ◌==◌,
  if◌then◌else◌,
}
use bbench.Base.Int.{ℤ, pos, negsuc, to_u32, to_u64}
use bbench.Base.Text.{CString, Micron, codes, same}
use bbench.Cli.Number.{IntResult, refused, value, overflow, parse_int}
use bbench.Cli.Options.{BenchmarkOpts, CliOpts, default_cli_opts}

-- Why `parse_argv` returns false, which is also what it has printed by then.
pub data Refusal : Type 0 where
  needs_value : CString → Refusal
  needs_integer : CString → Refusal
  out_of_range : Refusal
  unknown_flag : CString → Refusal
  usage : Refusal
  overflowed : Refusal

-- One round of the loop: `return false`, or the options behind it and how many arguments it took.
pub data Step : Type 0 where
  refuse : Refusal → Step
  one : CliOpts → Step
  two : CliOpts → Step

pub data Parsed : Type 0 where
  accepted : CliOpts → Parsed
  rejected : Refusal → Parsed

-- The branches of the chain of tests, in its order.
pub data Flag : Type 0 where
  runs detail_1 detail_2 detail_3 events delay timeout pre post table : Flag
  separator output verbose metrics topdown no_inherit no_scale : Flag
  all_user all_kernel pinned help unknown path : Flag

-- `a[0] == '-' && a[1] != '\0'`
abbrev pub is_dashed : CString → Bool
is_dashed [] = false
is_dashed (c ∷ []) = false
is_dashed (c ∷ _ ∷ _) = c == b'-'

module _ ⦃m : Micron⦄ where
  unfoldable pub classify : CString → Flag
  classify a =
      if same a (codes "-n") || same a (codes "-r")
      then runs
      else if same a (codes "-d")
      then detail_1
      else if same a (codes "-dd")
      then detail_2
      else if same a (codes "-ddd")
      then detail_3
      else if same a (codes "-e")
      then events
      else if same a (codes "-D")
      then delay
      else if same a (codes "--timeout")
      then timeout
      else if same a (codes "--pre")
      then pre
      else if same a (codes "--post")
      then post
      else if same a (codes "--table")
      then table
      else if same a (codes "-x")
      then separator
      else if same a (codes "-o")
      then output
      else if same a (codes "-v") || same a (codes "--verbose")
      then verbose
      else if same a (codes "-M")
      then metrics
      else if same a (codes "--topdown")
      then topdown
      else if same a (codes "--no-inherit")
      then no_inherit
      else if same a (codes "--no-scale")
      then no_scale
      else if same a (codes "--all-user")
      then all_user
      else if same a (codes "--all-kernel")
      then all_kernel
      else if same a (codes "--pinned")
      then pinned
      else if same a (codes "-h") || same a (codes "--help")
      then help
      else if is_dashed a
      then unknown
      else path

-- `need_value(a, dst)`, and what follows it with the value.
abbrev pub with_value : CString → Option CString → (CString → Step) → Step
with_value a none k = refuse (needs_value a)
with_value a (some v) k = k v

abbrev pub on_int : CString → IntResult → (ℤ → Step) → Step
on_int a refused k = refuse (needs_integer a)
on_int a (value v) k = k v
on_int a overflow k = refuse overflowed

-- `need_int(a, v)`, and what follows it with the number.
unfoldable pub with_int : CString → Option CString → (ℤ → Step) → Step
with_int a next k = with_value a next (λ v. on_int a (parse_int v) k)

-- `v < 1` and `v < 0`
abbrev pub below_one : ℤ → Bool
below_one (pos zero) = true
below_one (pos (suc n)) = false
below_one (negsuc n) = true

abbrev pub below_zero : ℤ → Bool
below_zero (pos n) = false
below_zero (negsuc n) = true

-- `v[0] ? v[0] : ','`
abbrev pub separator_of : CString → ℕ
separator_of [] = b','
separator_of (c ∷ _) = c

abbrev pub set_bench : BenchmarkOpts → CliOpts → CliOpts
set_bench b o = record o { bench_opts = b }

-- The branch of a flag, on the argument `a`, the one behind it and the options so far.
unfoldable pub apply_flag : Flag → CString → Option CString → CliOpts → Step
apply_flag runs a next o =
    with_int a next
      λ v. if below_one v then refuse out_of_range else two (record o { n_runs = to_u64 v })
apply_flag detail_1 a next o = one (set_bench (record (o.bench_opts) { detail = 1 }) o)
apply_flag detail_2 a next o = one (set_bench (record (o.bench_opts) { detail = 2 }) o)
apply_flag detail_3 a next o = one (set_bench (record (o.bench_opts) { detail = 3 }) o)
apply_flag events a next o =
    with_value a next λ v. two (set_bench (record (o.bench_opts) { event_csv = some v }) o)
apply_flag delay a next o = with_int a next λ v.
    if below_zero v
    then refuse out_of_range
    else two (set_bench (record (o.bench_opts) { delay_ms = to_u32 v }) o)
apply_flag timeout a next o = with_int a next λ v.
    if below_zero v
    then refuse out_of_range
    else two (set_bench (record (o.bench_opts) { timeout_ms = to_u32 v }) o)
apply_flag pre a next o =
    with_value a next λ v. two (set_bench (record (o.bench_opts) { pre = some v }) o)
apply_flag post a next o =
    with_value a next λ v. two (set_bench (record (o.bench_opts) { post = some v }) o)
apply_flag table a next o = one (record o { table = true })
apply_flag separator a next o = with_value a next λ v. two (record o { csv_sep = separator_of v })
apply_flag output a next o = with_value a next λ v. two (record o { output_file = some v })
apply_flag verbose a next o = one (record o { verbose = true })
apply_flag metrics a next o = with_value a next λ v. two (record o { metrics_csv = some v })
apply_flag topdown a next o = one (record o { topdown_only = true })
apply_flag no_inherit a next o = one (set_bench (record (o.bench_opts) { inherit = false }) o)
apply_flag no_scale a next o = one (set_bench (record (o.bench_opts) { scale = false }) o)
apply_flag all_user a next o =
    one (set_bench (record (o.bench_opts) { excl_kernel = true; excl_user = false }) o)
apply_flag all_kernel a next o =
    one (set_bench (record (o.bench_opts) { excl_kernel = false; excl_user = true }) o)
apply_flag pinned a next o = one (set_bench (record (o.bench_opts) { pinned = true }) o)
apply_flag help a next o = refuse usage
apply_flag unknown a next o = refuse (unknown_flag a)
apply_flag path a next o = one (record o { paths = o.paths ++ a ∷ [] })

-- `if (out.paths.size() == 0)`, behind the loop.
abbrev pub check_paths : List CString → CliOpts → Parsed
check_paths [] o = rejected usage
check_paths (_ ∷ _) o = accepted o

-- `return false`, or the loop goes on behind the arguments that the round took.
abbrev pub after_step : Step → (CliOpts → Parsed) → (CliOpts → Parsed) → Parsed
after_step (refuse why) next skip = rejected why
after_step (one o) next skip = next o
after_step (two o) next skip = skip o

module _ ⦃m : Micron⦄ where
  unfoldable pub parse_loop : List CString → CliOpts → Parsed
  parse_loop [] o = check_paths o.paths o
  parse_loop (a ∷ []) o =
      after_step (apply_flag (classify a) a none o) (parse_loop []) (parse_loop [])
  parse_loop (a ∷ v ∷ rest) o =
      after_step (apply_flag (classify a) a (some v) o) (parse_loop (v ∷ rest)) (parse_loop rest)

  unfoldable pub parse_argv : List CString → Parsed
  parse_argv args = parse_loop args default_cli_opts
