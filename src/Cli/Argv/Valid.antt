-- ===== src/Cli/Argv/Valid.antt =====
-- What an accepted command line guarantees.
use bbench.Base.{
  zero, suc, ◌^◌, ◌≤◌, ◌<◌, ◌≡◌, ◌≢◌, refl, false, not, List, [], ◌∷◌, ◌++◌, Option, none, some,
  arith, All,
}
use bbench.Base.Int.{ℤ, pos, negsuc, to_u32, to_u64, residue}
use bbench.Base.Text.{CString, Micron}
use bbench.Cli.Number.{IntResult, refused, value, overflow, parse_int}
use bbench.Cli.Number.Range.{FitsI64, FitsResult, parse_int-FitsResult}
use bbench.Cli.Options.{CliOpts, default_cli_opts}
use bbench.Cli.Argv.{
  Step, refuse, one, two, Parsed, accepted, rejected, Flag, runs, delay, timeout, path, is_dashed,
  classify, on_int, with_int, apply_flag, below_one, check_paths, after_step, parse_loop,
  parse_argv,
}

-- The ranges of the fields, which the code relies on without testing them again.
pub record IsSane (o : CliOpts) : Type 0 where
  pub some_run : 0 < o.n_runs
  pub detail_range : (1 ≤ o.bench_opts.detail) × (o.bench_opts.detail ≤ 3)
  pub delay_range : o.bench_opts.delay_ms < 2 ^ 32
  pub timeout_range : o.bench_opts.timeout_ms < 2 ^ 32
  pub one_land : o.bench_opts.excl_user ≡ not o.bench_opts.excl_kernel
  pub plain_paths : All (λ p. is_dashed p ≡ false) o.paths

abbrev IsSaneStep : Step → Type 0
IsSaneStep (refuse _) = Unit
IsSaneStep (one o) = IsSane o
IsSaneStep (two o) = IsSane o

All-snoc :
    (ps : List CString) (a : CString)
    → All (λ p. is_dashed p ≡ false) ps
    → is_dashed a ≡ false
    → All (λ p. is_dashed p ≡ false) (ps ++ a ∷ [])
All-snoc [] a h k = (k, tt)
All-snoc (p ∷ ps) a h k = (h.0, All-snoc ps a h.1 k)

to_u32-lt : (z : ℤ) → to_u32 z < 2 ^ 32
unfolding residue
to_u32-lt (pos n) = omega arith
to_u32-lt (negsuc n) = omega arith

pub to_u64_pos : (z : ℤ) → FitsI64 z → below_one z ≡ false → 0 < to_u64 z
unfolding residue
to_u64_pos (pos zero) f h = cc
to_u64_pos (pos (suc n)) f h = omega arith
to_u64_pos (negsuc n) f h = cc

-- A step that needs an integer is sane if it is so for every integer that fits.
with_int-IsSaneStep :
    (a : CString) (next : Option CString) (k : ℤ → Step)
    → ((z : ℤ) → FitsI64 z → IsSaneStep (k z))
    → IsSaneStep (with_int a next k)
unfolding with_int
with_int-IsSaneStep a none k h = tt
with_int-IsSaneStep a (some v) k h = go (parse_int v) (parse_int-FitsResult v)
  where
    go : (r : IntResult) → FitsResult r → IsSaneStep (on_int a r k)
    go refused f = tt
    go (value z) f = h z f
    go overflow f = tt

apply_flag-IsSane :
    (f : Flag) (a : CString) (next : Option CString) (o : CliOpts)
    → (f ≡ path → is_dashed a ≡ false)
    → IsSane o
    → IsSaneStep (apply_flag f a next o)
unfolding apply_flag
apply_flag-IsSane runs a next o plain h =
    with_int-IsSaneStep a next _ λ z f. ground (arith, to_u64_pos z f)
apply_flag-IsSane delay a next o plain h =
    with_int-IsSaneStep a next _ λ z f. ground (arith, to_u32-lt z)
apply_flag-IsSane timeout a next o plain h =
    with_int-IsSaneStep a next _ λ z f. ground (arith, to_u32-lt z)
apply_flag-IsSane path a next o plain h =
    ground (arith, All-snoc o.paths a h.plain_paths (plain refl))
apply_flag-IsSane _ a next o plain h = ground arith

module _ ⦃m : Micron⦄ where
  -- The last branch takes only what does not look like a flag.
  classify-path : (a : CString) → classify a ≡ path → is_dashed a ≡ false
  unfolding classify
  classify-path a h = ground arith

  abbrev IsSaneParse : Parsed → Type 0
  IsSaneParse (rejected _) = Unit
  IsSaneParse (accepted o) = IsSane o × (o.paths ≢ [])

  check_paths-IsSane :
      (ps : List CString) (o : CliOpts) → ps ≡ o.paths → IsSane o → IsSaneParse (check_paths ps o)
  check_paths-IsSane [] o e h = tt
  check_paths-IsSane (p ∷ ps) o e h = (h, λ k. cc)

  after_step-IsSaneParse :
      (st : Step) (next skip : CliOpts → Parsed)
      → IsSaneStep st
      → ((o : CliOpts) → IsSane o → IsSaneParse (next o))
      → ((o : CliOpts) → IsSane o → IsSaneParse (skip o))
      → IsSaneParse (after_step st next skip)
  after_step-IsSaneParse (refuse why) next skip h n k = tt
  after_step-IsSaneParse (one o) next skip h n k = n o h
  after_step-IsSaneParse (two o) next skip h n k = k o h

  step-IsSane :
      (a : CString) (next : Option CString) (o : CliOpts)
      → IsSane o
      → IsSaneStep (apply_flag (classify a) a next o)
  step-IsSane a next o h = apply_flag-IsSane (classify a) a next o (classify-path a) h

  parse_loop-IsSane :
      (args : List CString) (o : CliOpts) → IsSane o → IsSaneParse (parse_loop args o)
  unfolding parse_loop
  parse_loop-IsSane [] o h = check_paths-IsSane o.paths o refl h
  parse_loop-IsSane (a ∷ []) o h =
      after_step-IsSaneParse (apply_flag (classify a) a none o) _ _ (step-IsSane a none o h)
        (λ o' h'. parse_loop-IsSane [] o' h') (λ o' h'. parse_loop-IsSane [] o' h')
  parse_loop-IsSane (a ∷ v ∷ rest) o h =
      after_step-IsSaneParse (apply_flag (classify a) a (some v) o) _ _ (step-IsSane a (some v) o h)
        (λ o' h'. parse_loop-IsSane (v ∷ rest) o' h') (λ o' h'. parse_loop-IsSane rest o' h')

  -- Whenever `parse_argv` accepts, at least one run and one binary are asked for, the detail level
  -- is 1, 2 or 3, the delays fit 32 bits, exactly one of kernel and user mode is excluded, and no
  -- binary's name looks like a flag.
  pub parse_argv-IsSane :
      (args : List CString) {o : CliOpts} → parse_argv args ≡ accepted o → IsSane o × (o.paths ≢ [])
  unfolding parse_argv
  parse_argv-IsSane args e = rw e at (parse_loop-IsSane args default_cli_opts (ground arith))
