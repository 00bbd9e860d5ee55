-- ===== src/Cli/Argv/Classify.antt =====
-- One round of the loop of `parse_argv` for each flag, and which branch takes it.
use bbench.Base.{
  ◌≡◌, refl, ap, inl, inr, true, false, List, [], ◌∷◌, Option, none, some, Bool-cases,
}
use bbench.Base.Text.{CString, Micron, codes, same, same_iff, same-equal_bytes}
use bbench.Cli.Options.{CliOpts}
use bbench.Cli.Argv.{
  one, two, runs, detail_1, detail_2, detail_3, events, delay, timeout, pre, post, table, separator,
  output, verbose, metrics, topdown, no_inherit, no_scale, all_kernel, pinned, path, is_dashed,
  classify, apply_flag, parse_loop,
}

module _ ⦃m : Micron⦄ where
  -- A branch that takes the flag alone.
  pub parse_loop-one :
      (a : CString) (rest : List CString) (o o' : CliOpts)
      → ((next : Option CString) → apply_flag (classify a) a next o ≡ one o')
      → parse_loop (a ∷ rest) o ≡ parse_loop rest o'
  unfolding parse_loop
  parse_loop-one a [] o o' h = rw (h none)
  parse_loop-one a (v ∷ rest) o o' h = rw (h (some v))

  -- A branch that takes the flag and its value.
  pub parse_loop-two :
      (a v : CString) (rest : List CString) (o o' : CliOpts)
      → apply_flag (classify a) a (some v) o ≡ two o'
      → parse_loop (a ∷ v ∷ rest) o ≡ parse_loop rest o'
  unfolding parse_loop
  parse_loop-two a v rest o o' h = rw h

  pub classify-runs : classify (codes "-n") ≡ runs
  unfolding classify
  classify-runs = simp same-equal_bytes

  pub classify-detail_1 : classify (codes "-d") ≡ detail_1
  unfolding classify
  classify-detail_1 = simp same-equal_bytes

  pub classify-detail_2 : classify (codes "-dd") ≡ detail_2
  unfolding classify
  classify-detail_2 = simp same-equal_bytes

  pub classify-detail_3 : classify (codes "-ddd") ≡ detail_3
  unfolding classify
  classify-detail_3 = simp same-equal_bytes

  pub classify-events : classify (codes "-e") ≡ events
  unfolding classify
  classify-events = simp same-equal_bytes

  pub classify-delay : classify (codes "-D") ≡ delay
  unfolding classify
  classify-delay = simp same-equal_bytes

  pub classify-timeout : classify (codes "--timeout") ≡ timeout
  unfolding classify
  classify-timeout = simp same-equal_bytes

  pub classify-pre : classify (codes "--pre") ≡ pre
  unfolding classify
  classify-pre = simp same-equal_bytes

  pub classify-post : classify (codes "--post") ≡ post
  unfolding classify
  classify-post = simp same-equal_bytes

  pub classify-table : classify (codes "--table") ≡ table
  unfolding classify
  classify-table = simp same-equal_bytes

  pub classify-separator : classify (codes "-x") ≡ separator
  unfolding classify
  classify-separator = simp same-equal_bytes

  pub classify-output : classify (codes "-o") ≡ output
  unfolding classify
  classify-output = simp same-equal_bytes

  pub classify-verbose : classify (codes "-v") ≡ verbose
  unfolding classify
  classify-verbose = simp same-equal_bytes

  pub classify-metrics : classify (codes "-M") ≡ metrics
  unfolding classify
  classify-metrics = simp same-equal_bytes

  pub classify-topdown : classify (codes "--topdown") ≡ topdown
  unfolding classify
  classify-topdown = simp same-equal_bytes

  pub classify-no_inherit : classify (codes "--no-inherit") ≡ no_inherit
  unfolding classify
  classify-no_inherit = simp same-equal_bytes

  pub classify-no_scale : classify (codes "--no-scale") ≡ no_scale
  unfolding classify
  classify-no_scale = simp same-equal_bytes

  pub classify-all_kernel : classify (codes "--all-kernel") ≡ all_kernel
  unfolding classify
  classify-all_kernel = simp same-equal_bytes

  pub classify-pinned : classify (codes "--pinned") ≡ pinned
  unfolding classify
  classify-pinned = simp same-equal_bytes

  not_flag : (a b : CString) → is_dashed a ≡ false → is_dashed b ≡ true → same a b ≡ false
  not_flag a b h k = elim (Bool-cases (same a b)) [
    | inl e ↦ let e' : a ≡ b = (same_iff a b).0 e in cc (ap is_dashed e')
    | inr e ↦ e
  ]

  -- What does not look like a flag is a path.
  pub classify_plain : (a : CString) → is_dashed a ≡ false → classify a ≡ path
  unfolding classify
  classify_plain a h = rw (
    not_flag a (codes "-n") h refl,
    not_flag a (codes "-r") h refl,
    not_flag a (codes "-d") h refl,
    not_flag a (codes "-dd") h refl,
    not_flag a (codes "-ddd") h refl,
    not_flag a (codes "-e") h refl,
    not_flag a (codes "-D") h refl,
    not_flag a (codes "--timeout") h refl,
    not_flag a (codes "--pre") h refl,
    not_flag a (codes "--post") h refl,
    not_flag a (codes "--table") h refl,
    not_flag a (codes "-x") h refl,
    not_flag a (codes "-o") h refl,
    not_flag a (codes "-v") h refl,
    not_flag a (codes "--verbose") h refl,
    not_flag a (codes "-M") h refl,
    not_flag a (codes "--topdown") h refl,
    not_flag a (codes "--no-inherit") h refl,
    not_flag a (codes "--no-scale") h refl,
    not_flag a (codes "--all-user") h refl,
    not_flag a (codes "--all-kernel") h refl,
    not_flag a (codes "--pinned") h refl,
    not_flag a (codes "-h") h refl,
    not_flag a (codes "--help") h refl,
    h,
  )
