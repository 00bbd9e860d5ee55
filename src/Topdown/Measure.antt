-- ===== src/Topdown/Measure.antt =====
-- `supported` and `measure_bin` of src/topdown.hpp.
pub mod Balance
pub mod Descriptors
use bbench.Base.{ℕ, Bool, true, false, List, [], ◌∷◌, not, ◌==◌, if◌then◌else◌}
use bbench.Base.Int.{ℤ, pos, negsuc, ◌==ℤ◌}
use bbench.Base.Float.{Float}
use bbench.Base.Text.{CString}
use bbench.Perf.Abi.{PerfAbi}
use bbench.Perf.Sys.{PerfEventAttr, Os, World, waitpid, syscall}
use bbench.Perf.KernelClock.{close_if_open}
use bbench.Cli.Options.{BenchmarkOpts}
use bbench.Process.{Outcome, ok}
use bbench.Topdown.{TdEvent, fresh_td, td_configure, td_open_pid, td_end, retrieve_scaled}
use bbench.Bench.Run.{and_then, guarded, run_command, attached}

-- `TD_SLOTS` and the events that it divides.
abbrev pub td_slots : ℕ
td_slots = 1024

abbrev pub td_retiring : ℕ
td_retiring = 32768

abbrev pub td_bad_spec : ℕ
td_bad_spec = 33024

abbrev pub td_fe_bound : ℕ
td_fe_bound = 33280

abbrev pub td_be_bound : ℕ
td_be_bound = 33536

-- `topdown_t`
pub record TopdownResult (fl : Float) : Type 0 where
  pub frontend : fl.Double
  pub backend : fl.Double
  pub bad_spec : fl.Double
  pub retiring : fl.Double
  pub supported : Bool

abbrev pub no_topdown : (fl : Float) → TopdownResult fl
no_topdown fl = record {
  frontend = fl.of_ℕ 0;
  backend = fl.of_ℕ 0;
  bad_spec = fl.of_ℕ 0;
  retiring = fl.of_ℕ 0;
  supported = false;
}

-- The five events of `measure_bin`.
pub record TdGroup : Type 0 where
  pub slots : TdEvent
  pub retiring : TdEvent
  pub bad_spec : TdEvent
  pub fe_bound : TdEvent
  pub be_bound : TdEvent

-- An event behind `configure` and the assignment to `enable_on_exec`.
unfoldable pub on_exec_event : PerfAbi → Bool → ℕ → TdEvent
on_exec_event abi excl_kernel config =
    let e = td_configure abi config excl_kernel fresh_td in
    record e { attr = record (e.attr) { enable_on_exec = true } }

unfoldable pub td_group : PerfAbi → Bool → TdGroup
td_group abi excl_kernel = record {
  slots = on_exec_event abi excl_kernel td_slots;
  retiring = on_exec_event abi excl_kernel td_retiring;
  bad_spec = on_exec_event abi excl_kernel td_bad_spec;
  fe_bound = on_exec_event abi excl_kernel td_fe_bound;
  be_bound = on_exec_event abi excl_kernel td_be_bound;
}

module _ (os : Os) where
  -- The destructor of `__td_event`.
  unfoldable pub td_destroy : TdEvent → World → World
  td_destroy e w = close_if_open os e.e_fd w

  -- `supported()`, with its static variable: -1 for unknown, 0 for no, 1 for yes.
  unfoldable pub supported : PerfAbi → ℤ → World → Bool × ℤ × World
  supported abi cached w =
      let probe = td_configure abi td_slots true fresh_td in
      let (r, opened, w1) = td_open_pid os (pos 0) probe w in
      let w2 = td_destroy opened w1 in
      if not (cached ==ℤ negsuc 0)
      then (cached ==ℤ pos 1, cached, w)
      else if not (r ==ℤ negsuc 0)
      then (true, pos 1, w2)
      else (false, pos 0, w2)

  -- The function that `process_attach` is given.
  unfoldable pub open_five : ℤ → TdGroup → World → TdGroup × World
  open_five pid g w =
      let (_, s, w1) = td_open_pid os pid g.slots w in
      let (_, r, w2) = td_open_pid os pid g.retiring w1 in
      let (_, b, w3) = td_open_pid os pid g.bad_spec w2 in
      let (_, f, w4) = td_open_pid os pid g.fe_bound w3 in
      let (_, k, w5) = td_open_pid os pid g.be_bound w4 in
      (record { slots = s; retiring = r; bad_spec = b; fe_bound = f; be_bound = k }, w5)

  -- The destructors, in the opposite order of the declarations.
  unfoldable pub destroy_five : TdGroup → World → World
  destroy_five g w = td_destroy g.slots (
      td_destroy g.retiring
        (td_destroy g.bad_spec (td_destroy g.fe_bound (td_destroy g.be_bound w))))

  unfoldable pub end_five : TdGroup → World → World
  end_five g w =
      td_end os g.be_bound
        (td_end os g.fe_bound (td_end os g.bad_spec (td_end os g.retiring (td_end os g.slots w))))

module _ (fl : Float) (os : Os) (abi : PerfAbi) where
  open fl use {of_ℤ, div}

  -- From the read of the slots to the end.
  unfoldable pub read_fractions : TdGroup → World → TopdownResult fl × World
  read_fractions g w =
      let (s, w1) = retrieve_scaled fl os g.slots w in
      let (r, w2) = retrieve_scaled fl os g.retiring w1 in
      let (b, w3) = retrieve_scaled fl os g.bad_spec w2 in
      let (f, w4) = retrieve_scaled fl os g.fe_bound w3 in
      let (k, w5) = retrieve_scaled fl os g.be_bound w4 in
      if s ==ℤ pos 0 then (no_topdown fl, w1) else (
        record {
          retiring = div (of_ℤ r) (of_ℤ s);
          bad_spec = div (of_ℤ b) (of_ℤ s);
          frontend = div (of_ℤ f) (of_ℤ s);
          backend = div (of_ℤ k) (of_ℤ s);
          supported = true;
        },
        w5,
      )

  -- What follows `process_attach` in the parent.
  unfoldable pub measure_run :
      BenchmarkOpts → ℤ → TdGroup → World → Outcome (TopdownResult fl) × World
  measure_run opts pid g w =
      let w1 = end_five os g (syscall os (waitpid pid false) w).1 in
      and_then (run_command os opts.post w1) λ _ w2. let (t, w3) = read_fractions g w2 in (ok t, w3)

  -- `measure_bin(path, opts)` behind the test of `supported`.
  unfoldable pub measure_supported :
      CString → BenchmarkOpts → World → Outcome (TopdownResult fl) × World
  measure_supported path opts w =
      let g = td_group abi opts.excl_kernel in
      guarded (destroy_five os g) (run_command os opts.pre w)
        λ _ w1. attached os (open_five os) (destroy_five os) (measure_run opts) path g w1

  -- `measure_bin(path, opts)`: the static variable of `supported`, and the outcome.
  unfoldable pub measure_bin :
      CString → BenchmarkOpts → ℤ → World → ℤ × (Outcome (TopdownResult fl) × World)
  measure_bin path opts cached w =
      let (answer, cached', w1) = supported os abi cached w in
      (cached', if not answer then (ok (no_topdown fl), w1) else measure_supported path opts w1)
