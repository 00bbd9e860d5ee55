-- ===== src/Metrics/Idle.antt =====
-- Metrics of a run that counted nothing.
use mathlib.Core.Option.{some-injective}
use bbench.Base.{◌≡◌, List, [], ◌∷◌, some, All, Bool-cases, inl, inr}
use bbench.Base.Int.{ℤ, pos}
use bbench.Base.Float.{Float}
use bbench.Base.Text.{CString, Micron, same, same_iff}
use bbench.Results.{Benchmark}
use bbench.Metrics.{
  NamedMetric, known_metrics, find_metric, lookup_metric, safe_div, ipc, cpi, branch_miss_rate,
  cache_miss_rate, frontend_stall_rate, backend_stall_rate, l1d_miss_rate, l1i_miss_rate,
  llc_miss_rate, dtlb_miss_rate, itlb_miss_rate, ghz,
}

module _ (fl : Float) where
  open fl use {Double, of_ℕ, mul}

  -- Nothing that a metric divides by was counted.
  pub record IsIdle (b : Benchmark fl) : Type 0 where
    pub cycles : b.cycles ≡ pos 0
    pub instructions : b.instructions ≡ pos 0
    pub branches : b.total_branches ≡ pos 0
    pub l1d : b.l1_cache ≡ pos 0
    pub l1i : b.l1t_cache ≡ pos 0
    pub llc : b.ll_cache ≡ pos 0
    pub dtlb : b.dtlb_access ≡ pos 0
    pub itlb : b.itlb_access ≡ pos 0
    pub time : fl.to_i64 (mul b.time (of_ℕ 1000)) ≡ pos 0

  safe_div_zero : (num den : ℤ) → den ≡ pos 0 → safe_div fl num den ≡ of_ℕ 0
  unfolding safe_div
  safe_div_zero num den h = rw h

  known_metrics_idle : (b : Benchmark fl) → IsIdle b → All (λ m. m.fn b ≡ of_ℕ 0) (known_metrics fl)
  unfolding known_metrics ipc cpi branch_miss_rate cache_miss_rate frontend_stall_rate
      backend_stall_rate l1d_miss_rate l1i_miss_rate llc_miss_rate dtlb_miss_rate itlb_miss_rate ghz
  known_metrics_idle b h = (
    safe_div_zero _ _ h.cycles,
    (
      safe_div_zero _ _ h.instructions,
      (
        safe_div_zero _ _ h.branches,
        (
          safe_div_zero _ _ h.l1d,
          (
            safe_div_zero _ _ h.cycles,
            (
              safe_div_zero _ _ h.cycles,
              (
                safe_div_zero _ _ h.l1d,
                (
                  safe_div_zero _ _ h.l1i,
                  (
                    safe_div_zero _ _ h.llc,
                    (
                      safe_div_zero _ _ h.dtlb,
                      (safe_div_zero _ _ h.itlb, (safe_div_zero _ _ h.time, tt)),
                    ),
                  ),
                ),
              ),
            ),
          ),
        ),
      ),
    ),
  )

  module _ ⦃m : Micron⦄ where
    find_metric-All {κ} :
        (P : NamedMetric fl → Type κ) (name : CString) (xs : List (NamedMetric fl))
        (x : NamedMetric fl)
        → All P xs
        → find_metric fl name xs ≡ some x
        → P x × (x.name ≡ name)
    unfolding find_metric
    find_metric-All P name [] x h e = cc
    find_metric-All P name (y ∷ xs) x (p, h) e = elim (Bool-cases (same y.name name)) [
      | inl here ↦
          let q : y ≡ x = some-injective y x (rw here at e) in
          rw (← q) ((p, (same_iff y.name name).0 here))
      | inr more ↦ find_metric-All P name xs x h (rw more at e)
    ]

    -- Whatever metric a name finds bears that name, and is 0, not a quotient by 0, on every run that
    -- counted nothing of what the metrics divide by.
    pub lookup_metric-IsIdle :
        (name : CString) (x : NamedMetric fl) (b : Benchmark fl)
        → lookup_metric fl (some name) ≡ some x
        → IsIdle b
        → (x.fn b ≡ of_ℕ 0) × (x.name ≡ name)
    unfolding lookup_metric
    lookup_metric-IsIdle name x b e h =
        find_metric-All (λ m. m.fn b ≡ of_ℕ 0) name (known_metrics fl) x (known_metrics_idle b h) e
