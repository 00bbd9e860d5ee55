-- ===== src/Metrics.antt =====
-- src/metrics.hpp: the named metrics of a run.
pub mod Idle
use bbench.Base.{ℕ, Bool, true, false, List, [], ◌∷◌, Option, none, some, if◌then◌else◌}
use bbench.Base.Int.{ℤ, pos, ◌==ℤ◌}
use bbench.Base.Float.{Float}
use bbench.Base.Text.{CString, Micron, codes, same}
use bbench.Results.{Benchmark}

module _ (fl : Float) where
  open fl use {Double, of_ℕ, of_ℤ, mul, div}

  -- `__safe_div(num, den)`
  unfoldable pub safe_div : ℤ → ℤ → Double
  safe_div num den = if den ==ℤ pos 0 then of_ℕ 0 else div (of_ℤ num) (of_ℤ den)

  unfoldable pub ipc : Benchmark fl → Double
  ipc b = safe_div b.instructions b.cycles

  unfoldable pub cpi : Benchmark fl → Double
  cpi b = safe_div b.cycles b.instructions

  unfoldable pub branch_miss_rate : Benchmark fl → Double
  branch_miss_rate b = safe_div b.branch_misses b.total_branches

  unfoldable pub cache_miss_rate : Benchmark fl → Double
  cache_miss_rate b = safe_div b.cache_misses b.l1_cache

  unfoldable pub frontend_stall_rate : Benchmark fl → Double
  frontend_stall_rate b = safe_div b.stalled_front b.cycles

  unfoldable pub backend_stall_rate : Benchmark fl → Double
  backend_stall_rate b = safe_div b.stalled_back b.cycles

  unfoldable pub l1d_miss_rate : Benchmark fl → Double
  l1d_miss_rate b = safe_div b.l1d_miss b.l1_cache

  unfoldable pub l1i_miss_rate : Benchmark fl → Double
  l1i_miss_rate b = safe_div b.l1t_miss b.l1t_cache

  unfoldable pub llc_miss_rate : Benchmark fl → Double
  llc_miss_rate b = safe_div b.llcache_miss b.ll_cache

  unfoldable pub dtlb_miss_rate : Benchmark fl → Double
  dtlb_miss_rate b = safe_div b.dtlb_miss b.dtlb_access

  unfoldable pub itlb_miss_rate : Benchmark fl → Double
  itlb_miss_rate b = safe_div b.itlb_miss b.itlb_access

  -- The time is in microseconds.
  unfoldable pub ghz : Benchmark fl → Double
  ghz b = safe_div b.cycles (fl.to_i64 (mul b.time (of_ℕ 1000)))

  pub record NamedMetric : Type 0 where
    pub name : CString
    pub fn : Benchmark fl → Double

  unfoldable pub known_metrics : List NamedMetric
  known_metrics =
      record { name = codes "ipc"; fn = ipc }
      ∷ record { name = codes "cpi"; fn = cpi }
      ∷ record { name = codes "branch-miss-rate"; fn = branch_miss_rate }
      ∷ record { name = codes "cache-miss-rate"; fn = cache_miss_rate }
      ∷ record { name = codes "frontend-stall-rate"; fn = frontend_stall_rate }
      ∷ record { name = codes "backend-stall-rate"; fn = backend_stall_rate }
      ∷ record { name = codes "l1d-miss-rate"; fn = l1d_miss_rate }
      ∷ record { name = codes "l1i-miss-rate"; fn = l1i_miss_rate }
      ∷ record { name = codes "llc-miss-rate"; fn = llc_miss_rate }
      ∷ record { name = codes "dtlb-miss-rate"; fn = dtlb_miss_rate }
      ∷ record { name = codes "itlb-miss-rate"; fn = itlb_miss_rate }
      ∷ record { name = codes "ghz"; fn = ghz }
      ∷ []

  module _ ⦃m : Micron⦄ where
    -- The loop of `lookup_metric`.
    unfoldable pub find_metric : CString → List NamedMetric → Option NamedMetric
    find_metric name [] = none
    find_metric name (x ∷ xs) = if same x.name name then some x else find_metric name xs

    -- `lookup_metric`; `none` is the null pointer, as argument and as result.
    unfoldable pub lookup_metric : Option CString → Option NamedMetric
    lookup_metric none = none
    lookup_metric (some name) = find_metric name known_metrics
