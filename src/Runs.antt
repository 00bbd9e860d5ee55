-- ===== src/Runs.antt =====
-- tools/bbench.cpp: averages over the runs of a program, and the order of the programs.
pub mod Sorting
pub mod Means
use bbench.Base.{ℕ, zero, suc, ◌+◌, Bool, List, [], ◌∷◌, length, if◌then◌else◌}
use bbench.Base.Int.{ℤ, pos, ◌+ℤ◌, div_ℤ}
use bbench.Base.Float.{Float}
use bbench.Results.{Benchmark, empty_benchmark}

module _ {ℓ} {A : Type ℓ} (before : A → A → Bool) where
  -- The inner loop: `best` is the item at `mn`, `j` the index of the first item left.
  unfoldable pub min_from : A → ℕ → ℕ → List A → ℕ
  min_from best mn j [] = mn
  min_from best mn j (y ∷ ys) =
      let b = before y best in min_from (if b then y else best) (if b then j else mn) (j + 1) ys

-- Swaps the first item `x` with the one at `mn`, counted from `x`: the new first item, and the rest.
unfoldable pub swap_first {ℓ} : {A : Type ℓ} → ℕ → A → List A → A × List A
swap_first zero x ys = (x, ys)
swap_first (suc k) x [] = (x, [])
swap_first (suc zero) x (y ∷ ys) = (y, x ∷ ys)
swap_first (suc (suc k)) x (y ∷ ys) = let (m, ys') = swap_first (suc k) x ys in (m, y ∷ ys')

module _ {ℓ} {A : Type ℓ} (before : A → A → Bool) where
  -- The outer loop, on the items from the `i`-th on.
  unfoldable pub sort_loop : ℕ → List A → List A
  sort_loop zero xs = xs
  sort_loop (suc rounds) [] = []
  sort_loop (suc rounds) (x ∷ xs) =
      let (m, xs') = swap_first (min_from before x 0 1 xs) x xs in m ∷ sort_loop rounds xs'

module _ (fl : Float) where
  open fl use {Double, of_ℕ, add, div, less}

  -- The loop of `avg_int`; `long long` wraps.
  unfoldable pub sum_int : List (Benchmark fl) → (Benchmark fl → ℤ) → ℤ → ℤ
  sum_int [] f sum = sum
  sum_int (b ∷ v) f sum = sum_int v f (sum +ℤ f b)

  unfoldable pub avg_int : List (Benchmark fl) → (Benchmark fl → ℤ) → ℤ
  avg_int v f = div_ℤ (sum_int v f (pos 0)) (length v)

  unfoldable pub sum_double : List (Benchmark fl) → (Benchmark fl → Double) → Double → Double
  sum_double [] f sum = sum
  sum_double (b ∷ v) f sum = sum_double v f (add sum (f b))

  unfoldable pub avg_double : List (Benchmark fl) → (Benchmark fl → Double) → Double
  avg_double v f = div (sum_double v f (of_ℕ 0)) (of_ℕ (length v))

  -- The averages of at least one run; nothing sets the two times of multiplexing.
  unfoldable pub average : Benchmark fl → List (Benchmark fl) → Benchmark fl
  average first runs = record {
    name = first.name;
    time = avg_double runs (λ b. b.time);
    cycles = avg_int runs (λ b. b.cycles);
    instructions = avg_int runs (λ b. b.instructions);
    cache_misses = avg_int runs (λ b. b.cache_misses);
    total_branches = avg_int runs (λ b. b.total_branches);
    branch_misses = avg_int runs (λ b. b.branch_misses);
    total_cycles = avg_int runs (λ b. b.total_cycles);
    cpu_time = avg_int runs (λ b. b.cpu_time);
    context_switches = avg_int runs (λ b. b.context_switches);
    migrations = avg_int runs (λ b. b.migrations);
    l1_cache = avg_int runs (λ b. b.l1_cache);
    l1t_cache = avg_int runs (λ b. b.l1t_cache);
    ll_cache = avg_int runs (λ b. b.ll_cache);
    access = avg_int runs (λ b. b.access);
    bpu = avg_int runs (λ b. b.bpu);
    page_faults = avg_int runs (λ b. b.page_faults);
    bus_cycles = avg_int runs (λ b. b.bus_cycles);
    stalled_front = avg_int runs (λ b. b.stalled_front);
    stalled_back = avg_int runs (λ b. b.stalled_back);
    dtlb_access = avg_int runs (λ b. b.dtlb_access);
    dtlb_miss = avg_int runs (λ b. b.dtlb_miss);
    itlb_access = avg_int runs (λ b. b.itlb_access);
    itlb_miss = avg_int runs (λ b. b.itlb_miss);
    l1d_miss = avg_int runs (λ b. b.l1d_miss);
    l1t_miss = avg_int runs (λ b. b.l1t_miss);
    llcache_miss = avg_int runs (λ b. b.llcache_miss);
    l1d_prefetch = avg_int runs (λ b. b.l1d_prefetch);
    l1d_prefetch_miss = avg_int runs (λ b. b.l1d_prefetch_miss);
    minor_faults = avg_int runs (λ b. b.minor_faults);
    major_faults = avg_int runs (λ b. b.major_faults);
    alignment_faults = avg_int runs (λ b. b.alignment_faults);
    emulation_faults = avg_int runs (λ b. b.emulation_faults);
    time_enabled_ns = 0;
    time_running_ns = 0;
  }

  unfoldable pub collapse_runs : List (Benchmark fl) → Benchmark fl
  collapse_runs [] = empty_benchmark fl
  collapse_runs (b ∷ bs) = average b (b ∷ bs)

  -- `collapse_runs(a).time < collapse_runs(b).time`
  unfoldable pub faster : List (Benchmark fl) → List (Benchmark fl) → Bool
  faster a b = less (collapse_runs a).time (collapse_runs b).time

  unfoldable pub sort_results : List (List (Benchmark fl)) → List (List (Benchmark fl))
  sort_results v = sort_loop faster (length v) v
