-- ===== src/Report/Csv/Counters.antt =====
-- The columns of the CSV report and the counters of the groups of src/bench.hpp.
use mathlib.Core.List.{Permᴰ}
use mathlib.Core.List.Permᴰ
use bbench.Base.{
  ℕ, zero, suc, ◌≤◌, ◌≡◌, refl, inl, inr, List, [], ◌∷◌, ◌++◌, map, leb, arith, Bool-cases,
  if◌then◌else◌,
}
use bbench.Base.Float.{Float}
use bbench.Results.{Benchmark}
use bbench.Results.Fields.{Field, get_field}
use bbench.Clock.Kinds.{EventKind}
use bbench.Clock.Kinds
use bbench.Report.Sink.{int, double}
use bbench.Report.Csv.{emit_csv_one}
use bbench.Report.Human.Numbers.{numbers}
use bbench.Bench.Static.{kinds_of_detail}
use bbench.Bench.Collect.Fields.{kind_of}

-- The fields of the columns behind the name and the time.
abbrev pub shown_1 : List Field
shown_1 =
    Field.cycles ∷ Field.instructions ∷ Field.total_branches ∷ Field.branch_misses
    ∷ Field.total_cycles ∷ Field.cpu_time ∷ Field.context_switches ∷ Field.migrations
    ∷ Field.cache_misses ∷ Field.l1_cache ∷ Field.l1t_cache ∷ Field.ll_cache ∷ Field.access
    ∷ Field.bpu ∷ []

abbrev pub shown_2 : List Field
shown_2 =
    Field.page_faults ∷ Field.bus_cycles ∷ Field.stalled_front ∷ Field.stalled_back
    ∷ Field.dtlb_access ∷ Field.dtlb_miss ∷ Field.itlb_access ∷ Field.itlb_miss ∷ Field.l1d_miss
    ∷ Field.llcache_miss ∷ []

abbrev pub shown_3 : List Field
shown_3 =
    Field.l1t_miss ∷ Field.l1d_prefetch ∷ Field.l1d_prefetch_miss ∷ Field.minor_faults
    ∷ Field.major_faults ∷ Field.alignment_faults ∷ Field.emulation_faults ∷ []

abbrev pub shown : ℕ → List Field
shown detail =
    shown_1 ++ (if leb 2 detail then shown_2 else []) ++ (if leb 3 detail then shown_3 else [])

emit_csv_one-shown :
    (fl : Float) (b : Benchmark fl) (detail sep : ℕ)
    → numbers (emit_csv_one fl b detail sep)
      ≡ double b.time ∷ map (λ f. int (get_field f b)) (shown detail)
unfolding emit_csv_one
emit_csv_one-shown fl b detail sep = elim (Bool-cases (leb 2 detail)) [
  | inl two ↦ elim (Bool-cases (leb 3 detail)) [
    | inl three ↦ rw (two, three)
    | inr below ↦ rw (two, below)
  ]
  | inr one ↦ elim (Bool-cases (leb 3 detail)) [
    | inl three ↦ rw (one, three)
    | inr below ↦ rw (one, below)
  ]
]

-- Moves an item behind the next `n`.
module _ {ℓ} {A : Type ℓ} where
  move_behind : (x : A) (ys zs : List A) → Permᴰ (x ∷ ys ++ zs) (ys ++ x ∷ zs)
  move_behind x [] zs = Permᴰ.refl (x ∷ zs)
  move_behind x (y ∷ ys) zs =
      Permᴰ.trans (Permᴰ.swap refl refl) (Permᴰ.cons refl (move_behind x ys zs))

-- The six columns in front of that of the cache misses.
abbrev six : List EventKind
six =
    Kinds.branches ∷ Kinds.branch_misses ∷ Kinds.total_cycles ∷ Kinds.cpu_time
    ∷ Kinds.context_switches ∷ Kinds.proc_migrations ∷ []

moved :
    (rest : List EventKind)
    → Permᴰ
        (Kinds.hardware_cycles ∷ Kinds.hardware_instructions ∷ six ++ Kinds.cache_misses ∷ rest)
        (Kinds.hardware_cycles ∷ Kinds.hardware_instructions ∷ Kinds.cache_misses ∷ six ++ rest)
moved rest =
    Permᴰ.cons refl (Permᴰ.cons refl (Permᴰ.symm (move_behind Kinds.cache_misses six rest)))

shown-Perm :
    (detail : ℕ)
    → 1 ≤ detail
    → detail ≤ 3
    → Permᴰ (map kind_of (shown detail)) (kinds_of_detail detail)
shown-Perm zero low high = absurd (omega arith)
shown-Perm (suc zero) low high = moved _
shown-Perm (suc (suc zero)) low high = moved _
shown-Perm (suc (suc (suc zero))) low high = moved _
shown-Perm (suc (suc (suc (suc n)))) low high = absurd (omega arith)

-- At the levels of detail 1, 2 and 3, the numbers of a CSV row are the time and the fields `shown`,
-- and the counters that these fields are for are the members of the group that `benchmark_bin`
-- opens at that level, in another order.
pub shown-kinds_of_detail :
    (fl : Float) (b : Benchmark fl) (detail sep : ℕ)
    → 1 ≤ detail
    → detail ≤ 3
    → (numbers (emit_csv_one fl b detail sep)
        ≡ double b.time ∷ map (λ f. int (get_field f b)) (shown detail))
      × Permᴰ (map kind_of (shown detail)) (kinds_of_detail detail)
shown-kinds_of_detail fl b detail sep low high =
    (emit_csv_one-shown fl b detail sep, shown-Perm detail low high)
