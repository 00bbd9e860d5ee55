-- ===== src/Report/Csv/Columns.antt =====
-- The columns of the CSV report: each title stands over the values of one field.
use bbench.Base.{ℕ, ◌≡◌, inl, inr, List, [], ◌∷◌, ◌++◌, map, leb, if◌then◌else◌, Bool-cases}
use bbench.Base.Float.{Float}
use bbench.Base.Text.{CString, codes}
use bbench.Results.{Benchmark}
use bbench.Report.Sink.{Item, text, int, double, newline}
use bbench.Report.Csv.{emit_csv_header, emit_csv_one}

module _ (fl : Float) where
  pub record Column : Type 0 where
    pub title : CString
    pub value : Benchmark fl → Item fl

  abbrev pub basic_columns : List Column
  basic_columns =
      record { title = codes "name"; value = λ b. text b.name }
      ∷ record { title = codes "time_us"; value = λ b. double b.time }
      ∷ record { title = codes "cycles"; value = λ b. int b.cycles }
      ∷ record { title = codes "instructions"; value = λ b. int b.instructions }
      ∷ record { title = codes "branches"; value = λ b. int b.total_branches }
      ∷ record { title = codes "branch_misses"; value = λ b. int b.branch_misses }
      ∷ record { title = codes "total_cycles"; value = λ b. int b.total_cycles }
      ∷ record { title = codes "cpu_time"; value = λ b. int b.cpu_time }
      ∷ record { title = codes "context_switches"; value = λ b. int b.context_switches }
      ∷ record { title = codes "migrations"; value = λ b. int b.migrations }
      ∷ record { title = codes "cache_misses"; value = λ b. int b.cache_misses }
      ∷ record { title = codes "l1_cache"; value = λ b. int b.l1_cache }
      ∷ record { title = codes "l1t_cache"; value = λ b. int b.l1t_cache }
      ∷ record { title = codes "ll_cache"; value = λ b. int b.ll_cache }
      ∷ record { title = codes "cache_node"; value = λ b. int b.access }
      ∷ record { title = codes "bpu"; value = λ b. int b.bpu }
      ∷ []

  -- From the second level of detail on.
  abbrev pub extra_columns : List Column
  extra_columns =
      record { title = codes "page_faults"; value = λ b. int b.page_faults }
      ∷ record { title = codes "bus_cycles"; value = λ b. int b.bus_cycles }
      ∷ record { title = codes "stalled_front"; value = λ b. int b.stalled_front }
      ∷ record { title = codes "stalled_back"; value = λ b. int b.stalled_back }
      ∷ record { title = codes "dtlb_access"; value = λ b. int b.dtlb_access }
      ∷ record { title = codes "dtlb_miss"; value = λ b. int b.dtlb_miss }
      ∷ record { title = codes "itlb_access"; value = λ b. int b.itlb_access }
      ∷ record { title = codes "itlb_miss"; value = λ b. int b.itlb_miss }
      ∷ record { title = codes "l1d_miss"; value = λ b. int b.l1d_miss }
      ∷ record { title = codes "llcache_miss"; value = λ b. int b.llcache_miss }
      ∷ []

  -- At the third level.
  abbrev pub rare_columns : List Column
  rare_columns =
      record { title = codes "l1t_miss"; value = λ b. int b.l1t_miss }
      ∷ record { title = codes "l1d_prefetch"; value = λ b. int b.l1d_prefetch }
      ∷ record { title = codes "l1d_prefetch_miss"; value = λ b. int b.l1d_prefetch_miss }
      ∷ record { title = codes "minor_faults"; value = λ b. int b.minor_faults }
      ∷ record { title = codes "major_faults"; value = λ b. int b.major_faults }
      ∷ record { title = codes "alignment_faults"; value = λ b. int b.alignment_faults }
      ∷ record { title = codes "emulation_faults"; value = λ b. int b.emulation_faults }
      ∷ []

  abbrev pub columns : ℕ → List Column
  columns detail =
      basic_columns
      ++ (if leb 2 detail then extra_columns else [])
      ++ (if leb 3 detail then rare_columns else [])

  -- A line: the cells with a separator between each two.
  abbrev pub line : ℕ → List (Item fl) → List (Item fl)
  line sep [] = newline ∷ []
  line sep (cell ∷ []) = cell ∷ newline ∷ []
  line sep (cell ∷ next ∷ cells) = cell ∷ text (sep ∷ []) ∷ line sep (next ∷ cells)

  -- At every level of detail, the header and each row are lines over the same columns: every title
  -- stands over the value of its own field, and no separator is missing or left over.
  pub emit_csv_one-columns :
      (detail sep : ℕ) (b : Benchmark fl)
      → (emit_csv_header fl detail sep ≡ line sep (map (λ c. text c.title) (columns detail)))
        × (emit_csv_one fl b detail sep ≡ line sep (map (λ c. c.value b) (columns detail)))
  unfolding emit_csv_header emit_csv_one
  emit_csv_one-columns detail sep b = elim (Bool-cases (leb 2 detail)) [
    | inl two ↦ elim (Bool-cases (leb 3 detail)) [
      | inl three ↦ (rw (two, three), rw (two, three))
      | inr below ↦ (rw (two, below), rw (two, below))
    ]
    | inr one ↦ elim (Bool-cases (leb 3 detail)) [
      | inl three ↦ (rw (one, three), rw (one, three))
      | inr below ↦ (rw (one, below), rw (one, below))
    ]
  ]
