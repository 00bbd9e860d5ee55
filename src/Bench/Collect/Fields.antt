-- ===== src/Bench/Collect/Fields.antt =====
-- What `collect` puts into each field.
use bbench.Base.{
  ◌≡◌, refl, ◌∙◌, ap, Bool, true, false, ◌++◌, List, [], ◌∷◌, Option, none, some, ◌==◌,
  if◌then◌else◌, Bool-cases, inl, inr,
}
use bbench.Base.Int.{ℤ, pos}
use bbench.Base.Float.{Float}
use bbench.Base.Text.{CString}
use bbench.Perf.Sys.{Os, World, read, syscall}
use bbench.Perf.KernelClock.{KernelClock, is_open, read_counter, read_triplet, read_scaled}
use bbench.Clock.Kinds.{EventKind}
use bbench.Clock.Kinds
use bbench.Clock.Group.{Member, get}
use bbench.Results.{Benchmark, empty_benchmark}
use bbench.Results.Fields.{Field, index, get_field, set_field, get_field-set_field}
use bbench.Bench.Collect.{assignments, assign, assign_all, collect}

-- The counter that each field is for.
abbrev pub kind_of : Field → EventKind
kind_of Field.cycles = Kinds.hardware_cycles
kind_of Field.instructions = Kinds.hardware_instructions
kind_of Field.cache_misses = Kinds.cache_misses
kind_of Field.total_branches = Kinds.branches
kind_of Field.branch_misses = Kinds.branch_misses
kind_of Field.total_cycles = Kinds.total_cycles
kind_of Field.cpu_time = Kinds.cpu_time
kind_of Field.context_switches = Kinds.context_switches
kind_of Field.migrations = Kinds.proc_migrations
kind_of Field.l1_cache = Kinds.level1d
kind_of Field.l1t_cache = Kinds.level1t
kind_of Field.ll_cache = Kinds.llcache
kind_of Field.access = Kinds.cache_node
kind_of Field.bpu = Kinds.bpu
kind_of Field.page_faults = Kinds.page_faults
kind_of Field.minor_faults = Kinds.minor_faults
kind_of Field.major_faults = Kinds.major_faults
kind_of Field.bus_cycles = Kinds.bus_cycles_e
kind_of Field.stalled_front = Kinds.stalled_front
kind_of Field.stalled_back = Kinds.stalled_back
kind_of Field.alignment_faults = Kinds.alignment_faults
kind_of Field.emulation_faults = Kinds.emulation_faults
kind_of Field.dtlb_access = Kinds.dtlb_access
kind_of Field.dtlb_miss = Kinds.dtlb_miss
kind_of Field.itlb_access = Kinds.itlb_access
kind_of Field.itlb_miss = Kinds.itlb_miss
kind_of Field.l1d_miss = Kinds.level1d_miss
kind_of Field.l1t_miss = Kinds.level1t_miss
kind_of Field.llcache_miss = Kinds.llcache_miss
kind_of Field.l1d_prefetch = Kinds.l1d_prefetch
kind_of Field.l1d_prefetch_miss = Kinds.l1d_prefetch_miss

module _ (fl : Float) (os : Os) where
  set_field-name : (g : Field) (x : ℤ) (b : Benchmark fl) → (set_field g x b).name ≡ b.name
  set_field-name Field.cycles x b = refl
  set_field-name _ x b = refl

  set_field-time : (g : Field) (x : ℤ) (b : Benchmark fl) → (set_field g x b).time ≡ b.time
  set_field-time Field.cycles x b = refl
  set_field-time _ x b = refl

  assign-name_time :
      (o : Option Member) (g : Field) (b : Benchmark fl) (w : World)
      → ((assign fl os o g b w).0.name ≡ b.name) × ((assign fl os o g b w).0.time ≡ b.time)
  unfolding assign
  assign-name_time none g b w = (refl, refl)
  assign-name_time (some m) g b w = (set_field-name g _ b, set_field-time g _ b)

  assign_all-name_time :
      (rows : List (EventKind × Field)) (gr : List Member) (b : Benchmark fl) (w : World)
      → let b' = (assign_all fl os rows gr b w).0 in (b'.name ≡ b.name) × (b'.time ≡ b.time)
  unfolding assign_all
  assign_all-name_time [] gr b w = (refl, refl)
  assign_all-name_time ((k, g) ∷ rows) gr b w =
      let (b1, w1) = assign fl os (get k gr) g b w in
      let (n1, t1) = assign-name_time (get k gr) g b w in
      let (n2, t2) = assign_all-name_time rows gr b1 w1 in (n2 ∙ n1, t2 ∙ t1)

  pub collect-name :
      (name : CString) (time : fl.Double) (gr : List Member) (w : World)
      → ((collect fl os name time gr w).0.name ≡ name)
        × ((collect fl os name time gr w).0.time ≡ time)
  unfolding collect
  collect-name name time gr w =
      assign_all-name_time assignments gr (record (empty_benchmark fl) { name = name; time = time })
        w

-- Whether one of the assignments is to a field.
abbrev assigns : Field → List (EventKind × Field) → Bool
assigns f [] = false
assigns f ((k, g) ∷ rows) = if index f == index g then true else assigns f rows

-- The counter of the only assignment to a field.
abbrev sole : Field → List (EventKind × Field) → Option EventKind
sole f [] = none
sole f ((k, g) ∷ rows) =
    if index f == index g then (if assigns f rows then none else some k) else sole f rows

sole-assignments : (f : Field) → sole f assignments ≡ some (kind_of f)
sole-assignments Field.cycles = refl
sole-assignments Field.instructions = refl
sole-assignments Field.cache_misses = refl
sole-assignments Field.total_branches = refl
sole-assignments Field.branch_misses = refl
sole-assignments Field.total_cycles = refl
sole-assignments Field.cpu_time = refl
sole-assignments Field.context_switches = refl
sole-assignments Field.migrations = refl
sole-assignments Field.l1_cache = refl
sole-assignments Field.l1t_cache = refl
sole-assignments Field.ll_cache = refl
sole-assignments Field.access = refl
sole-assignments Field.bpu = refl
sole-assignments Field.page_faults = refl
sole-assignments Field.minor_faults = refl
sole-assignments Field.major_faults = refl
sole-assignments Field.bus_cycles = refl
sole-assignments Field.stalled_front = refl
sole-assignments Field.stalled_back = refl
sole-assignments Field.alignment_faults = refl
sole-assignments Field.emulation_faults = refl
sole-assignments Field.dtlb_access = refl
sole-assignments Field.dtlb_miss = refl
sole-assignments Field.itlb_access = refl
sole-assignments Field.itlb_miss = refl
sole-assignments Field.l1d_miss = refl
sole-assignments Field.l1t_miss = refl
sole-assignments Field.llcache_miss = refl
sole-assignments Field.l1d_prefetch = refl
sole-assignments Field.l1d_prefetch_miss = refl

-- The world behind reads of these descriptors.
unfoldable pub after_reads : Os → List ℤ → World → World
after_reads os [] w = w
after_reads os (fd ∷ fds) w = after_reads os fds (syscall os (read fd) w).1

module _ (fl : Float) (os : Os) where
  -- What a member counts in the world `w`, and 0 where there is none.
  abbrev pub count_in : World → Option Member → ℤ
  count_in w none = pos 0
  count_in w (some m) = (read_scaled fl os m.clock w).0

  -- Only reads lie between two worlds.
  abbrev pub ReadsTo : World → World → Type 0
  ReadsTo w w' = (fds : List ℤ) × (w' ≡ after_reads os fds w)

  after_reads-append :
      (a b : List ℤ) (w : World) → after_reads os b (after_reads os a w) ≡ after_reads os (a ++ b) w
  unfolding after_reads
  after_reads-append [] b w = refl
  after_reads-append (fd ∷ a) b w = after_reads-append a b _

  ReadsTo-trans : (u v w : World) → ReadsTo u v → ReadsTo v w → ReadsTo u w
  ReadsTo-trans u v w (a, p) (b, q) =
      (a ++ b, q ∙ ap (after_reads os b) p ∙ after_reads-append a b u)

  read_scaled-ReadsTo : (c : KernelClock) (w : World) → ReadsTo w (read_scaled fl os c w).1
  unfolding read_scaled read_triplet read_counter after_reads
  read_scaled-ReadsTo c w = elim (Bool-cases (is_open c.e_fd)) [
    | inl open_ ↦ (c.e_fd ∷ [], rw open_)
    | inr shut ↦ ([], rw shut)
  ]

  assign-ReadsTo :
      (o : Option Member) (g : Field) (b : Benchmark fl) (w : World)
      → ReadsTo w (assign fl os o g b w).1
  unfolding assign after_reads
  assign-ReadsTo none g b w = ([], refl)
  assign-ReadsTo (some m) g b w = read_scaled-ReadsTo m.clock w

  get_field-assign_other :
      (o : Option Member) (f g : Field) (b : Benchmark fl) (w : World)
      → (index f == index g) ≡ false
      → get_field f (assign fl os o g b w).0 ≡ get_field f b
  unfolding assign
  get_field-assign_other none f g b w h = refl
  get_field-assign_other (some m) f g b w h = get_field-set_field f g _ b ∙ rw h

  get_field-assign_here :
      (o : Option Member) (f g : Field) (b : Benchmark fl) (w : World)
      → (index f == index g) ≡ true
      → get_field f b ≡ pos 0
      → get_field f (assign fl os o g b w).0 ≡ count_in w o
  unfolding assign
  get_field-assign_here none f g b w h clear = clear
  get_field-assign_here (some m) f g b w h clear = get_field-set_field f g _ b ∙ rw h

  get_field-assign_all_other :
      (rows : List (EventKind × Field)) (gr : List Member) (f : Field) (b : Benchmark fl)
      (w : World)
      → assigns f rows ≡ false
      → get_field f (assign_all fl os rows gr b w).0 ≡ get_field f b
  unfolding assign_all
  get_field-assign_all_other [] gr f b w h = refl
  get_field-assign_all_other ((k, g) ∷ rows) gr f b w h = elim (Bool-cases (index f == index g)) [
    | inl here ↦ cc
    | inr other ↦
        let (b1, w1) = assign fl os (get k gr) g b w in
        get_field-assign_all_other rows gr f b1 w1 (rw other at h)
        ∙ get_field-assign_other (get k gr) f g b w other
  ]

  get_field-assign_all :
      (rows : List (EventKind × Field)) (gr : List Member) (f : Field) (k : EventKind)
      (b : Benchmark fl) (w : World)
      → sole f rows ≡ some k
      → get_field f b ≡ pos 0
      → (w1 : World) × ReadsTo w w1
        × (get_field f (assign_all fl os rows gr b w).0 ≡ count_in w1 (get k gr))
  unfolding assign_all after_reads
  get_field-assign_all [] gr f k b w h clear = cc
  get_field-assign_all ((j, g) ∷ rows) gr f k b w h clear = elim (Bool-cases (index f == index g)) [
    | inl here ↦ elim (Bool-cases (assigns f rows)) [
      | inl again ↦ let twice = rw (here, again) at h in absurd cc
      | inr once ↦
          let (b1, w1) = assign fl os (get j gr) g b w in
          let only = rw (here, once) at h in
          let same : j ≡ k = cc in
          (
            w,
            ([], refl),
            get_field-assign_all_other rows gr f b1 w1 once
                ∙ get_field-assign_here (get j gr) f g b w here clear
                ∙ ap (λ x. count_in w (get x gr)) same,
          )
    ]
    | inr other ↦
        let (b1, w1) = assign fl os (get j gr) g b w in
        let (w2, reads, count) =
          get_field-assign_all rows gr f k b1 w1 (rw other at h)
            (get_field-assign_other (get j gr) f g b w other ∙ clear) in
        (w2, ReadsTo-trans w w1 w2 (assign-ReadsTo (get j gr) g b w) reads, count)
  ]

  get_field-named :
      (f : Field) (name : CString) (time : fl.Double)
      → get_field f (record (empty_benchmark fl) { name = name; time = time }) ≡ pos 0
  unfolding empty_benchmark
  get_field-named Field.cycles name time = refl
  get_field-named _ name time = refl

  -- On every operating system, whatever its counters read and whatever the group: `collect` gives
  -- every counter of the result what the member that it is for reads in a world behind nothing but
  -- reads of descriptors, and 0 where the group has none; the name and the time are the ones given.
  pub get_field-collect :
      (f : Field) (name : CString) (time : fl.Double) (gr : List Member) (w : World)
      → let b = (collect fl os name time gr w).0 in
        ((w1 : World) × ReadsTo w w1 × (get_field f b ≡ count_in w1 (get (kind_of f) gr)))
        × (b.name ≡ name)
        × (b.time ≡ time)
  unfolding collect
  get_field-collect f name time gr w =
      let b = record (empty_benchmark fl) { name = name; time = time } in
      let (named, timed) = collect-name fl os name time gr w in
      (
        get_field-assign_all assignments gr f (kind_of f) b w (sole-assignments f)
            (get_field-named f name time),
        named,
        timed,
      )
