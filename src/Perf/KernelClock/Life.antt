-- ===== src/Perf/KernelClock/Life.antt =====
-- The life of a kernel clock: any sequence of its operations, and then its destructor.
use bbench.Base.{ℕ, ◌+◌, ◌≡◌, Bool, List, [], ◌∷◌, arith}
use bbench.Base.Int.{ℤ, negsuc}
use bbench.Base.Float.{Float}
use bbench.Perf.Sys.{Os, World}
use bbench.Perf.KernelClock.{
  KernelClock, open_pid, open_this, reopen_pid, reopen_this, destroy, start, stop, read_scaled,
  read_raw, set_inherit, set_pinned, set_enable_on_exec,
}
use bbench.Perf.KernelClock.Balance.{
  is_descriptor, opens, closes, Balanced, ReturnsInt, open_pid-Balanced, open_this-Balanced,
  reopen_pid-Balanced, reopen_this-Balanced, destroy-Balanced, start-Balanced, stop-Balanced,
  read_triplet-Balanced,
}

-- A call of one of the operations.
pub data Use : Type 0 where
  opening : ℤ → Use
  opening_this : Use
  reopening : ℤ → Use
  reopening_this : Use
  starting : Bool → Use
  stopping : Bool → Use
  reading : Use
  reading_raw : Use
  inheriting pinning enabling_on_exec : Bool → Use

module _ (fl : Float) (os : Os) where
  unfoldable pub use_once : Use → KernelClock × World → KernelClock × World
  use_once (opening pid) (c, w) = let (_, c', w') = open_pid os pid c w in (c', w')
  use_once opening_this (c, w) = let (_, c', w') = open_this os c w in (c', w')
  use_once (reopening pid) (c, w) = let (_, c', w') = reopen_pid os pid c w in (c', w')
  use_once reopening_this (c, w) = let (_, c', w') = reopen_this os c w in (c', w')
  use_once (starting group) (c, w) = (c, start os group c w)
  use_once (stopping group) (c, w) = (c, stop os group c w)
  use_once reading (c, w) = let (_, w') = read_scaled fl os c w in (c, w')
  use_once reading_raw (c, w) = let (_, w') = read_raw os c w in (c, w')
  use_once (inheriting on) (c, w) = (set_inherit on c, w)
  use_once (pinning on) (c, w) = (set_pinned on c, w)
  use_once (enabling_on_exec on) (c, w) = (set_enable_on_exec on c, w)

  unfoldable pub use_all : List Use → KernelClock × World → KernelClock × World
  unfolding use_once
  use_all [] s = s
  use_all (u ∷ us) s = use_all us (use_once u s)

  -- How often a call puts a new descriptor in the place of descriptor `n`, and leaves that open.
  abbrev pub lost_once : ℕ → Use → KernelClock → ℕ
  lost_once n (opening pid) c = is_descriptor n c.e_fd
  lost_once n opening_this c = is_descriptor n c.e_fd
  lost_once n _ c = 0

  -- The same over a sequence of calls.
  abbrev pub lost : ℕ → List Use → KernelClock × World → ℕ
  lost n [] s = 0
  lost n (u ∷ us) s = lost_once n u s.0 + lost n us (use_once u s)

  module _ (ints : ReturnsInt os) (n : ℕ) where
    use_once-Balanced :
        (u : Use) (c : KernelClock) (w : World)
        → let (c', w') = use_once u (c, w) in
          Balanced n
            (is_descriptor n c.e_fd)
            w.log
            (is_descriptor n c'.e_fd + lost_once n u c)
            w'.log
    unfolding use_once read_scaled read_raw set_inherit set_pinned set_enable_on_exec
    use_once-Balanced (opening pid) c w = omega (arith, open_pid-Balanced os ints n pid c w)
    use_once-Balanced opening_this c w = omega (arith, open_this-Balanced os ints n c w)
    use_once-Balanced (reopening pid) c w = omega (arith, reopen_pid-Balanced os ints n pid c w)
    use_once-Balanced reopening_this c w = omega (arith, reopen_this-Balanced os ints n c w)
    use_once-Balanced (starting group) c w = omega (arith, start-Balanced os ints n group c 0 w)
    use_once-Balanced (stopping group) c w = omega (arith, stop-Balanced os ints n group c 0 w)
    use_once-Balanced reading c w = omega (arith, read_triplet-Balanced os ints n c 0 w)
    use_once-Balanced reading_raw c w = omega (arith, read_triplet-Balanced os ints n c 0 w)
    use_once-Balanced (inheriting on) c w = omega arith
    use_once-Balanced (pinning on) c w = omega arith
    use_once-Balanced (enabling_on_exec on) c w = omega arith

    use_all-Balanced :
        (us : List Use) (c : KernelClock) (w : World)
        → let (c', w') = use_all us (c, w) in
          Balanced n
            (is_descriptor n c.e_fd)
            w.log
            (is_descriptor n c'.e_fd + lost n us (c, w))
            w'.log
    unfolding use_all
    use_all-Balanced [] c w = omega arith
    use_all-Balanced (u ∷ us) c w =
        let (c1, w1) = use_once u (c, w) in
        omega (arith, use_once-Balanced u c w, use_all-Balanced us c1 w1)

  -- Over the whole life of a kernel clock that starts with no descriptor, whatever its methods are
  -- called in whatever order and whether they fail or not, each descriptor is closed exactly as often
  -- as it was opened, but for the times that an `open` found it still held and put another in its
  -- place: those stay open. The kernel is assumed to return descriptors that fit an `int`.
  pub life-closes :
      (ints : ReturnsInt os) (n : ℕ) (us : List Use) (c : KernelClock) (w : World)
      → c.e_fd ≡ negsuc 0
      → let (c', w') = use_all us (c, w) in
        let last = (destroy os c' w').log in
        opens n last + closes n w.log ≡ opens n w.log + closes n last + lost n us (c, w)
  life-closes ints n us c w e =
      let (c', w') = use_all us (c, w) in
      let used = use_all-Balanced ints n us c w in
      let closed = destroy-Balanced os ints n c' w' in ground arith
