-- ===== src/Clock/Group/Balance.antt =====
-- Descriptors of an event group.
use bbench.Base.{ℕ, ◌+◌, ◌≡◌, refl, List, [], ◌∷◌, false, arith}
use bbench.Base.Int.{ℤ}
use bbench.Perf.Abi.{PerfAbi}
use bbench.Perf.Sys.{Os, World}
use bbench.Perf.KernelClock.{KernelClock, make, open_this, reopen_pid, start, stop}
use bbench.Perf.KernelClock.Balance.{
  is_descriptor, Balanced, ReturnsInt, Balanced-trans, open_this-Balanced, reopen_pid-Balanced,
  start-Balanced, stop-Balanced, destroy-Balanced,
}
use bbench.Clock.Kinds.{EventKind}
use bbench.Clock.Group.{
  Member, quiet_member, quiet_group, set_all, open_all, reopen_all, begin_all, end_all, destroy_all,
}

-- How often the members of a group hold descriptor `n`.
abbrev pub group_holds : ℕ → List Member → ℕ
group_holds n [] = 0
group_holds n (m ∷ gr) = is_descriptor n m.clock.e_fd + group_holds n gr

-- A quiet group holds no descriptor, and the setters leave the descriptors alone.
pub group_holds-quiet_group :
    (n : ℕ) (abi : PerfAbi) (ks : List EventKind) → group_holds n (quiet_group abi ks) ≡ 0
unfolding quiet_group quiet_member make
group_holds-quiet_group n abi [] = refl
group_holds-quiet_group n abi (k ∷ ks) = omega (arith, group_holds-quiet_group n abi ks)

pub group_holds-set_all :
    (n : ℕ) (f : KernelClock → KernelClock) (gr : List Member)
    → ((c : KernelClock) → (f c).e_fd ≡ c.e_fd)
    → group_holds n (set_all f gr) ≡ group_holds n gr
unfolding set_all
group_holds-set_all n f [] h = refl
group_holds-set_all n f (m ∷ gr) h = rw (h m.clock, group_holds-set_all n f gr h)

module _ (os : Os) (ints : ReturnsInt os) (n : ℕ) where
  pub open_all-Balanced :
      (gr : List Member) (w : World)
      → group_holds n gr ≡ 0
      → let (gr', w') = open_all os gr w in Balanced n 0 w.log (group_holds n gr') w'.log
  unfolding open_all
  open_all-Balanced [] w h = refl
  open_all-Balanced (m ∷ gr) w h =
      let (_, _, w1) = open_this os m.clock w in
      omega (arith, open_this-Balanced os ints n m.clock w, open_all-Balanced gr w1 (omega arith))

  pub reopen_all-Balanced :
      (pid : ℤ) (gr : List Member) (w : World)
      → let (gr', w') = reopen_all os pid gr w in
        Balanced n (group_holds n gr) w.log (group_holds n gr') w'.log
  unfolding reopen_all
  reopen_all-Balanced pid [] w = refl
  reopen_all-Balanced pid (m ∷ gr) w =
      let (_, _, w1) = reopen_pid os pid m.clock w in
      omega (arith, reopen_pid-Balanced os ints n pid m.clock w, reopen_all-Balanced pid gr w1)

  pub begin_all-Balanced :
      (gr : List Member) (held : ℕ) (w : World) → Balanced n held w.log held (begin_all os gr w).log
  unfolding begin_all
  begin_all-Balanced [] held w = refl
  begin_all-Balanced (m ∷ gr) held w =
      Balanced-trans os ints n held held held _ _ _ (start-Balanced os ints n false m.clock held w)
        (begin_all-Balanced gr held (start os false m.clock w))

  pub end_all-Balanced :
      (gr : List Member) (held : ℕ) (w : World) → Balanced n held w.log held (end_all os gr w).log
  unfolding end_all
  end_all-Balanced [] held w = refl
  end_all-Balanced (m ∷ gr) held w =
      Balanced-trans os ints n held held held _ _ _ (stop-Balanced os ints n false m.clock held w)
        (end_all-Balanced gr held (stop os false m.clock w))

  pub destroy_all-Balanced :
      (gr : List Member) (w : World)
      → Balanced n (group_holds n gr) w.log 0 (destroy_all os gr w).log
  unfolding destroy_all
  destroy_all-Balanced [] w = refl
  destroy_all-Balanced (m ∷ gr) w =
      omega
        (arith, destroy_all-Balanced gr w, destroy-Balanced os ints n m.clock (destroy_all os gr w))
