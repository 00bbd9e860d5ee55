-- ===== src/Perf/KernelClock/Balance.antt =====
-- Descriptors: what an object opens it closes, over any life of it.
use bbench.Base.{
  ℕ, zero, suc, ◌+◌, ◌^◌, ◌<◌, ◌≡◌, refl, inl, inr, Bool, [], ◌∷◌, arith, if◌then◌else◌, Bool-cases,
}
use bbench.Base.Int.{ℤ, pos, negsuc, to_i32, ◌==ℤ◌, residue}
use bbench.Perf.Sys.{
  PerfEventAttr, Call, perf_event_open, open_file, close, pipe2, Log, Os, World, syscall, pe_call,
  perf_event_pid, perf_event_this,
}
use bbench.Perf.KernelClock.{
  KernelClock, is_open, opened, open_pid, open_this, close_if_open, reopen_pid, reopen_this,
  destroy, start, stop, read_triplet, read_counter,
}

abbrev pub is_descriptor : ℕ → ℤ → ℕ
is_descriptor n fd = if fd ==ℤ pos n then 1 else 0

-- How often descriptor `n` came out of a successful `perf_event_open`, `open` or `pipe2`, and went
-- into `close`.
abbrev pub opens_entry : ℕ → Call → ℤ → ℕ
opens_entry n (perf_event_open _ _ _ _ _) r = is_descriptor n r
opens_entry n (open_file _) r = is_descriptor n r
opens_entry n (pipe2 from to) (pos r) = is_descriptor n from + is_descriptor n to
opens_entry n _ r = 0

abbrev pub closes_entry : ℕ → Call → ℕ
closes_entry n (close fd) = is_descriptor n fd
closes_entry n _ = 0

unfoldable pub opens : ℕ → Log → ℕ
opens n [] = 0
opens n (e ∷ log) = opens_entry n e.call e.reply + opens n log

unfoldable pub closes : ℕ → Log → ℕ
closes n [] = 0
closes n (e ∷ log) = closes_entry n e.call + closes n log

-- From `log` to `log'`, what was opened more often than closed is what is held more than before.
abbrev pub Balanced : ℕ → ℕ → Log → ℕ → Log → Type 0
Balanced n held log held' log' =
    opens n log' + held + closes n log ≡ opens n log + held' + closes n log'

abbrev pub FitsInt : ℤ → Type 0
FitsInt (pos r) = r < 2 ^ 31
FitsInt (negsuc r) = Unit

-- perf_event_open(2): a descriptor, which is an `int`, or a negative number.
abbrev pub ReturnsInt : Os → Type 0
ReturnsInt os =
    (log : Log) (a : PerfEventAttr) (pid cpu group : ℤ) (flags : ℕ)
    → FitsInt (os.reply log (perf_event_open a pid cpu group flags))

to_i32_fits : (r : ℕ) → r < 2 ^ 31 → to_i32 (pos r) ≡ pos r
unfolding to_i32 residue
to_i32_fits r h = ground arith

to_i32_minus_one : to_i32 (negsuc 0) ≡ negsuc 0
unfolding to_i32 residue
to_i32_minus_one = refl

module _ (os : Os) (ints : ReturnsInt os) (n : ℕ) where
  pe_call-Balanced :
      (w : World) (call : Call) (r : ℤ)
      → FitsInt r
      → ((s : ℤ) → opens_entry n call s ≡ is_descriptor n s)
      → closes_entry n call ≡ 0
      → let w1 : World = record w { log = record { call = call; reply = r } ∷ w.log } in
        let (v, w') = pe_call os r w1 in Balanced n 0 w.log (is_descriptor n (to_i32 v)) w'.log
  unfolding pe_call opens closes
  pe_call-Balanced w call (pos r) fits o k = rw (to_i32_fits r fits) (omega (arith, o (pos r), k))
  pe_call-Balanced w call (negsuc r) fits o k = rw to_i32_minus_one (omega (arith, o (negsuc r), k))

  -- What `perf_event_pid` returns is held as an `int` from then on.
  pub perf_event_pid-Balanced :
      (a : PerfEventAttr) (pid : ℤ) (w : World)
      → let (v, w') = perf_event_pid os a pid w in
        Balanced n 0 w.log (is_descriptor n (to_i32 v)) w'.log
  unfolding perf_event_pid syscall
  perf_event_pid-Balanced a pid w = pe_call-Balanced w _ _ (ints w.log _ _ _ _ _) (λ s. refl) refl

  pub perf_event_this-Balanced :
      (a : PerfEventAttr) (w : World)
      → let (v, w') = perf_event_this os a w in
        Balanced n 0 w.log (is_descriptor n (to_i32 v)) w'.log
  unfolding perf_event_this syscall
  perf_event_this-Balanced a w = pe_call-Balanced w _ _ (ints w.log _ _ _ _ _) (λ s. refl) refl

  opened-log :
      (c : KernelClock) (r : ℤ) (w : World)
      → let (_, c', w') = opened c (r, w) in (w'.log ≡ w.log) × (c'.e_fd ≡ to_i32 r)
  unfolding opened
  opened-log c r w = ground arith

  pub open_pid-Balanced :
      (pid : ℤ) (c : KernelClock) (w : World)
      → let (_, c', w') = open_pid os pid c w in Balanced n 0 w.log (is_descriptor n c'.e_fd) w'.log
  unfolding open_pid
  open_pid-Balanced pid c w =
      let (v, w1) = perf_event_pid os c.event pid w in
      let (l, f) = opened-log c v w1 in rw (l, f) (perf_event_pid-Balanced c.event pid w)

  pub open_this-Balanced :
      (c : KernelClock) (w : World)
      → let (_, c', w') = open_this os c w in Balanced n 0 w.log (is_descriptor n c'.e_fd) w'.log
  unfolding open_this
  open_this-Balanced c w =
      let (v, w1) = perf_event_this os c.event w in
      let (l, f) = opened-log c v w1 in rw (l, f) (perf_event_this-Balanced c.event w)

  pub close_if_open-Balanced :
      (fd : ℤ) (w : World) → Balanced n (is_descriptor n fd) w.log 0 (close_if_open os fd w).log
  unfolding close_if_open syscall opens closes
  close_if_open-Balanced (pos k) w = omega arith
  close_if_open-Balanced (negsuc zero) w = omega arith
  close_if_open-Balanced (negsuc (suc k)) w = ground arith

  -- What one call closes was held before it, and what it opens is held behind it.
  pub syscall-moves :
      (call : Call) (held : ℕ) (w : World)
      → let (r, w1) = syscall os call w in
        Balanced n (closes_entry n call + held) w.log (opens_entry n call r + held) w1.log
  unfolding syscall opens closes
  syscall-moves call held w = omega arith

  -- A call that neither opens a counter nor closes a descriptor.
  pub syscall-Balanced :
      (call : Call) (held : ℕ) (w : World)
      → ((s : ℤ) → opens_entry n call s ≡ 0)
      → closes_entry n call ≡ 0
      → Balanced n held w.log held (syscall os call w).1.log
  unfolding syscall opens closes
  syscall-Balanced call held w o k = omega (arith, o (os.reply w.log call), k)

  pub Balanced-trans :
      (a b c : ℕ) (log log1 log2 : Log)
      → Balanced n a log b log1
      → Balanced n b log1 c log2
      → Balanced n a log c log2
  Balanced-trans a b c log log1 log2 h k = omega arith

  -- `reopen` closes the descriptor that the clock held, and holds the new one.
  pub reopen_pid-Balanced :
      (pid : ℤ) (c : KernelClock) (w : World)
      → let (_, c', w') = reopen_pid os pid c w in
        Balanced n (is_descriptor n c.e_fd) w.log (is_descriptor n c'.e_fd) w'.log
  unfolding reopen_pid
  reopen_pid-Balanced pid c w =
      Balanced-trans _ 0 _ _ _ _ (close_if_open-Balanced c.e_fd w)
        (open_pid-Balanced pid c (close_if_open os c.e_fd w))

  pub reopen_this-Balanced :
      (c : KernelClock) (w : World)
      → let (_, c', w') = reopen_this os c w in
        Balanced n (is_descriptor n c.e_fd) w.log (is_descriptor n c'.e_fd) w'.log
  unfolding reopen_this
  reopen_this-Balanced c w =
      Balanced-trans _ 0 _ _ _ _ (close_if_open-Balanced c.e_fd w)
        (open_this-Balanced c (close_if_open os c.e_fd w))

  pub destroy-Balanced :
      (c : KernelClock) (w : World)
      → Balanced n (is_descriptor n c.e_fd) w.log 0 (destroy os c w).log
  unfolding destroy
  destroy-Balanced c w = close_if_open-Balanced c.e_fd w

  pub start-Balanced :
      (group : Bool) (c : KernelClock) (held : ℕ) (w : World)
      → Balanced n held w.log held (start os group c w).log
  unfolding start
  start-Balanced group c held w =
      Balanced-trans held held held _ _ _ (syscall-Balanced _ held w (λ s. refl) refl)
        (syscall-Balanced _ held _ (λ s. refl) refl)

  pub stop-Balanced :
      (group : Bool) (c : KernelClock) (held : ℕ) (w : World)
      → Balanced n held w.log held (stop os group c w).log
  unfolding stop
  stop-Balanced group c held w = syscall-Balanced _ held w (λ s. refl) refl

  pub read_counter-Balanced :
      (fd : ℤ) (held : ℕ) (w : World) → Balanced n held w.log held (read_counter os fd w).1.log
  unfolding read_counter
  read_counter-Balanced fd held w = syscall-Balanced _ held w (λ s. refl) refl

  pub read_triplet-Balanced :
      (c : KernelClock) (held : ℕ) (w : World)
      → Balanced n held w.log held (read_triplet os c w).1.log
  unfolding read_triplet
  read_triplet-Balanced c held w = elim (Bool-cases (is_open c.e_fd)) [
    | inl o ↦ rw o (read_counter-Balanced c.e_fd held w)
    | inr o ↦ rw o
  ]
