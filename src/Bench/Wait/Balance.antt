-- ===== src/Bench/Wait/Balance.antt =====
-- Descriptors while a program is waited for: none is opened or closed.
use bbench.Base.{
  ℕ, zero, suc, ◌+◌, ◌%◌, ◌^◌, refl, inl, inr, Bool, true, false, Option, none, some, ltb, leb,
  ◌==◌, Bool-cases,
}
use bbench.Base.Int.{ℤ, ◌==ℤ◌}
use bbench.Perf.Sys.{
  Log, Os, World, waitpid, kill, terminate, kill9, clock_gettime, monotonic, syscall,
}
use bbench.Perf.KernelClock.Balance.{Balanced, ReturnsInt, Balanced-trans, syscall-Balanced}
use bbench.Bench.Wait.{
  sleep_ms, now_ms, reading, hard_loop, after_hard, give_up, wait_loop, wait_with_timeout,
}

module _ (os : Os) (ints : ReturnsInt os) (n held : ℕ) where
  abbrev pub Keeps : Log → World → Type 0
  Keeps log w = Balanced n held log held w.log

  abbrev pub Ends : Log → Option World → Type 0
  Ends log none = Unit
  Ends log (some w) = Keeps log w

  abbrev EndsLoop : Log → Option (Bool × World) → Type 0
  EndsLoop log none = Unit
  EndsLoop log (some (reaped, w)) = Keeps log w

  Keeps-trans : (log : Log) (w w' : World) → Keeps log w → Keeps w.log w' → Keeps log w'
  Keeps-trans log w w' h k = Balanced-trans os ints n held held held _ _ _ h k

  Ends-trans : (log : Log) (w : World) (o : Option World) → Keeps log w → Ends w.log o → Ends log o
  Ends-trans log w none h k = tt
  Ends-trans log w (some w') h k = Keeps-trans log w w' h k

  EndsLoop-trans :
      (log : Log) (w : World) (o : Option (Bool × World))
      → Keeps log w
      → EndsLoop w.log o
      → EndsLoop log o
  EndsLoop-trans log w none h k = tt
  EndsLoop-trans log w (some (reaped, w')) h k = Keeps-trans log w w' h k

  pub sleep_ms-Keeps : (ms : ℕ) (w : World) → Keeps w.log (sleep_ms os ms w)
  unfolding sleep_ms
  sleep_ms-Keeps ms w = elim (Bool-cases (ms == 0)) [
    | inl none_at_all ↦ rw none_at_all
    | inr some_time ↦ rw some_time (syscall-Balanced os ints n _ held w (λ s. refl) refl)
  ]

  gettime-Keeps : (w : World) → Keeps w.log (syscall os (clock_gettime monotonic) w).1
  gettime-Keeps w = syscall-Balanced os ints n _ held w (λ s. refl) refl

  waitpid-Keeps :
      (pid : ℤ) (nohang : Bool) (w : World) → Keeps w.log (syscall os (waitpid pid nohang) w).1
  waitpid-Keeps pid nohang w = syscall-Balanced os ints n _ held w (λ s. refl) refl

  hard_loop-EndsLoop :
      (fuel : ℕ) (pid : ℤ) (hard : ℕ) (w : World) → EndsLoop w.log (hard_loop os fuel pid hard w)
  unfolding hard_loop now_ms
  hard_loop-EndsLoop zero pid hard w = tt
  hard_loop-EndsLoop (suc fuel) pid hard w =
      let w1 : World = (syscall os (clock_gettime monotonic) w).1 in
      let (r, w2) = syscall os (waitpid pid true) w1 in
      let w3 = sleep_ms os 2 w2 in
      let to_w2 = Keeps-trans w.log w1 w2 (gettime-Keeps w) (waitpid-Keeps pid true w1) in
      elim (Bool-cases (ltb (reading os w.log) hard)) [
        | inr out ↦ rw out (gettime-Keeps w)
        | inl running ↦ elim (Bool-cases (r ==ℤ pid)) [
          | inl found ↦ rw (running, found) to_w2
          | inr missed ↦
              rw (running, missed)
                (EndsLoop-trans w.log w3 _ (Keeps-trans w.log w2 w3 to_w2 (sleep_ms-Keeps 2 w2))
                  (hard_loop-EndsLoop fuel pid hard w3))
        ]
      ]

  after_hard-Ends :
      (pid : ℤ) (log : Log) (o : Option (Bool × World))
      → EndsLoop log o
      → Ends log (after_hard os pid o)
  unfolding after_hard
  after_hard-Ends pid log none h = tt
  after_hard-Ends pid log (some (true, w)) h = h
  after_hard-Ends pid log (some (false, w)) h =
      let w1 : World = (syscall os (kill pid kill9) w).1 in
      let w2 : World = (syscall os (waitpid pid false) w1).1 in
      Keeps-trans log w w2 h (
        Keeps-trans w.log w1 w2 (syscall-Balanced os ints n _ held w (λ s. refl) refl)
          (waitpid-Keeps pid false w1))

  give_up-Ends : (pid : ℤ) (w : World) → Ends w.log (give_up os pid w)
  unfolding give_up now_ms
  give_up-Ends pid w =
      let w1 : World = (syscall os (kill pid terminate) w).1 in
      let w2 : World = (syscall os (clock_gettime monotonic) w1).1 in
      let killed = syscall-Balanced os ints n (kill pid terminate) held w (λ s. refl) refl in
      after_hard-Ends pid w.log _ (
        EndsLoop-trans w.log w2 _ (Keeps-trans w.log w1 w2 killed (gettime-Keeps w1))
          (hard_loop-EndsLoop 51 pid ((reading os w1.log + 50) % 2 ^ 64) w2))

  wait_loop-Ends :
      (fuel : ℕ) (pid : ℤ) (deadline : ℕ) (w : World)
      → Ends w.log (wait_loop os fuel pid deadline w)
  unfolding wait_loop now_ms
  wait_loop-Ends zero pid deadline w = tt
  wait_loop-Ends (suc fuel) pid deadline w =
      let (r, w1) = syscall os (waitpid pid true) w in
      let w2 : World = (syscall os (clock_gettime monotonic) w1).1 in
      let w3 = sleep_ms os 1 w2 in
      let to_w2 = Keeps-trans w.log w1 w2 (waitpid-Keeps pid true w) (gettime-Keeps w1) in
      elim (Bool-cases (r ==ℤ pid)) [
        | inl found ↦ rw found (waitpid-Keeps pid true w)
        | inr missed ↦ elim (Bool-cases (leb deadline (reading os w1.log))) [
          | inl late ↦ rw (missed, late) (Ends-trans w.log w2 _ to_w2 (give_up-Ends pid w2))
          | inr early ↦
              rw (missed, early)
                (Ends-trans w.log w3 _ (Keeps-trans w.log w2 w3 to_w2 (sleep_ms-Keeps 1 w2))
                  (wait_loop-Ends fuel pid deadline w3))
        ]
      ]

  pub wait_with_timeout-Ends :
      (pid : ℤ) (timeout_ms : ℕ) (w : World) → Ends w.log (wait_with_timeout os pid timeout_ms w)
  unfolding wait_with_timeout now_ms
  wait_with_timeout-Ends pid timeout_ms w = elim (Bool-cases (timeout_ms == 0)) [
    | inl forever ↦ rw forever (waitpid-Keeps pid false w)
    | inr bounded ↦
        let w1 : World = (syscall os (clock_gettime monotonic) w).1 in
        rw bounded (
          Ends-trans w.log w1 _ (gettime-Keeps w)
            (wait_loop-Ends (timeout_ms + 1) pid ((reading os w.log + timeout_ms) % 2 ^ 64) w1))
  ]
