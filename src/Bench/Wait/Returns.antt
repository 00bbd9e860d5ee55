-- ===== src/Bench/Wait/Returns.antt =====
-- `__wait_with_timeout` returns, and the child has been waited for.
use bbench.Base.{
  ℕ, zero, suc, ◌+◌, ◌*◌, ◌-◌, ◌%◌, ◌^◌, ◌≤◌, ◌<◌, ◌≡◌, refl, ◌⊎◌, inl, inr, Bool, true, false,
  List, ◌∷◌, some, arith, ltb, leb, ◌==◌, Bool-cases, ltb→lt,
}
use bbench.Base.Int.{ℤ, pos, ◌==ℤ◌, ==ℤ_iff}
use bbench.Perf.Sys.{
  monotonic, terminate, kill9, Entry, Log, Os, World, waitpid, kill, nanosleep, clock_gettime,
  syscall,
}
use bbench.Bench.Wait.{
  sleep_ms, reading, now_ms, hard_loop, after_hard, give_up, wait_loop, wait_with_timeout,
}

-- The monotonic clock: it never runs back, and it has gone on behind a sleep of at least one
-- millisecond, which no signal cuts short, unless it stands at the last one that 64 bits can hold.
pub record IsMonotonic (os : Os) : Type 0 where
  pub onwards : (log : Log) (e : Entry) → reading os log ≤ reading os (e ∷ log)
  pub asleep :
      (log : Log) (sec nsec : ℕ) (r : ℤ)
      → 1000000 ≤ nsec
      → reading os log < 2 ^ 64 - 1
      → let call = nanosleep (record { tv_sec = pos sec; tv_nsec = pos nsec }) in
        reading os log < reading os (record { call = call; reply = r } ∷ log)

-- The last call waited for the child until its end, or found that it had ended.
abbrev pub IsWaited : ℤ → Log → Type 0
IsWaited pid log =
    (e : Entry) × (before : List Entry) × (log ≡ e ∷ before)
    × ((e.call ≡ waitpid pid false) ⊎ ((e.call ≡ waitpid pid true) × (e.reply ≡ pid)))

module _ (os : Os) (clock : IsMonotonic os) (pid : ℤ) where
  syscall_onwards : (c : _) (w : World) → reading os w.log ≤ reading os (syscall os c w).1.log
  unfolding syscall
  syscall_onwards c w = clock.onwards w.log _

  sleep_ms_asleep :
      (ms : ℕ) (w : World)
      → (ms == 0) ≡ false
      → ms < 1000
      → (reading os w.log ≤ reading os (sleep_ms os ms w).log)
        × (reading os w.log < 2 ^ 64 - 1 → reading os w.log < reading os (sleep_ms os ms w).log)
  unfolding sleep_ms syscall
  sleep_ms_asleep ms w h k =
      let long : 1000000 ≤ ms % 1000 * 1000000 = ground arith in
      rw h (clock.onwards w.log _, clock.asleep w.log _ _ _ long)

  IsWaited-found :
      (w : World)
      → ((syscall os (waitpid pid true) w).0 ==ℤ pid) ≡ true
      → IsWaited pid (syscall os (waitpid pid true) w).1.log
  unfolding syscall
  IsWaited-found w h = (_, _, refl, inr (refl, (==ℤ_iff _ pid).0 h))

  IsWaited-blocking : (w : World) → IsWaited pid (syscall os (waitpid pid false) w).1.log
  unfolding syscall
  IsWaited-blocking w = (_, _, refl, inl refl)

  -- A round that ends in a sleep brings a bound nearer by one.
  round_nearer :
      (bound fuel ms : ℕ) (w w2 : World)
      → (ms == 0) ≡ false
      → ms < 1000
      → bound < 2 ^ 64
      → bound < reading os w.log + suc fuel
      → reading os w.log < bound
      → reading os w.log ≤ reading os w2.log
      → bound < reading os (sleep_ms os ms w2).log + fuel
  round_nearer bound fuel ms w w2 z y b f h k =
      let (onwards, asleep) = sleep_ms_asleep ms w2 z y in
      elim (Bool-cases (ltb (reading os w2.log) bound)) [
        | inl before ↦
            let before' = ltb→lt (reading os w2.log) bound before in
            let next = asleep (omega arith) in omega arith
        | inr behind ↦ ground (arith, onwards, k, f, h)
      ]

  hard_loop-returns :
      (fuel hard : ℕ) (w : World)
      → hard < 2 ^ 64
      → 0 < fuel
      → hard < reading os w.log + fuel
      → (reaped : Bool) × (w' : World) × (hard_loop os fuel pid hard w ≡ some (reaped, w'))
        × ((reaped ≡ true) → IsWaited pid w'.log)
  unfolding hard_loop now_ms
  hard_loop-returns zero hard w b z f = absurd (omega arith)
  hard_loop-returns (suc fuel) hard w b z f =
      let (now, w1) = now_ms os w in
      let (r, w2) = syscall os (waitpid pid true) w1 in
      elim (Bool-cases (ltb now hard)) [
        | inr out ↦ (false, w1, rw out, λ e. cc)
        | inl running ↦ elim (Bool-cases (r ==ℤ pid)) [
          | inl found ↦ (true, w2, rw (running, found), λ e. IsWaited-found w1 found)
          | inr missed ↦
              let still = ltb→lt now hard running in
              let first = syscall_onwards (clock_gettime monotonic) w in
              let second = syscall_onwards (waitpid pid true) w1 in
              rw (running, missed)
                (hard_loop-returns fuel hard (sleep_ms os 2 w2) b (omega arith)
                  (round_nearer hard fuel 2 w w2 refl (omega arith) b f still (omega arith)))
        ]
      ]

  after_hard-returns :
      (reaped : Bool) (w : World)
      → ((reaped ≡ true) → IsWaited pid w.log)
      → (w' : World) × (after_hard os pid (some (reaped, w)) ≡ some w') × IsWaited pid w'.log
  unfolding after_hard
  after_hard-returns true w h = (w, refl, h refl)
  after_hard-returns false w h = (_, refl, IsWaited-blocking (syscall os (kill pid kill9) w).1)

  -- Whatever the time is, the second loop ends within 51 rounds.
  give_up-returns : (w : World) → (w' : World) × (give_up os pid w ≡ some w') × IsWaited pid w'.log
  unfolding give_up now_ms
  give_up-returns w =
      let w1 : World = (syscall os (kill pid terminate) w).1 in
      let now = reading os w1.log in
      let w2 : World = (syscall os (clock_gettime monotonic) w1).1 in
      let onwards = syscall_onwards (clock_gettime monotonic) w1 in
      let (reaped, w3, done, waited) =
        hard_loop-returns 51 ((now + 50) % 2 ^ 64) w2 (omega arith) (omega arith) (omega arith) in
      rw done (after_hard-returns reaped w3 waited)

  wait_loop-returns :
      (fuel deadline : ℕ) (w : World)
      → deadline < 2 ^ 64
      → 0 < fuel
      → deadline < reading os w.log + fuel
      → (w' : World) × (wait_loop os fuel pid deadline w ≡ some w') × IsWaited pid w'.log
  unfolding wait_loop now_ms
  wait_loop-returns zero deadline w b z f = absurd (omega arith)
  wait_loop-returns (suc fuel) deadline w b z f =
      let (r, w1) = syscall os (waitpid pid true) w in
      let now = reading os w1.log in
      let w2 : World = (syscall os (clock_gettime monotonic) w1).1 in
      let first = syscall_onwards (waitpid pid true) w in
      let second = syscall_onwards (clock_gettime monotonic) w1 in
      elim (Bool-cases (r ==ℤ pid)) [
        | inl found ↦ (w1, rw found, IsWaited-found w found)
        | inr missed ↦ elim (Bool-cases (leb deadline now)) [
          | inl late ↦ rw (missed, late) (give_up-returns w2)
          | inr early ↦
              let still : now < deadline = ground arith in
              rw (missed, early)
                (wait_loop-returns fuel deadline (sleep_ms os 1 w2) b (omega arith) (
                  round_nearer deadline fuel 1 w1 w2 refl (omega arith) b (omega arith) still
                    second))
        ]
      ]

-- On every operating system with a monotonic clock, and whatever else its calls return,
-- `__wait_with_timeout` returns within `timeout_ms` + 1 rounds of its loop and 51 of the inner one,
-- and its last call has waited for the child or found that it had ended.
pub wait_with_timeout-IsWaited :
    (os : Os) (pid : ℤ) (timeout_ms : ℕ) (w : World)
    → IsMonotonic os
    → (w' : World) × (wait_with_timeout os pid timeout_ms w ≡ some w') × IsWaited pid w'.log
unfolding wait_with_timeout now_ms
wait_with_timeout-IsWaited os pid timeout_ms w clock =
    let now = reading os w.log in
    let w1 : World = (syscall os (clock_gettime monotonic) w).1 in
    let onwards = syscall_onwards os clock pid (clock_gettime monotonic) w in
    elim (Bool-cases (timeout_ms == 0)) [
      | inl forever ↦ rw forever (_, refl, IsWaited-blocking os clock pid w)
      | inr bounded ↦ rw bounded (
          wait_loop-returns os clock pid (timeout_ms + 1) ((now + timeout_ms) % 2 ^ 64) w1
            (omega arith) (omega arith) (omega arith))
    ]
