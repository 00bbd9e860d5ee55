-- ===== src/Bench/Wait.antt =====
-- `__sleep_ms`, `__now_ms` and `__wait_with_timeout` of src/bench.hpp.
pub mod Returns
pub mod Balance
use bbench.Base.{
  ℕ, zero, suc, ◌+◌, ◌*◌, ◌/◌, ◌%◌, ◌^◌, Bool, true, false, Option, none, some, ltb, leb, ◌==◌,
  if◌then◌else◌,
}
use bbench.Base.Int.{ℤ, pos, ◌==ℤ◌, to_u64}
use bbench.Perf.Sys.{
  Timespec, monotonic, terminate, kill9, Log, Os, World, waitpid, kill, nanosleep, clock_gettime,
  syscall,
}

-- `timespec_t t{}`
abbrev pub zero_time : Timespec
zero_time = record { tv_sec = pos 0; tv_nsec = pos 0 }

module _ (os : Os) where
  -- `__sleep_ms(ms)`
  unfoldable pub sleep_ms : ℕ → World → World
  sleep_ms ms w =
      let req : Timespec = record {
        tv_sec = pos (ms / 1000);
        tv_nsec = pos (ms % 1000 * 1000000);
      } in
      if ms == 0 then w else (syscall os (nanosleep req) w).1

  -- What `__now_ms` computes from the time that it is given, in 64 bits.
  unfoldable pub reading : Log → ℕ
  reading log =
      let t = os.time log monotonic zero_time in
      (to_u64 t.tv_sec * 1000 % 2 ^ 64 + to_u64 t.tv_nsec / 1000000) % 2 ^ 64

  -- `__now_ms()`
  unfoldable pub now_ms : World → ℕ × World
  now_ms w = (reading w.log, (syscall os (clock_gettime monotonic) w).1)

  -- The `while` loop behind the first signal: whether the child was reaped. `none` stands for a loop
  -- that goes on when the fuel is spent.
  unfoldable pub hard_loop : ℕ → ℤ → ℕ → World → Option (Bool × World)
  hard_loop zero pid hard w = none
  hard_loop (suc fuel) pid hard w =
      let (now, w1) = now_ms w in
      let (r, w2) = syscall os (waitpid pid true) w1 in
      let rest = hard_loop fuel pid hard (sleep_ms 2 w2) in
      if ltb now hard then (if r ==ℤ pid then some (true, w2) else rest) else some (false, w1)

  -- What follows the `while` loop.
  unfoldable pub after_hard : ℤ → Option (Bool × World) → Option World
  after_hard pid none = none
  after_hard pid (some (true, w)) = some w
  after_hard pid (some (false, w)) =
      let (_, w1) = syscall os (kill pid kill9) w in some (syscall os (waitpid pid false) w1).1

  -- The body of `if ( __now_ms() >= deadline )`.
  unfoldable pub give_up : ℤ → World → Option World
  give_up pid w =
      let (_, w1) = syscall os (kill pid terminate) w in
      let (now, w2) = now_ms w1 in after_hard pid (hard_loop 51 pid ((now + 50) % 2 ^ 64) w2)

  -- The endless loop.
  unfoldable pub wait_loop : ℕ → ℤ → ℕ → World → Option World
  wait_loop zero pid deadline w = none
  wait_loop (suc fuel) pid deadline w =
      let (r, w1) = syscall os (waitpid pid true) w in
      let (now, w2) = now_ms w1 in
      let rest = wait_loop fuel pid deadline (sleep_ms 1 w2) in
      if r ==ℤ pid then some w1 else if leb deadline now then give_up pid w2 else rest

  -- `__wait_with_timeout(pid, timeout_ms)`
  unfoldable pub wait_with_timeout : ℤ → ℕ → World → Option World
  wait_with_timeout pid timeout_ms w =
      let (now, w1) = now_ms w in
      if timeout_ms == 0
      then some (syscall os (waitpid pid false) w).1
      else wait_loop (timeout_ms + 1) pid ((now + timeout_ms) % 2 ^ 64) w1
