-- ===== src/Tests/Machine.antt =====
-- A concrete float type, kernel interface and operating system for the tests.
use bbench.Base.{ℕ, ◌+◌, ◌-◌, ◌*◌, ◌/◌, arith, refl, length, ltb, leb}
use bbench.Base.Int.{ℤ, pos, pos_part}
use bbench.Base.Float.{Float}
use bbench.Perf.Abi.{
  PerfAbi, PerfType, CacheId, CacheOp, CacheResult, l1d, l1i, ll, dtlb, itlb, bpu, node, op_read,
  op_write, op_prefetch, result_access, result_miss,
}
use bbench.Perf.Sys.{Call, perf_event_open, fork, Log, Os}
use bbench.Perf.KernelClock.Balance.{ReturnsInt}

-- Whole numbers for doubles.
abbrev pub plain_float : Float
plain_float = record {
  Double = ℕ;
  of_ℕ = λ n. n;
  of_ℤ = λ z. pos_part z;
  to_i64 = λ n. pos n;
  half = 0;
  tenth = 0;
  negate = λ x. x;
  add = λ a b. a + b;
  sub = λ a b. a - b;
  mul = λ a b. a * b;
  div = λ a b. a / b;
  less = ltb;
  less_equal = leb;
}

type_number : PerfType → ℕ
type_number PerfType.hardware = 0
type_number PerfType.software = 1
type_number PerfType.tracepoint = 2
type_number PerfType.hw_cache = 3
type_number PerfType.raw = 4

cache_number : CacheId → ℕ
cache_number l1d = 0
cache_number l1i = 1
cache_number ll = 2
cache_number dtlb = 3
cache_number itlb = 4
cache_number bpu = 5
cache_number node = 6

abbrev op_number : CacheOp → ℕ
op_number op_read = 0
op_number op_write = 1
op_number op_prefetch = 2

abbrev result_number : CacheResult → ℕ
result_number result_access = 0
result_number result_miss = 1

unfoldable pub plain_abi : PerfAbi
unfolding type_number cache_number
plain_abi = record {
  type_of = type_number;
  hw = λ _. 0;
  sw = λ _. 0;
  cache = cache_number;
  op = op_number;
  result = result_number;
  sizeof_attr = 128;
  total_time_enabled = 1;
  total_time_running = 2;
  read_is_zero = refl;
  access_is_zero = refl;
}

-- Descriptors count up from 3 with the calls; every other call returns 0, and a counter reads 6 in
-- 3 of 5 nanoseconds.
abbrev answer : Log → Call → ℤ
answer log (perf_event_open _ _ _ _ _) = pos 3
answer log fork = pos 77
answer log _ = pos 0

abbrev pub plain_os : Os
plain_os = record {
  reply = answer;
  counter = λ _ _ _. record { value = 6; time_enabled = 5; time_running = 3 };
  time = λ log _ _. record { tv_sec = pos (length log); tv_nsec = pos 0 };
  pipe = λ _. (pos 8, pos 9);
  child = λ _. pos 0;
}

pub plain_os-ReturnsInt : ReturnsInt plain_os
plain_os-ReturnsInt log a pid cpu group flags = omega arith
