-- ===== src/Cli/Number.antt =====
-- `parse_int` of tools/bbench.cpp and of tools/btime.cpp, and the digit loop that both contain.
pub mod Decimal
pub mod Range
use bbench.Base.{
  ℕ, ◌+◌, ◌-◌, ◌*◌, ◌^◌, Bool, true, false, ◌&&◌, ◌||◌, List, [], ◌∷◌, Option, none, some, leb, ltb,
  ◌==◌, if◌then◌else◌,
}
use bbench.Base.Int.{ℤ, pos, neg}
use bbench.Base.Text.{CString}

-- `*s >= '0' && *s <= '9'`; the terminating NUL fails it.
unfoldable pub is_digit : ℕ → Bool
is_digit c = leb b'0' c && leb c b'9'

-- 2^63, the first magnitude that a `long long` cannot hold.
abbrev pub i64_limit : ℕ
i64_limit = 2 ^ 63

-- What a call leaves: `false`, or `true` with the number in `out`. `overflow` stands for a step
-- `v * 10 + (*s - '0')` beyond the range of `long long`, whose behaviour C++ does not define.
pub data IntResult : Type 0 where
  refused : IntResult
  value : ℤ → IntResult
  overflow : IntResult

-- `while (*s >= '0' && *s <= '9') { v = v * 10 + (*s - '0'); ++s; }`, the value of `v` behind it.
unfoldable pub digit_loop : ℕ → CString → Option ℕ
digit_loop v [] = some v
digit_loop v (c ∷ s) =
    let v' = v * 10 + (c - b'0') in
    let rest = digit_loop v' s in
    if is_digit c then (if ltb v' i64_limit then rest else none) else some v

-- `out = neg ? -v : v; return true`
abbrev pub store : Bool → Option ℕ → IntResult
store negative none = overflow
store true (some v) = value (neg v)
store false (some v) = value (pos v)

-- The test that a digit stands here, then the loop from 0.
unfoldable pub read_digits : Bool → CString → IntResult
read_digits negative [] = refused
read_digits negative (c ∷ s) = if is_digit c then store negative (digit_loop 0 (c ∷ s)) else refused

-- `if (*s == '-') { neg = true; ++s; } else if (*s == '+') ++s;`
unfoldable pub read_sign : CString → IntResult
read_sign [] = read_digits false []
read_sign (c ∷ s) =
    if c == b'-'
    then read_digits true s
    else if c == b'+'
    then read_digits false s
    else read_digits false (c ∷ s)

-- `while (*s == ' ') ++s;`
unfoldable pub skip_spaces : CString → CString
skip_spaces [] = []
skip_spaces (c ∷ s) = let rest = skip_spaces s in if c == b' ' then rest else c ∷ s

-- `parse_int` of bbench, at a string that is no null pointer.
unfoldable pub parse_int : CString → IntResult
parse_int [] = refused
parse_int (c ∷ s) = read_sign (skip_spaces (c ∷ s))

-- `parse_int` of btime, which skips no spaces.
unfoldable pub parse_int_btime : CString → IntResult
parse_int_btime [] = refused
parse_int_btime (c ∷ s) = read_sign (c ∷ s)
