-- ===== src/Cli/Number/Range.antt =====
-- The range of the numbers that `parse_int` returns.
use bbench.Base.{
  ℕ, zero, suc, ◌+◌, ◌-◌, ◌*◌, ◌<◌, Bool, true, false, [], ◌∷◌, Option, none, some, arith,
}
use bbench.Base.Int.{ℤ, pos, negsuc}
use bbench.Base.Text.{CString}
use bbench.Cli.Number.{
  IntResult, value, i64_limit, digit_loop, store, read_digits, read_sign, skip_spaces, parse_int,
  parse_int_btime,
}

-- The magnitude is below 2^63.
abbrev pub FitsI64 : ℤ → Type 0
FitsI64 (pos n) = n < i64_limit
FitsI64 (negsuc n) = n + 1 < i64_limit

abbrev pub FitsResult : IntResult → Type 0
FitsResult (value z) = FitsI64 z
FitsResult _ = Unit

abbrev Below : Option ℕ → Type 0
Below none = Unit
Below (some n) = n < i64_limit

digit_loop-Below : (s : CString) (v : ℕ) → v < i64_limit → Below (digit_loop v s)
unfolding digit_loop
digit_loop-Below [] v h = h
digit_loop-Below (c ∷ s) v h = ground (arith, digit_loop-Below s (v * 10 + (c - b'0')))

store-FitsResult : (negative : Bool) (r : Option ℕ) → Below r → FitsResult (store negative r)
store-FitsResult negative none h = tt
store-FitsResult true (some zero) h = omega arith
store-FitsResult true (some (suc n)) h = omega arith
store-FitsResult false (some n) h = h

read_digits-FitsResult : (negative : Bool) (s : CString) → FitsResult (read_digits negative s)
unfolding read_digits
read_digits-FitsResult negative [] = tt
read_digits-FitsResult negative (c ∷ s) =
    ground (arith, store-FitsResult negative (digit_loop 0 (c ∷ s)), digit_loop-Below (c ∷ s) 0)

read_sign-FitsResult : (s : CString) → FitsResult (read_sign s)
unfolding read_sign
read_sign-FitsResult [] = read_digits-FitsResult false []
read_sign-FitsResult (c ∷ s) = ground (
  arith,
  read_digits-FitsResult true s,
  read_digits-FitsResult false s,
  read_digits-FitsResult false (c ∷ s),
)

pub parse_int-FitsResult : (s : CString) → FitsResult (parse_int s)
unfolding parse_int
parse_int-FitsResult [] = tt
parse_int-FitsResult (c ∷ s) = read_sign-FitsResult (skip_spaces (c ∷ s))

pub parse_int_btime-FitsResult : (s : CString) → FitsResult (parse_int_btime s)
unfolding parse_int_btime
parse_int_btime-FitsResult [] = tt
parse_int_btime-FitsResult (c ∷ s) = read_sign-FitsResult (c ∷ s)
