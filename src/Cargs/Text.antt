-- ===== src/Cargs/Text.antt =====
-- The tests and conversions of texts of src/cargs.hpp. The template argument `FLAG` is the dash.
pub mod Dashes
pub mod Integers
use bbench.Base.{
  ℕ, zero, suc, ◌+◌, ◌-◌, ◌*◌, ◌^◌, ◌==◌, Bool, true, false, not, ◌&&◌, ◌||◌, List, [], ◌∷◌, Option,
  none, some, ltb, if◌then◌else◌,
}
use bbench.Base.Int.{ℤ, pos}
use bbench.Base.Float.{Float}
use bbench.Base.Text.{CString}
use bbench.Cli.Number.{is_digit, i64_limit, digit_loop, store, IntResult, value}

abbrev pub is_dash : ℕ → Bool
is_dash c = c == b'-'

-- `while ( *s == ' ' || *s == '\t' ) ++s;`
unfoldable pub skip_blanks : CString → CString
skip_blanks [] = []
skip_blanks (c ∷ s) = let rest = skip_blanks s in if c == b' ' || c == 9 then rest else c ∷ s

-- A sign in front: whether it is a minus, and what follows.
unfoldable pub take_sign : CString → Bool × CString
take_sign [] = (false, [])
take_sign (c ∷ s) =
    if c == b'-' then (true, s) else if c == b'+' then (false, s) else (false, c ∷ s)

-- `__to_i64`: a text without digits is 0. The digits are read as in `parse_int` of the tools.
unfoldable pub to_i64_text : Option CString → IntResult
to_i64_text none = value (pos 0)
to_i64_text (some s) = let (neg, t) = take_sign (skip_blanks s) in store neg (digit_loop 0 t)

module _ (fl : Float) where
  open fl use {Double, of_ℕ, tenth, negate, add, mul, div}

  -- The digits in front of the point: the value and what follows.
  unfoldable pub whole_loop : Double → CString → Double × CString
  whole_loop acc [] = (acc, [])
  whole_loop acc (c ∷ s) =
      let more = whole_loop (add (mul acc (of_ℕ 10)) (of_ℕ (c - b'0'))) s in
      if is_digit c then more else (acc, c ∷ s)

  -- The digits behind it.
  unfoldable pub fraction_loop : Double → Double → CString → Double × CString
  fraction_loop acc frac [] = (acc, [])
  fraction_loop acc frac (c ∷ s) =
      let more = fraction_loop (add acc (mul (of_ℕ (c - b'0')) frac)) (mul frac tenth) s in
      if is_digit c then more else (acc, c ∷ s)

  -- The digits of the exponent, which is an `i32`: `none` where it overflows.
  unfoldable pub exponent_loop : ℕ → CString → Option ℕ
  exponent_loop exp [] = some exp
  exponent_loop exp (c ∷ s) =
      let exp' = exp * 10 + (c - b'0') in
      let more = exponent_loop exp' s in
      if is_digit c then (if ltb exp' (2 ^ 31) then more else none) else some exp

  -- `for ( i32 i = 0; i < exp; ++i ) p *= 10.0;`
  unfoldable pub power_loop : ℕ → Double → Double
  power_loop zero p = p
  power_loop (suc i) p = power_loop i (mul p (of_ℕ 10))

  abbrev pub scale_by : Bool → Double → Option ℕ → Option Double
  scale_by eneg acc none = none
  scale_by eneg acc (some exp) =
      let p = power_loop exp (of_ℕ 1) in some (if eneg then div acc p else mul acc p)

  unfoldable pub take_fraction : Double → CString → Double × CString
  take_fraction acc [] = (acc, [])
  take_fraction acc (c ∷ s) = if c == b'.' then fraction_loop acc tenth s else (acc, c ∷ s)

  unfoldable pub take_exponent : Double → CString → Option Double
  take_exponent acc [] = some acc
  take_exponent acc (c ∷ s) =
      let (eneg, t) = take_sign s in
      if c == b'e' || c == b'E' then scale_by eneg acc (exponent_loop 0 t) else some acc

  abbrev pub with_sign : Bool → Option Double → Option Double
  with_sign neg none = none
  with_sign neg (some acc) = some (if neg then negate acc else acc)

  -- `__to_f64`; `none` where the exponent overflows.
  unfoldable pub to_f64_text : Option CString → Option Double
  to_f64_text none = some (of_ℕ 0)
  to_f64_text (some s) =
      let (neg, t) = take_sign (skip_blanks s) in
      let (acc, t1) = whole_loop (of_ℕ 0) t in
      let (acc1, t2) = take_fraction acc t1 in with_sign neg (take_exponent acc1 t2)

-- `number`, of a text that is no null pointer.
unfoldable pub number : CString → Bool
number [] = true
number (c ∷ s) = let rest = number s in if not (is_digit c) && not (c == b'.') then false else rest

-- `empty`: dashes only.
unfoldable pub empty : CString → Bool
empty [] = true
empty (c ∷ s) = let rest = empty s in if not (is_dash c) then false else rest

-- `param`
unfoldable pub param : CString → Bool
param [] = false
param (c ∷ s) = is_dash c

-- The loop of `flag`; `seen` says whether `c` has counted a dash.
unfoldable pub flag_loop : Bool → CString → Bool
flag_loop seen [] = false
flag_loop seen (c ∷ s) =
    let next = flag_loop true s in
    let rest = flag_loop seen s in if is_dash c then (if seen then true else next) else rest

unfoldable pub flag : CString → Bool
flag s = flag_loop false s

-- `trim`
unfoldable pub trim : CString → CString
trim [] = []
trim (c ∷ s) = let rest = trim s in if is_dash c then rest else c ∷ s
