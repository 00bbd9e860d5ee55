-- ===== src/Cli/Number/Decimal.antt =====
-- What the digit loop computes, against the positional value of a run of digits.
use bbench.Base.{
  ℕ, zero, suc, ◌+◌, ◌-◌, ◌*◌, ◌^◌, ◌≤◌, ◌<◌, ◌≡◌, ◌≢◌, refl, ap, ◌∙◌, Bool, true, false, [], ◌∷◌,
  ◌++◌, none, some, arith, ltb, ltb→lt, lt→ltb, length, All, ◌==◌, if◌then◌else◌, Bool-cases, inl,
  inr,
}
use native.Mathlib.Nat.{pow-succ', le_trans}
use bbench.Base.Text.{CString}
use bbench.Cli.Number.{
  IntResult, is_digit, i64_limit, digit_loop, store, read_digits, read_sign, skip_spaces, parse_int,
}

abbrev pub IsDigits : CString → Type 0
IsDigits = All (λ c. is_digit c ≡ true)

-- The number that a run of digits writes, by the weight of each place.
unfoldable pub decimal : CString → ℕ
decimal [] = 0
decimal (c ∷ s) = (c - b'0') * 10 ^ length s + decimal s

-- No digit follows.
abbrev pub EndsDigits : CString → Type 0
EndsDigits [] = Unit
EndsDigits (c ∷ s) = is_digit c ≡ false

digit_loop_end : (v : ℕ) (rest : CString) → EndsDigits rest → digit_loop v rest ≡ some v
unfolding digit_loop
digit_loop_end v [] e = refl
digit_loop_end v (c ∷ s) e = rw e

shift_place : (v t p d : ℕ) → v * (10 * p) + (t * p + d) ≡ (v * 10 + t) * p + d
shift_place v t p d = omega arith

pow10_pos : (k : ℕ) → 1 ≤ 10 ^ k
pow10_pos zero = omega arith
pow10_pos (suc k) = omega (arith, pow10_pos k, pow-succ' 10 k)

total_step :
    (v c : ℕ) (s : CString)
    → v * 10 ^ length (c ∷ s) + decimal (c ∷ s) ≡ (v * 10 + (c - b'0')) * 10 ^ length s + decimal s
unfolding decimal
total_step v c s =
    rw (pow-succ' 10 (length s))
      (omega (arith, shift_place v (c - b'0') (10 ^ length s) (decimal s)))

le-scaled : (v p d : ℕ) → 1 ≤ p → v ≤ v * p + d
le-scaled v p d h = grind arith

ltb-false→le : (a b : ℕ) → ltb a b ≡ false → b ≤ a
ltb-false→le a b h = ground arith

ltb-false : (a b : ℕ) → b ≤ a → ltb a b ≡ false
ltb-false a b h = ground arith

-- From the value `v` the loop ends with `v` followed by the digits, unless that passes the range.
pub digit_loop-decimal :
    (v : ℕ) (s rest : CString)
    → IsDigits s
    → EndsDigits rest
    → v < i64_limit
    → let total = v * 10 ^ length s + decimal s in
      digit_loop v (s ++ rest) ≡ (if ltb total i64_limit then some total else none)
unfolding digit_loop decimal
digit_loop-decimal v [] rest d e h =
    let same_total : v * 1 + 0 ≡ v = omega arith in
    rw (same_total, digit_loop_end v rest e, lt→ltb v i64_limit h)
digit_loop-decimal v (c ∷ s) rest d e h = elim (Bool-cases (ltb (v * 10 + (c - b'0')) i64_limit)) [
  | inl fits ↦
      rw (d.0, fits, total_step v c s)
        (digit_loop-decimal (v * 10 + (c - b'0')) s rest d.1 e (ltb→lt _ _ fits))
  | inr over ↦ rw (
    d.0,
    over,
    total_step v c s,
    ltb-false _ i64_limit (
        le_trans (ltb-false→le _ _ over)
          (le-scaled _ (10 ^ length s) (decimal s) (pow10_pos (length s)))),
  )
]

zero-mul-add : (p d : ℕ) → 0 * p + d ≡ d
zero-mul-add p d = omega arith

digit-ne : (c k : ℕ) → is_digit c ≡ true → k < b'0' → (c == k) ≡ false
unfolding is_digit
digit-ne c k d h = ground arith

pub data Sign : Type 0 where
  minus plus unsigned : Sign

abbrev pub sign_text : Sign → CString
sign_text minus = b'-' ∷ []
sign_text plus = b'+' ∷ []
sign_text unsigned = []

abbrev pub is_minus : Sign → Bool
is_minus minus = true
is_minus _ = false

abbrev pub spaces : ℕ → CString → CString
spaces zero s = s
spaces (suc n) s = b' ' ∷ spaces n s

-- The result that a sign and a magnitude call for.
abbrev pub signed : Sign → ℕ → IntResult
signed sign n = store (is_minus sign) (if ltb n i64_limit then some n else none)

-- A run of digits, not empty, behind an optional sign.
abbrev pub Numeral : CString → Type 0
Numeral s = IsDigits s × (s ≢ [])

read_digits-decimal :
    (negative : Bool) (s rest : CString)
    → Numeral s
    → EndsDigits rest
    → read_digits negative (s ++ rest)
      ≡ store negative (if ltb (decimal s) i64_limit then some (decimal s) else none)
unfolding read_digits
read_digits-decimal negative [] rest n e = absurd (n.1 refl)
read_digits-decimal negative (c ∷ s) rest n e =
    rw (n.0.0, digit_loop-decimal 0 (c ∷ s) rest n.0 e (omega arith), zero-mul-add _ _)

read_sign-decimal :
    (sign : Sign) (s rest : CString)
    → Numeral s
    → EndsDigits rest
    → read_sign (sign_text sign ++ s ++ rest) ≡ signed sign (decimal s)
unfolding read_sign
read_sign-decimal minus s rest n e = read_digits-decimal true s rest n e
read_sign-decimal plus s rest n e = read_digits-decimal false s rest n e
read_sign-decimal unsigned [] rest n e = absurd (n.1 refl)
read_sign-decimal unsigned (c ∷ s) rest n e =
    rw (digit-ne c b'-' n.0.0 (omega arith), digit-ne c b'+' n.0.0 (omega arith))
      (read_digits-decimal false (c ∷ s) rest n e)

skip_spaces-spaces : (k : ℕ) (s : CString) → skip_spaces (spaces k s) ≡ skip_spaces s
unfolding skip_spaces
skip_spaces-spaces zero s = refl
skip_spaces-spaces (suc k) s = skip_spaces-spaces k s

skip_spaces-sign_text :
    (sign : Sign) (s rest : CString)
    → Numeral s
    → skip_spaces (sign_text sign ++ s ++ rest) ≡ sign_text sign ++ s ++ rest
unfolding skip_spaces
skip_spaces-sign_text minus s rest n = refl
skip_spaces-sign_text plus s rest n = refl
skip_spaces-sign_text unsigned [] rest n = absurd (n.1 refl)
skip_spaces-sign_text unsigned (c ∷ s) rest n = rw (digit-ne c b' ' n.0.0 (omega arith))

parse_int-read_sign : (s : CString) → parse_int s ≡ read_sign (skip_spaces s)
unfolding parse_int skip_spaces read_sign read_digits
parse_int-read_sign [] = refl
parse_int-read_sign (c ∷ s) = refl

pub parse_int-decimal :
    (k : ℕ) (sign : Sign) (s rest : CString)
    → Numeral s
    → EndsDigits rest
    → parse_int (spaces k (sign_text sign ++ s ++ rest)) ≡ signed sign (decimal s)
parse_int-decimal k sign s rest n e =
    parse_int-read_sign _
    ∙ ap read_sign (skip_spaces-spaces k _ ∙ skip_spaces-sign_text sign s rest n)
    ∙ read_sign-decimal sign s rest n e
