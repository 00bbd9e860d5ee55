-- ===== src/Cli/Argv/Show.antt =====
-- Numbers written in decimal, and that `parse_int` reads them back.
use native.Mathlib.Nat.{pow-succ'}
use mathlib.Core.List.{append-nil}
use bbench.Base.{
  ℕ, zero, suc, ◌+◌, ◌-◌, ◌*◌, ◌/◌, ◌%◌, ◌^◌, ◌<◌, ◌≡◌, ◌≢◌, List, [], ◌∷◌, ◌++◌, arith, length,
  length-append, ltb, lt→ltb, ltb→lt, Bool-cases, inl, inr, if◌then◌else◌,
}
use bbench.Base.Int.{pos}
use bbench.Base.Text.{CString}
use bbench.Cli.Number.{value, is_digit, i64_limit, parse_int}
use bbench.Cli.Number.Decimal.{IsDigits, decimal, Numeral, unsigned, parse_int-decimal}

-- The decimal digits of `n`, on fuel above `n`.
show_fuel : ℕ → ℕ → CString
show_fuel zero n = []
show_fuel (suc f) n =
    let front = show_fuel f (n / 10) in
    if ltb n 10 then (b'0' + n) ∷ [] else front ++ (b'0' + n % 10) ∷ []

unfoldable pub show : ℕ → CString
unfolding show_fuel
show n = show_fuel (suc n) n

IsDigits-append : (s t : CString) → IsDigits s → IsDigits t → IsDigits (s ++ t)
IsDigits-append [] t h k = k
IsDigits-append (c ∷ s) t h k = (h.0, IsDigits-append s t h.1 k)

digit-IsDigits : (d : ℕ) → d < 10 → IsDigits ((b'0' + d) ∷ [])
unfolding is_digit
digit-IsDigits d h = ground arith

shift_places : (t p d e : ℕ) → t * (10 * p) + (d * 10 + e) ≡ (t * p + d) * 10 + e
shift_places t p d e = omega arith

length-snoc : (s : CString) (c : ℕ) → length (s ++ c ∷ []) ≡ suc (length s)
length-snoc s c = omega (arith, length-append s (c ∷ []))

decimal-snoc : (s : CString) (d : ℕ) → decimal (s ++ (b'0' + d) ∷ []) ≡ decimal s * 10 + d
unfolding decimal
decimal-snoc [] d = omega arith
decimal-snoc (c ∷ s) d =
    rw (length-snoc s (b'0' + d), pow-succ' 10 (length s), decimal-snoc s d)
      (shift_places (c - b'0') (10 ^ length s) (decimal s) d)

show_fuel-IsDigits : (f n : ℕ) → n < f → IsDigits (show_fuel f n)
unfolding show_fuel
show_fuel-IsDigits zero n h = absurd (omega arith)
show_fuel-IsDigits (suc f) n h = elim (Bool-cases (ltb n 10)) [
  | inl small ↦ rw small (digit-IsDigits n (ltb→lt n 10 small))
  | inr big ↦ rw big (
      IsDigits-append (show_fuel f (n / 10)) _ (show_fuel-IsDigits f (n / 10) (ground arith))
        (digit-IsDigits (n % 10) (omega arith)))
]

decimal-digit : (d : ℕ) → decimal ((b'0' + d) ∷ []) ≡ d
unfolding decimal
decimal-digit d = omega arith

decimal-show_fuel : (f n : ℕ) → n < f → decimal (show_fuel f n) ≡ n
unfolding show_fuel
decimal-show_fuel zero n h = absurd (omega arith)
decimal-show_fuel (suc f) n h = elim (Bool-cases (ltb n 10)) [
  | inl small ↦ rw small (decimal-digit n)
  | inr big ↦
      rw
        (
          big,
          decimal-snoc (show_fuel f (n / 10)) (n % 10),
          decimal-show_fuel f (n / 10) (ground arith),
        )
        (omega arith)
]

snoc-ne-nil {ℓ} : {A : Type ℓ} (s : List A) (c : A) → s ++ c ∷ [] ≢ []
snoc-ne-nil [] c = λ e. cc
snoc-ne-nil (x ∷ s) c = λ e. cc

show_fuel-ne-nil : (f n : ℕ) → show_fuel (suc f) n ≢ []
unfolding show_fuel
show_fuel-ne-nil f n = elim (Bool-cases (ltb n 10)) [
  | inl small ↦ rw small (λ e. cc)
  | inr big ↦ rw big (snoc-ne-nil (show_fuel f (n / 10)) (b'0' + n % 10))
]

-- `parse_int` reads back the decimal digits of every number below 2^63.
pub parse_int-show : (n : ℕ) → n < i64_limit → parse_int (show n) ≡ value (pos n)
unfolding show
parse_int-show n h =
    let s : CString = show_fuel (suc n) n in
    let digits : Numeral s = (show_fuel-IsDigits (suc n) n (omega arith), show_fuel-ne-nil n n) in
    let read = parse_int-decimal 0 unsigned s [] digits tt in
    rw (append-nil s, decimal-show_fuel (suc n) n (omega arith), lt→ltb n i64_limit h) at read
