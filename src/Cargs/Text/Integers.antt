-- ===== src/Cargs/Text/Integers.antt =====
-- `__to_i64` of src/cargs.hpp and `parse_int` of tools/bbench.cpp.
use bbench.Base.{◌≡◌, ◌≢◌, refl, ◌==◌, Bool, true, false, inl, inr, [], ◌∷◌, some, All, Bool-cases}
use bbench.Base.Text.{CString}
use bbench.Cli.Number.{
  is_digit, digit_loop, store, refused, read_digits, read_sign, skip_spaces, parse_int,
}
use bbench.Cargs.Text.{skip_blanks, take_sign, to_i64_text}

abbrev pub NoTab : CString → Type 0
NoTab = All (λ c. (c == 9) ≡ false)

skip_blanks-skip_spaces : (s : CString) → NoTab s → skip_blanks s ≡ skip_spaces s
unfolding skip_blanks skip_spaces
skip_blanks-skip_spaces [] h = refl
skip_blanks-skip_spaces (c ∷ s) (here, h) = elim (Bool-cases (c == b' ')) [
  | inl space ↦ rw space (skip_blanks-skip_spaces s h)
  | inr other ↦ rw (other, here)
]

store-read_digits :
    (negative : Bool) (t : CString)
    → read_digits negative t ≢ refused
    → store negative (digit_loop 0 t) ≡ read_digits negative t
unfolding read_digits
store-read_digits negative [] h = absurd (h refl)
store-read_digits negative (c ∷ t) h = elim (Bool-cases (is_digit c)) [
  | inl digit ↦ rw digit
  | inr other ↦ absurd ((rw other at h) refl)
]

take_sign-read_sign :
    (s : CString)
    → read_sign s ≢ refused
    → let (neg, t) = take_sign s in store neg (digit_loop 0 t) ≡ read_sign s
unfolding take_sign read_sign
take_sign-read_sign [] h = store-read_digits false [] h
take_sign-read_sign (c ∷ s) h = elim (Bool-cases (c == b'-')) [
  | inl minus ↦ rw minus (store-read_digits true s (rw minus at h))
  | inr other ↦ elim (Bool-cases (c == b'+')) [
    | inl plus ↦ rw (other, plus) (store-read_digits false s (rw (other, plus) at h))
    | inr none_ ↦ rw (other, none_) (store-read_digits false (c ∷ s) (rw (other, none_) at h))
  ]
]

-- On every text without tabs that `parse_int` of bbench does not refuse, `__to_i64` of the
-- command-line library gives the same number, and overflows where `parse_int` does.
pub to_i64_text-parse_int :
    (s : CString) → NoTab s → parse_int s ≢ refused → to_i64_text (some s) ≡ parse_int s
unfolding to_i64_text parse_int
to_i64_text-parse_int [] no_tab h = absurd (h refl)
to_i64_text-parse_int (c ∷ s) no_tab h =
    rw (skip_blanks-skip_spaces (c ∷ s) no_tab) (take_sign-read_sign (skip_spaces (c ∷ s)) h)
