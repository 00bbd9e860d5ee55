-- ===== src/Cargs/Text/Dashes.antt =====
-- What `flag`, `param` and `trim` make of the dashes of an argument.
use bbench.Base.{
  ℕ, zero, suc, ◌+◌, ◌≡◌, refl, ap, true, false, inl, inr, [], ◌∷◌, ◌++◌, leb, arith, Bool-cases,
  if◌then◌else◌,
}
use bbench.Base.Text.{CString}
use bbench.Cargs.Text.{is_dash, flag_loop, flag, param, trim}

-- How many dashes stand in a text, and that many of them.
abbrev pub dashes : CString → ℕ
dashes [] = 0
dashes (c ∷ s) = let n = dashes s in if is_dash c then 1 + n else n

abbrev pub dash_run : ℕ → CString
dash_run zero = []
dash_run (suc n) = b'-' ∷ dash_run n

flag_loop-dashes :
    (s : CString) → (flag_loop true s ≡ leb 1 (dashes s)) × (flag_loop false s ≡ leb 2 (dashes s))
unfolding flag_loop
flag_loop-dashes [] = ground arith
flag_loop-dashes (c ∷ s) = ground (arith, flag_loop-dashes s)

trim-run : (s : CString) → (n : ℕ) × (s ≡ dash_run n ++ trim s)
unfolding trim
trim-run [] = (0, refl)
trim-run (c ∷ s) = elim (Bool-cases (is_dash c)) [
  | inl dash ↦
      let (n, e) = trim-run s in
      let q : c ≡ b'-' = ground arith in (suc n, rw dash (rw (← e) (ap (λ d. d ∷ s) q)))
  | inr other ↦ (0, rw other)
]

param-trim : (s : CString) → param (trim s) ≡ false
unfolding trim param
param-trim [] = refl
param-trim (c ∷ s) = elim (Bool-cases (is_dash c)) [
  | inl dash ↦ rw dash (param-trim s)
  | inr other ↦ rw other other
]

-- `flag` tells whether two dashes stand anywhere in an argument, in front or not, and `trim` takes
-- off all the dashes in front of it and nothing else.
pub flag-trim :
    (s : CString)
    → (flag s ≡ leb 2 (dashes s))
      × ((n : ℕ) × (s ≡ dash_run n ++ trim s))
      × (param (trim s) ≡ false)
unfolding flag
flag-trim s = ((flag_loop-dashes s).1, trim-run s, param-trim s)
