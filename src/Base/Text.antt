-- ===== src/Base/Text.antt =====
-- C strings: the bytes before the terminating NUL. The comparison and the length are micron's
-- `strcmp` and `strlen`, which the sources only call: an interface with their documented laws.
use Prim.Native.Char.{code}
use Prim.Native.String.{String}
use bbench.Base.{
  ℕ, zero, suc, ◌≡◌, refl, ◌↔◌, Bool, true, false, List, [], ◌∷◌, arith, length, ◌==◌,
}
use bbench.Base.Int.{ℤ, pos, negsuc}

abbrev pub CString : Type 0
CString = List ℕ

-- The bytes of a literal of the source; every one is ASCII.
abbrev pub codes : String → CString
codes String.[] = []
codes (String.◌∷◌ c s) = code c ∷ codes s

pub record Micron : Type 0 where
  pub strcmp : CString → CString → ℤ
  pub strlen : CString → ℕ
  pub strcmp_zero : (a b : CString) → (strcmp a b ≡ pos 0) ↔ (a ≡ b)
  pub strlen_length : (a : CString) → strlen a ≡ length a

abbrev pub is_zero : ℤ → Bool
is_zero (pos zero) = true
is_zero (pos (suc n)) = false
is_zero (negsuc n) = false

is_zero_iff : (z : ℤ) → (is_zero z ≡ true) ↔ (z ≡ pos 0)
is_zero_iff (pos zero) = ground arith
is_zero_iff (pos (suc n)) = ground arith
is_zero_iff (negsuc n) = ground arith

module _ ⦃m : Micron⦄ where
  -- `micron::strcmp(a, b) == 0`
  unfoldable pub same : CString → CString → Bool
  same a b = is_zero (m.strcmp a b)

  pub same_iff : (a b : CString) → (same a b ≡ true) ↔ (a ≡ b)
  unfolding same
  same_iff a b = (
    λ h. (m.strcmp_zero a b).0 ((is_zero_iff (m.strcmp a b)).0 h),
    λ h. (is_zero_iff (m.strcmp a b)).1 ((m.strcmp_zero a b).1 h),
  )

-- A concrete strcmp and strlen, on which the definitions run.
abbrev pub compare_bytes : CString → CString → ℤ
compare_bytes [] [] = pos 0
compare_bytes [] (b ∷ bs) = negsuc 0
compare_bytes (a ∷ as') [] = pos 1
compare_bytes (a ∷ as') (b ∷ bs) = elim (a == b) [ true ↦ compare_bytes as' bs | false ↦ pos 1 ]

pub compare_bytes_iff : (a b : CString) → (compare_bytes a b ≡ pos 0) ↔ (a ≡ b)
compare_bytes_iff [] [] = ground arith
compare_bytes_iff [] (b ∷ bs) = ground arith
compare_bytes_iff (a ∷ as') [] = ground arith
compare_bytes_iff (a ∷ as') (b ∷ bs) = ground (arith, compare_bytes_iff as' bs)

-- Equality of two byte strings, which computes on literals whatever strcmp is at hand.
abbrev pub equal_bytes : CString → CString → Bool
equal_bytes a b = is_zero (compare_bytes a b)

pub same-equal_bytes : ⦃m : Micron⦄ (a b : CString) → same a b ≡ equal_bytes a b
same-equal_bytes a b =
    ground (arith, same_iff a b, compare_bytes_iff a b, is_zero_iff (compare_bytes a b))

instance abbrev pub plain_strings : Micron
plain_strings = record {
  strcmp = compare_bytes;
  strlen = length;
  strcmp_zero = compare_bytes_iff;
  strlen_length = λ a. refl;
}
