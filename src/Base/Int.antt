-- ===== src/Base/Int.antt =====
-- Signed integers over the native numbers, and the 32- and 64-bit casts of the source.
use bbench.Base.{
  ℕ, zero, suc, ◌+◌, ◌-◌, ◌/◌, ◌^◌, ◌%◌, ◌≡◌, ◌↔◌, Bool, true, false, arith, ltb, leb, ◌==◌,
  if◌then◌else◌,
}

-- `negsuc n` is -(n + 1).
pub data ℤ : Type 0 where
  pos : ℕ → ℤ
  negsuc : ℕ → ℤ

abbrev pub pos_part : ℤ → ℕ
pos_part (pos n) = n
pos_part (negsuc n) = 0

abbrev pub neg_part : ℤ → ℕ
neg_part (pos n) = 0
neg_part (negsuc n) = suc n

-- a - b, as an integer.
abbrev pub sub_ℕ : ℕ → ℕ → ℤ
sub_ℕ a b = if leb b a then pos (a - b) else negsuc (b - a - 1)

-- `-n`
abbrev pub neg : ℕ → ℤ
neg zero = pos 0
neg (suc n) = negsuc n

-- The cast of an unsigned value below 2^64 to `long long`.
unfoldable pub to_i64 : ℕ → ℤ
to_i64 w = if ltb w (2 ^ 63) then pos w else negsuc (2 ^ 64 - w - 1)

-- The residue of an integer modulo 2^w.
unfoldable pub residue : ℕ → ℤ → ℕ
residue m (pos n) = n % m
residue m (negsuc n) = m - 1 - n % m

-- The casts to `u32` and to `usize`.
abbrev pub to_u32 : ℤ → ℕ
to_u32 = residue (2 ^ 32)

abbrev pub to_u64 : ℤ → ℕ
to_u64 = residue (2 ^ 64)

-- The cast of a `long` to `int`: the low 32 bits, read as a signed number.
unfoldable pub to_i32 : ℤ → ℤ
unfolding residue
to_i32 z = let w = residue (2 ^ 32) z in if ltb w (2 ^ 31) then pos w else negsuc (2 ^ 32 - w - 1)

infix 50 ◌==ℤ◌
abbrev pub ◌==ℤ◌ : ℤ → ℤ → Bool
pos a ==ℤ pos b = a == b
pos a ==ℤ negsuc b = false
negsuc a ==ℤ pos b = false
negsuc a ==ℤ negsuc b = a == b

abbrev pub is_negative : ℤ → Bool
is_negative (pos n) = false
is_negative (negsuc n) = true

pub ==ℤ_iff : (a b : ℤ) → ((a ==ℤ b) ≡ true) ↔ (a ≡ b)
==ℤ_iff (pos a) (pos b) = ground arith
==ℤ_iff (pos a) (negsuc b) = ground arith
==ℤ_iff (negsuc a) (pos b) = ground arith
==ℤ_iff (negsuc a) (negsuc b) = ground arith

-- `a + b` on `long long`, as the machine adds: the low 64 bits, read as a signed number.
infixl 60 ◌+ℤ◌
unfoldable pub ◌+ℤ◌ : ℤ → ℤ → ℤ
unfolding residue to_i64
a +ℤ b = to_i64 ((residue (2 ^ 64) a + residue (2 ^ 64) b) % 2 ^ 64)

-- `a / n` for a positive `n`, towards 0.
abbrev pub div_ℤ : ℤ → ℕ → ℤ
div_ℤ (pos a) n = pos (a / n)
div_ℤ (negsuc a) n = neg ((a + 1) / n)

-- `a - b` on `long long`, as the machine subtracts.
infixl 60 ◌-ℤ◌
unfoldable pub ◌-ℤ◌ : ℤ → ℤ → ℤ
unfolding residue to_i64
a -ℤ b = to_i64 ((residue (2 ^ 64) a + 2 ^ 64 - residue (2 ^ 64) b) % 2 ^ 64)
