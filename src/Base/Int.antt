-- ===== src/Base/Int.antt =====
-- C's signed integers as mathematical integers; `negsuc n` is -(n + 1).
use Prim.Native.Nat.{ℕ, zero, suc, ◌+◌, ◌-◌}
use mathlib.Core.Bool.{Bool, true, false}
use lan_scan.Base.Tests.{leb, if◌then◌else◌}

pub data ℤ : Type 0 where
  pos : ℕ → ℤ
  negsuc : ℕ → ℤ

-- a - b, as an integer.
abbrev pub sub_ℕ : ℕ → ℕ → ℤ
sub_ℕ a b = if leb b a then pos (a - b) else negsuc (b - a - 1)

-- Subtracts a natural number.
abbrev pub sub : ℤ → ℕ → ℤ
sub (pos a) b = sub_ℕ a b
sub (negsuc a) b = negsuc (a + b)

-- -z
abbrev pub neg : ℤ → ℤ
neg (pos zero) = pos zero
neg (pos (suc n)) = negsuc n
neg (negsuc n) = pos (suc n)

-- z < 0
abbrev pub is_neg : ℤ → Bool
is_neg (pos n) = false
is_neg (negsuc n) = true

-- z == 0, the converse of a C integer used as a condition
abbrev pub is_zero : ℤ → Bool
is_zero (pos zero) = true
is_zero (pos (suc n)) = false
is_zero (negsuc n) = false

-- n <= z, for n >= 0
abbrev pub ge_ℕ : ℤ → ℕ → Bool
ge_ℕ (pos a) n = leb n a
ge_ℕ (negsuc a) n = false

-- The value where it is not negative, and 0 below.
abbrev pub to_ℕ : ℤ → ℕ
to_ℕ (pos n) = n
to_ℕ (negsuc n) = 0
