-- ===== src/Safe/Sums.antt =====
-- Sums, differences and negation in safe.hpp are exact, or abort.
use amax_contracts.Common.Int.{ℤ, pos, ◌+ℤ◌, ◌-ℤ◌, int_laws}
use amax_contracts.Safe.{Fits, Exact, safe_add, safe_sub, safe_neg}

-- A checked sum is the exact sum where that fits 64 bits, and aborts where it does not.
pub safe_add-Exact : (a b : ℤ) → Fits a → Fits b → Exact (a +ℤ b) (safe_add a b)
unfolding safe_add
safe_add-Exact a b f g = grind int_laws

-- A checked difference is the exact difference where that fits 64 bits, and aborts where it does not.
pub safe_sub-Exact : (a b : ℤ) → Fits a → Fits b → Exact (a -ℤ b) (safe_sub a b)
unfolding safe_sub
safe_sub-Exact a b f g = grind int_laws

pub safe_neg-Exact : (a : ℤ) → Fits a → Exact (pos 0 -ℤ a) (safe_neg a)
unfolding safe_neg
safe_neg-Exact a f = grind int_laws
