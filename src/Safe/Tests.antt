-- ===== src/Safe/Tests.antt =====
-- Checked arithmetic at the ends of the range.
use amax_contracts.Common.{◌<◌, ◌≡◌, refl, arith, ok, err}
use amax_contracts.Common.Int.{pos, negsuc, ◌+ℤ◌, ◌-ℤ◌, ◌*ℤ◌, ◌/ℤ◌}
use amax_contracts.Safe.{
  Fits, Exact, min_value, max_value, safe_add, safe_sub, safe_neg, safe_mul, may_divide, safe_div,
  safe_mod, rem_ℤ,
}
use amax_contracts.Safe.Quotients.{abs, safe_div-safe_mod}
use amax_contracts.Safe.Sums.{safe_add-Exact, safe_sub-Exact}
use amax_contracts.Safe.Products.{safe_mul-Exact}

one_Fits : Fits (pos 1)
one_Fits = (omega arith, omega arith)

max_Fits : Fits max_value
max_Fits = (omega arith, omega arith)

negates_least : safe_neg min_value ≡ err "overflow_exception, (*this)"
unfolding safe_neg
negates_least = refl

divides_least : safe_div min_value (negsuc 0) ≡ err "overflow_exception, (a)(b)"
unfolding safe_div may_divide
divides_least = refl

takes_remainder : safe_mod (negsuc 6) (pos 3) ≡ ok (negsuc 0)
unfolding safe_mod may_divide rem_ℤ
takes_remainder = refl

safe_add-Exact_example : Exact (max_value +ℤ pos 1) (safe_add max_value (pos 1))
safe_add-Exact_example = safe_add-Exact max_value (pos 1) max_Fits one_Fits

safe_sub-Exact_example : Exact (pos 1 -ℤ max_value) (safe_sub (pos 1) max_value)
safe_sub-Exact_example = safe_sub-Exact (pos 1) max_value one_Fits max_Fits

safe_mul-Exact_example : Exact (negsuc 2 *ℤ max_value) (safe_mul (negsuc 2) max_value)
safe_mul-Exact_example = safe_mul-Exact (negsuc 2) max_value

divides : safe_div (negsuc 6) (pos 3) ≡ ok (negsuc 1)
unfolding safe_div may_divide ◌/ℤ◌
divides = refl

dividend_Fits : Fits (negsuc 6)
dividend_Fits = (omega arith, omega arith)

divisor_Fits : Fits (pos 3)
divisor_Fits = (omega arith, omega arith)

safe_div-safe_mod_example :
    Fits (negsuc 1)
    × Fits (negsuc 0)
    × (negsuc 6 ≡ negsuc 1 *ℤ pos 3 +ℤ negsuc 0)
    × (abs (negsuc 0) < abs (pos 3))
safe_div-safe_mod_example =
    safe_div-safe_mod (negsuc 6) (pos 3) (negsuc 1) (negsuc 0) dividend_Fits divisor_Fits divides
      takes_remainder
