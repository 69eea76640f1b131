-- ===== src/Safe.antt =====
-- src_mining/contracts/amax.ido/include/safe.hpp, which amax.one and amax.two copy: `safe<int64_t>`,
-- arithmetic on signed 64-bit integers that checks for overflow before it computes. A value is an
-- integer that fits; the checks themselves stay within the range too.
pub mod Sums
pub mod Products
pub mod Quotients
mod Tests
use amax_contracts.Common.{
  ℕ, suc, ◌%◌, ◌==◌, ◌&&◌, Bool, true, false, not, if◌then◌else◌, Result, ok, err, ◌>>=◌, ◌>>◌,
  check, ◌≡◌,
}
use amax_contracts.Common.Int.{ℤ, pos, negsuc, sub_ℕ, ◌+ℤ◌, ◌-ℤ◌, ◌*ℤ◌, ◌/ℤ◌, ◌≤ℤ◌, ltb_ℤ, eqb_ℤ}

abbrev pub min_value : ℤ
min_value = negsuc 0x7fffffffffffffff

abbrev pub max_value : ℤ
max_value = pos 0x7fffffffffffffff

abbrev pub Fits : ℤ → Type 0
Fits n = (min_value ≤ℤ n) × (n ≤ℤ max_value)

abbrev pub gtb_ℤ : ℤ → ℤ → Bool
gtb_ℤ a b = ltb_ℤ b a

-- `operator +`, `operator -` and the unary minus
unfoldable pub safe_add : ℤ → ℤ → Result ℤ
safe_add a b = do
  check (not (gtb_ℤ b (pos 0) && gtb_ℤ a (max_value -ℤ b))) "overflow_exception, (a)(b)"
  check (not (ltb_ℤ b (pos 0) && ltb_ℤ a (min_value -ℤ b))) "underflow_exception, (a)(b)"
  ok (a +ℤ b)

unfoldable pub safe_sub : ℤ → ℤ → Result ℤ
safe_sub a b = do
  check (not (gtb_ℤ b (pos 0) && ltb_ℤ a (min_value +ℤ b))) "underflow_exception, (a)(b)"
  check (not (ltb_ℤ b (pos 0) && gtb_ℤ a (max_value +ℤ b))) "overflow_exception, (a)(b)"
  ok (a -ℤ b)

unfoldable pub safe_neg : ℤ → Result ℤ
safe_neg a = do check (not (eqb_ℤ a min_value)) "overflow_exception, (*this)"; ok (pos 0 -ℤ a)

-- The four tests of `operator *`, by the signs of its operands.
unfoldable pub mul_fits : ℤ → ℤ → Result (Unit {0})
mul_fits a b =
    if gtb_ℤ a (pos 0)
    then (if gtb_ℤ b (pos 0)
        then check (not (gtb_ℤ a (max_value /ℤ b))) "overflow_exception, (a)(b)"
        else check (not (ltb_ℤ b (min_value /ℤ a))) "underflow_exception, (a)(b)")
    else (if gtb_ℤ b (pos 0)
        then check (not (ltb_ℤ a (min_value /ℤ b))) "underflow_exception, (a)(b)"
        else check (not (not (eqb_ℤ a (pos 0)) && ltb_ℤ b (max_value /ℤ a)))
            "overflow_exception, (a)(b)")

unfoldable pub safe_mul : ℤ → ℤ → Result ℤ
safe_mul a b = do mul_fits a b; ok (a *ℤ b)

-- The remainder of C++: that of the magnitudes, with the sign of the dividend.
unfoldable pub rem_ℤ : ℤ → ℤ → ℤ
rem_ℤ (pos a) (pos b) = pos (a % b)
rem_ℤ (pos a) (negsuc b) = pos (a % suc b)
rem_ℤ (negsuc a) (pos b) = sub_ℕ 0 (suc a % b)
rem_ℤ (negsuc a) (negsuc b) = sub_ℕ 0 (suc a % suc b)

-- What `operator /` and `operator %` test.
unfoldable pub may_divide : ℤ → ℤ → Result (Unit {0})
may_divide a b = do
  check (not (eqb_ℤ b (pos 0))) "divide_by_zero_exception, (a)(b)"
  check (not (eqb_ℤ a min_value && eqb_ℤ b (negsuc 0))) "overflow_exception, (a)(b)"

unfoldable pub safe_div : ℤ → ℤ → Result ℤ
safe_div a b = do may_divide a b; ok (a /ℤ b)

unfoldable pub safe_mod : ℤ → ℤ → Result ℤ
safe_mod a b = do may_divide a b; ok (rem_ℤ a b)

-- The exact result `n` where it fits, and an abort where it does not.
abbrev pub Exact : ℤ → Result ℤ → Type 0
Exact n (ok c) = (c ≡ n) × Fits n
Exact n (err _) = Fits n → ⊥
