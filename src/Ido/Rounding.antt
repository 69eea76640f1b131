-- ===== src/Ido/Rounding.antt =====
-- The rounded division of amax.ido.
use native.Mathlib.Nat.{
  div-div-eq-div-mul, add-mul-div_right, mul-div-mul_left, mod-eq_of_lt, div-le_self,
}
use amax_contracts.Common.{ℕ, ◌+◌, ◌*◌, ◌/◌, ◌%◌, ◌^◌, ◌<◌, ◌≡◌, arith}
use amax_contracts.Ido.{divide_decimal}

-- Two divisions with a half between them are one.
pub half_up : (n b : ℕ) → 0 < b → (10 * n / b + 5) / 10 ≡ (2 * n + b) / (2 * b)
half_up n b h =
    let joined : (10 * n + 5 * b) / b ≡ 10 * n / b + 5 = add-mul-div_right (10 * n) 5 h in
    let split : (10 * n + 5 * b) / b / 10 ≡ (10 * n + 5 * b) / (b * 10) =
      div-div-eq-div-mul (10 * n + 5 * b) b 10 in
    let top : 10 * n + 5 * b ≡ 5 * (2 * n + b) = omega arith in
    let bottom : b * 10 ≡ 5 * (2 * b) = omega arith in
    let reduced : 5 * (2 * n + b) / (5 * (2 * b)) ≡ (2 * n + b) / (2 * b) =
      mul-div-mul_left {m = 5} (2 * n + b) (2 * b) (omega arith) in
    cc

-- Where the numbers fit 128 bits, the division is the nearest integer to a * precision / b, a half
-- going up.
pub divide_decimal_lem :
    (a b precision : ℕ)
    → 0 < b
    → 10 * a < 2 ^ 128
    → 10 * (a * precision) + 5 < 2 ^ 128
    → divide_decimal a b precision ≡ (2 * (a * precision) + b) / (2 * b)
unfolding divide_decimal
divide_decimal_lem a b precision h small fits =
    let n = a * precision in
    let first : 10 * a % 2 ^ 128 ≡ 10 * a = mod-eq_of_lt small in
    let regroup : 10 * a * precision ≡ 10 * n = omega arith in
    let second : 10 * n % 2 ^ 128 ≡ 10 * n = mod-eq_of_lt (omega arith) in
    let less = div-le_self (10 * n) b in
    let third : (10 * n / b + 5) % 2 ^ 128 ≡ 10 * n / b + 5 = mod-eq_of_lt (omega arith) in
    rw first (rw regroup (rw second (rw third (half_up n b h))))
