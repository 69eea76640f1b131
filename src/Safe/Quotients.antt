-- ===== src/Safe/Quotients.antt =====
-- Quotients and remainders in safe.hpp.
use native.Mathlib.Nat.{div-mul-le_self, div-le_self, div-add-mod', mod-lt, mul-le-mul_left}
use amax_contracts.Common.{ℕ, zero, suc, ◌+◌, ◌*◌, ◌/◌, ◌%◌, ◌≤◌, ◌<◌, ◌≡◌, arith, ok}
use amax_contracts.Common.Int.{
  ℤ, pos, negsuc, pos_part, neg_part, sub_ℕ, ◌+ℤ◌, ◌*ℤ◌, ◌/ℤ◌, int_laws,
}
use amax_contracts.Safe.{Fits, rem_ℤ, may_divide, safe_div, safe_mod}
use amax_contracts.Safe.Products.{mul_pp, div_pp, div_pn, div_np}

abbrev pub abs : ℤ → ℕ
abs z = pos_part z + neg_part z

mul_neg_pos : (n y : ℕ) → sub_ℕ 0 n *ℤ pos y ≡ sub_ℕ 0 (n * y)
unfolding ◌*ℤ◌
mul_neg_pos zero y = ground arith
mul_neg_pos (suc n) y = ground arith

mul_neg_neg : (n y : ℕ) → sub_ℕ 0 n *ℤ negsuc y ≡ pos (n * suc y)
unfolding ◌*ℤ◌
mul_neg_neg zero y = ground arith
mul_neg_neg (suc n) y = ground arith

mul_pos_neg : (n y : ℕ) → pos n *ℤ negsuc y ≡ sub_ℕ 0 (n * suc y)
unfolding ◌*ℤ◌
mul_pos_neg n y = ground arith

div_nn : (x y : ℕ) → negsuc x /ℤ negsuc y ≡ pos (suc x / suc y)
unfolding ◌/ℤ◌
div_nn x y = ground arith

pos_sum : (x n m : ℕ) → n + m ≡ x → pos x ≡ pos n +ℤ pos m
pos_sum x n m h = omega (int_laws, h)

neg_sum : (x n m : ℕ) → n + m ≡ suc x → negsuc x ≡ sub_ℕ 0 n +ℤ sub_ℕ 0 m
unfolding ◌+ℤ◌
neg_sum x n m h = ground arith

abs_neg : (n : ℕ) → abs (sub_ℕ 0 n) ≡ n
abs_neg n = ground arith

-- A remainder is less than its divisor, whatever the signs.
rem-lt : (a b : ℤ) → 0 < abs b → abs (rem_ℤ a b) < abs b
unfolding rem_ℤ
rem-lt (pos x) (pos zero) h = absurd (omega arith)
rem-lt (pos x) (pos (suc y)) h = omega (arith, mod-lt x {m = suc y} (omega arith))
rem-lt (pos x) (negsuc y) h = omega (arith, mod-lt x {m = suc y} (omega arith))
rem-lt (negsuc x) (pos zero) h = absurd (omega arith)
rem-lt (negsuc x) (pos (suc y)) h =
    rw (abs_neg (suc x % suc y)) (omega (arith, mod-lt (suc x) {m = suc y} (omega arith)))
rem-lt (negsuc x) (negsuc y) h =
    rw (abs_neg (suc x % suc y)) (omega (arith, mod-lt (suc x) {m = suc y} (omega arith)))

restores : (a b : ℤ) → a ≡ (a /ℤ b) *ℤ b +ℤ rem_ℤ a b
unfolding rem_ℤ
restores (pos x) (pos y) =
    rw (div_pp x y) (rw (mul_pp (x / y) y) (pos_sum x (x / y * y) (x % y) (div-add-mod' x y)))
restores (pos x) (negsuc y) = rw (div_pn x y) (
    rw (mul_neg_neg (x / suc y) y)
      (pos_sum x (x / suc y * suc y) (x % suc y) (div-add-mod' x (suc y))))
restores (negsuc x) (pos y) = rw (div_np x y) (
    rw (mul_neg_pos (suc x / y) y) (neg_sum x (suc x / y * y) (suc x % y) (div-add-mod' (suc x) y)))
restores (negsuc x) (negsuc y) = rw (div_nn x y) (
    rw (mul_pos_neg (suc x / suc y) y)
      (neg_sum x (suc x / suc y * suc y) (suc x % suc y) (div-add-mod' (suc x) (suc y))))

-- A quotient by two or more is at most a half.
half : (n y : ℕ) → n / suc (suc y) * 2 ≤ n
half n y =
    let low = div-mul-le_self n (suc (suc y)) in
    let more : n / suc (suc y) * 2 ≤ n / suc (suc y) * suc (suc y) =
      mul-le-mul_left (n / suc (suc y)) (omega arith) in
    omega arith

quotient-Fits : (a b q : ℤ) → Fits a → safe_div a b ≡ ok q → Fits q
unfolding safe_div may_divide
quotient-Fits (pos x) (pos y) q h e =
    let value : q ≡ pos x /ℤ pos y = ground arith in
    let less = div-le_self x y in rw value (rw (div_pp x y) (ground arith))
quotient-Fits (pos x) (negsuc y) q h e =
    let value : q ≡ pos x /ℤ negsuc y = ground arith in
    let less = div-le_self x (suc y) in rw value (rw (div_pn x y) (ground arith))
quotient-Fits (negsuc x) (pos y) q h e =
    let value : q ≡ negsuc x /ℤ pos y = ground arith in
    let less = div-le_self (suc x) y in rw value (rw (div_np x y) (ground arith))
quotient-Fits (negsuc x) (negsuc zero) q h e =
    let value : q ≡ negsuc x /ℤ negsuc zero = ground arith in
    let less = div-le_self (suc x) 1 in rw value (rw (div_nn x 0) (ground arith))
quotient-Fits (negsuc x) (negsuc (suc y)) q h e =
    let value : q ≡ negsuc x /ℤ negsuc (suc y) = ground arith in
    let less = half (suc x) y in rw value (rw (div_nn x (suc y)) (ground arith))

small-Fits : (b r : ℤ) → Fits b → abs r < abs b → Fits r
small-Fits b r h less = ground arith

-- Of two values of the type, where both are given, the checked quotient and the checked remainder
-- are values of the type; the quotient times the divisor plus the remainder is the dividend, and
-- the remainder is less than the divisor in size.
pub safe_div-safe_mod :
    (a b q r : ℤ)
    → Fits a
    → Fits b
    → safe_div a b ≡ ok q
    → safe_mod a b ≡ ok r
    → Fits q × Fits r × (a ≡ q *ℤ b +ℤ r) × (abs r < abs b)
unfolding safe_div safe_mod may_divide
safe_div-safe_mod a b q r fa fb d m =
    let quotient : q ≡ a /ℤ b = ground arith in
    let remainder : r ≡ rem_ℤ a b = ground arith in
    let above : 0 < abs b = ground arith in
    let less : abs r < abs b = rw remainder (rem-lt a b above) in
    (
      quotient-Fits a b q fa d,
      small-Fits b r fb less,
      rw quotient (rw remainder (restores a b)),
      less,
    )
