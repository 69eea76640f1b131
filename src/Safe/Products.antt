-- ===== src/Safe/Products.antt =====
-- Products in safe.hpp are exact, or abort.
use native.Mathlib.Nat.{div-lt_iff_lt-mul, mul_comm}
use amax_contracts.Common.{ℕ, zero, suc, ◌*◌, ◌/◌, ◌<◌, ◌≡◌, arith, ◌↔◌}
use amax_contracts.Common.Int.{ℤ, pos, negsuc, sub_ℕ, ◌*ℤ◌, ◌/ℤ◌}
use amax_contracts.Safe.{Exact, mul_fits, safe_mul, min_value, max_value}

-- The test on the quotient is the test on the product.
over : (m x y : ℕ) → 0 < y → (m / y < x) ↔ (m < x * y)
over m x y h = div-lt_iff_lt-mul {k = y} {x = m} {y = x} h

pub mul_pp : (x y : ℕ) → pos x *ℤ pos y ≡ pos (x * y)
unfolding ◌*ℤ◌
mul_pp x y = ground arith

pub mul_pn : (x y : ℕ) → pos x *ℤ negsuc y ≡ sub_ℕ 0 (x * suc y)
unfolding ◌*ℤ◌
mul_pn x y = ground arith

mul_np : (x y : ℕ) → negsuc x *ℤ pos y ≡ sub_ℕ 0 (suc x * y)
unfolding ◌*ℤ◌
mul_np x y = ground arith

mul_nn : (x y : ℕ) → negsuc x *ℤ negsuc y ≡ pos (suc x * suc y)
unfolding ◌*ℤ◌
mul_nn x y = ground arith

pub div_pp : (x y : ℕ) → pos x /ℤ pos y ≡ pos (x / y)
unfolding ◌/ℤ◌
div_pp x y = ground arith

pub div_pn : (x y : ℕ) → pos x /ℤ negsuc y ≡ sub_ℕ 0 (x / suc y)
unfolding ◌/ℤ◌
div_pn x y = ground arith

pub div_np : (x y : ℕ) → negsuc x /ℤ pos y ≡ sub_ℕ 0 (suc x / y)
unfolding ◌/ℤ◌
div_np x y = ground arith

-- One lemma for each pair of signs, where `q` is the quotient that is tested and `p` the product.
both_positive :
    (x y q p : ℕ)
    → 0 < x
    → 0 < y
    → max_value /ℤ pos y ≡ pos q
    → pos x *ℤ pos y ≡ pos p
    → (q < x) ↔ (0x7fffffffffffffff < p)
    → Exact (pos x *ℤ pos y) (safe_mul (pos x) (pos y))
unfolding safe_mul mul_fits
both_positive x y q p hx hy e m t = rw e (rw m (ground arith))

right_negative :
    (x y q p : ℕ)
    → 0 < x
    → min_value /ℤ pos x ≡ sub_ℕ 0 q
    → pos x *ℤ negsuc y ≡ sub_ℕ 0 p
    → (q < suc y) ↔ (0x8000000000000000 < p)
    → Exact (pos x *ℤ negsuc y) (safe_mul (pos x) (negsuc y))
unfolding safe_mul mul_fits
right_negative x y q p hx e m t = rw e (rw m (ground arith))

left_negative :
    (x y q p : ℕ)
    → 0 < y
    → min_value /ℤ pos y ≡ sub_ℕ 0 q
    → negsuc x *ℤ pos y ≡ sub_ℕ 0 p
    → (q < suc x) ↔ (0x8000000000000000 < p)
    → Exact (negsuc x *ℤ pos y) (safe_mul (negsuc x) (pos y))
unfolding safe_mul mul_fits
left_negative x y q p hy e m t = rw e (rw m (ground arith))

both_negative :
    (x y q p : ℕ)
    → max_value /ℤ negsuc x ≡ sub_ℕ 0 q
    → negsuc x *ℤ negsuc y ≡ pos p
    → (q < suc y) ↔ (0x7fffffffffffffff < p)
    → Exact (negsuc x *ℤ negsuc y) (safe_mul (negsuc x) (negsuc y))
unfolding safe_mul mul_fits
both_negative x y q p e m t = rw e (rw m (ground arith))

-- A factor is zero: each quotient that is tested is not positive.
zero_first :
    (y q : ℕ) → min_value /ℤ pos y ≡ sub_ℕ 0 q → Exact (pos 0 *ℤ pos y) (safe_mul (pos 0) (pos y))
unfolding safe_mul mul_fits
zero_first y q e = rw e (rw (mul_pp 0 y) (ground arith))

zero_second :
    (x q : ℕ)
    → min_value /ℤ pos (suc x) ≡ sub_ℕ 0 q
    → Exact (pos (suc x) *ℤ pos 0) (safe_mul (pos (suc x)) (pos 0))
unfolding safe_mul mul_fits
zero_second x q e = rw e (rw (mul_pp (suc x) 0) (ground arith))

zero_negative : (y : ℕ) → Exact (pos 0 *ℤ negsuc y) (safe_mul (pos 0) (negsuc y))
unfolding safe_mul mul_fits
zero_negative y = rw (mul_pn 0 y) (ground arith)

negative_zero :
    (x q : ℕ)
    → max_value /ℤ negsuc x ≡ sub_ℕ 0 q
    → Exact (negsuc x *ℤ pos 0) (safe_mul (negsuc x) (pos 0))
unfolding safe_mul mul_fits
negative_zero x q e = rw e (rw (mul_np x 0) (ground arith))

-- A checked product is the exact product where that fits 64 bits, and aborts where it does not.
pub safe_mul-Exact : (a b : ℤ) → Exact (a *ℤ b) (safe_mul a b)
safe_mul-Exact (pos zero) (pos y) =
    zero_first y (0x8000000000000000 / y) (div_np 0x7fffffffffffffff y)
safe_mul-Exact (pos (suc x)) (pos zero) =
    zero_second x (0x8000000000000000 / suc x) (div_np 0x7fffffffffffffff (suc x))
safe_mul-Exact (pos (suc x)) (pos (suc y)) =
    both_positive (suc x) (suc y) (0x7fffffffffffffff / suc y) (suc x * suc y) (omega arith)
      (omega arith) (div_pp 0x7fffffffffffffff (suc y)) (mul_pp (suc x) (suc y))
      (over 0x7fffffffffffffff (suc x) (suc y) (omega arith))
safe_mul-Exact (pos zero) (negsuc y) = zero_negative y
safe_mul-Exact (pos (suc x)) (negsuc y) =
    right_negative (suc x) y (0x8000000000000000 / suc x) (suc x * suc y) (omega arith)
      (div_np 0x7fffffffffffffff (suc x)) (mul_pn (suc x) y)
      (rw (mul_comm (suc x) (suc y)) (over 0x8000000000000000 (suc y) (suc x) (omega arith)))
safe_mul-Exact (negsuc x) (pos zero) =
    negative_zero x (0x7fffffffffffffff / suc x) (div_pn 0x7fffffffffffffff x)
safe_mul-Exact (negsuc x) (pos (suc y)) =
    left_negative x (suc y) (0x8000000000000000 / suc y) (suc x * suc y) (omega arith)
      (div_np 0x7fffffffffffffff (suc y)) (mul_np x (suc y))
      (over 0x8000000000000000 (suc x) (suc y) (omega arith))
safe_mul-Exact (negsuc x) (negsuc y) =
    both_negative x y (0x7fffffffffffffff / suc x) (suc x * suc y) (div_pn 0x7fffffffffffffff x)
      (mul_nn x y)
      (rw (mul_comm (suc x) (suc y)) (over 0x7fffffffffffffff (suc y) (suc x) (omega arith)))
