-- ===== src/Reward/Limits.antt =====
-- No voter of amax.reward gets more than the votes' part of a reward.
use native.Mathlib.Nat.{
  div-mul-le_self, div-le_self, mul-le-mul_left, mul-le-mul_right, le_of_mul-le-mul_right,
}
use amax_contracts.Common.{
  ℕ, ◌+◌, ◌-◌, ◌*◌, ◌/◌, ◌%◌, ◌^◌, ◌≤◌, ◌<◌, ◌≡◌, refl, ap, ◌∙◌, ltb, true, arith, ok, Bool-cases,
  inl, inr,
}
use amax_contracts.Common.Int.{ℤ, pos, sub_ℕ, ◌+ℤ◌, ◌-ℤ◌, ◌*ℤ◌, ◌/ℤ◌, leb_ℤ, int_laws}
use amax_contracts.Chain.{Symbol, Asset, asset, IsSdk, max_amount}
use amax_contracts.Reward.{
  Env, high_precision, to_int128, calc_rewards_per_vote, calc_voter_rewards,
}
use amax_contracts.Safe.Products.{mul_pp, div_pp}

to_int128_small : (n : ℕ) → n < 2 ^ 127 → to_int128 (pos n) ≡ pos n
unfolding to_int128
to_int128_small n h =
    let whole : (n + (2 ^ 128 - 0 % 2 ^ 128)) % 2 ^ 128 ≡ n = omega arith in rw whole (ground arith)

to_int128_large : (n : ℕ) → 2 ^ 127 ≤ n → n < 2 ^ 128 → to_int128 (pos n) ≡ sub_ℕ n (2 ^ 128)
unfolding to_int128
to_int128_large n h k =
    let whole : (n + (2 ^ 128 - 0 % 2 ^ 128)) % 2 ^ 128 ≡ n = omega arith in rw whole (ground arith)

-- A sum of two numbers that fit is negative where it does not fit.
to_int128_sum :
    (n m : ℕ)
    → n < 2 ^ 127
    → m < 2 ^ 127
    → leb_ℤ (pos n) (to_int128 (pos (n + m))) ≡ true
    → n + m < 2 ^ 127
to_int128_sum n m h k e = elim (Bool-cases (ltb (n + m) (2 ^ 127))) [
  | inl f ↦ ground arith
  | inr f ↦
      let large = to_int128_large (n + m) (ground arith) (omega arith) in
      let e' : leb_ℤ (pos n) (sub_ℕ (n + m) (2 ^ 128)) ≡ true = rw (← large) e in
      absurd (ground arith)
]

-- The code's arithmetic on a reward `q` for `v` votes, and on what `w` votes get of a rise by `d`.
raised_lem :
    (r q v : ℕ)
    → q ≤ max_amount
    → to_int128 (pos r +ℤ to_int128 (pos q *ℤ high_precision) /ℤ pos v)
      ≡ to_int128 (pos (r + q * 1000000000000000000 / v))
raised_lem r q v h =
    let small = to_int128_small (q * 1000000000000000000) (omega arith) in
    let sum : pos r +ℤ pos (q * 1000000000000000000 / v) ≡ pos (r + q * 1000000000000000000 / v) =
      omega int_laws in
    rw (mul_pp q 1000000000000000000)
      (rw small (rw (div_pp (q * 1000000000000000000) v) (rw sum refl)))

rate_lem :
    (q v r : ℕ) (s t : Symbol) (rate : ℤ)
    → q ≤ max_amount
    → 0 < q
    → 0 < v
    → r < 2 ^ 127
    → calc_rewards_per_vote (pos r) (asset (pos q) s) (asset (pos v) t) ≡ ok rate
    → (rate ≡ pos (r + q * 1000000000000000000 / v)) × (r + q * 1000000000000000000 / v < 2 ^ 127)
unfolding calc_rewards_per_vote
rate_lem q v r s t rate fits some_q some_v small h =
    let d = q * 1000000000000000000 / v in
    let raised = raised_lem r q v fits in
    let new : rate ≡ to_int128 (pos r +ℤ to_int128 (pos q *ℤ high_precision) /ℤ pos v) =
      ground arith in
    let rises : leb_ℤ (pos r) (to_int128 (pos r +ℤ to_int128 (pos q *ℤ high_precision) /ℤ pos v))
        ≡ true =
      ground arith in
    let rises' : leb_ℤ (pos r) (to_int128 (pos (r + d))) ≡ true = rw (← raised) rises in
    let less = div-le_self (q * 1000000000000000000) v in
    let whole = to_int128_sum r d small (omega arith) rises' in
    (new ∙ raised ∙ to_int128_small (r + d) whole, whole)

reward_lem :
    (env : Env) (w d : ℕ) (t : Symbol) (c : Asset)
    → IsSdk env.sdk
    → w * d < 2 ^ 127
    → calc_voter_rewards env (asset (pos w) t) (pos d) ≡ ok c
    → c ≡ asset (pos (w * d / 1000000000000000000)) env.core_symbol
unfolding calc_voter_rewards
reward_lem env w d t c laws fits h =
    let value : to_int128 (pos w *ℤ pos d) /ℤ high_precision ≡ pos (w * d / 1000000000000000000) =
      rw (mul_pp w d) (rw (to_int128_small (w * d) fits) (div_pp (w * d) 1000000000000000000)) in
    let made = laws.make_lem (to_int128 (pos w *ℤ pos d) /ℤ high_precision) env.core_symbol in
    let result : c ≡ asset (to_int128 (pos w *ℤ pos d) /ℤ high_precision) env.core_symbol =
      ground arith in
    result ∙ ap (λ (n : ℤ). asset n env.core_symbol) value

-- Rounding down twice keeps below the exact part.
rounded : (q v w : ℕ) → w * (q * 1000000000000000000 / v) / 1000000000000000000 * v ≤ w * q
rounded q v w =
    let d = q * 1000000000000000000 / v in
    let n = w * d / 1000000000000000000 in
    let inner : d * v ≤ q * 1000000000000000000 = div-mul-le_self (q * 1000000000000000000) v in
    let outer : n * 1000000000000000000 ≤ w * d = div-mul-le_self (w * d) 1000000000000000000 in
    let scaled : n * 1000000000000000000 * v ≤ w * d * v = mul-le-mul_right v outer in
    let weighed : w * (d * v) ≤ w * (q * 1000000000000000000) = mul-le-mul_left w inner in
    grind arith

below : (q v w n : ℕ) → 0 < v → w ≤ v → n * v ≤ w * q → n ≤ q
below q v w n h part share =
    let most : w * q ≤ v * q = mul-le-mul_right q part in le_of_mul-le-mul_right (grind arith) h

-- The rise of a rate by a reward `q` for `v` votes.
abbrev pub rise_of : ℕ → ℕ → ℕ
rise_of q v = q * 1000000000000000000 / v

-- A voter who held `w` of a producer's `v` votes when a reward `q` came, with `v` and `q` positive
-- and `q` at most the largest amount of an asset, gets of that reward exactly `w` times the rise of
-- the rate, q * 10^18 / v rounded down, over 10^18 rounded down, in the core symbol: with that number
-- of units `n`, n * v ≤ w * q, and n ≤ q. No 128-bit arithmetic overflows on the way, where the old
-- rate `r` was in range and both steps go through: the new rate is `r` plus the rise, and this sum
-- and both products, of the reward and of the votes, are less than 2^127.
pub reward-le :
    (env : Env) (q v w r : ℕ) (s t : Symbol) (rate : ℤ) (c : Asset)
    → IsSdk env.sdk
    → q ≤ max_amount
    → 0 < q
    → 0 < v
    → w ≤ v
    → r < 2 ^ 127
    → calc_rewards_per_vote (pos r) (asset (pos q) s) (asset (pos v) t) ≡ ok rate
    → calc_voter_rewards env (asset (pos w) t) (rate -ℤ pos r) ≡ ok c
    → (rate ≡ pos (r + rise_of q v))
      × (c ≡ asset (pos (w * rise_of q v / 1000000000000000000)) env.core_symbol)
      × (q * 1000000000000000000 < 2 ^ 127)
      × (r + rise_of q v < 2 ^ 127)
      × (w * rise_of q v < 2 ^ 127)
      × (w * rise_of q v / 1000000000000000000 * v ≤ w * q)
      × (w * rise_of q v / 1000000000000000000 ≤ q)
reward-le env q v w r s t rate c laws fits some_q some_v part small h k =
    let d = rise_of q v in
    let (raised, in_range) = rate_lem q v r s t rate fits some_q some_v small h in
    let rise : rate -ℤ pos r ≡ pos d = rw raised (omega int_laws) in
    let k' : calc_voter_rewards env (asset (pos w) t) (pos d) ≡ ok c = rw (← rise) k in
    let inner : d * v ≤ q * 1000000000000000000 = div-mul-le_self (q * 1000000000000000000) v in
    let bound : w * d ≤ v * d = mul-le-mul_right d part in
    let product : q * 1000000000000000000 < 2 ^ 127 = omega arith in
    let within : w * d < 2 ^ 127 = grind arith in
    let share = rounded q v w in
    (
      raised,
      reward_lem env w d t c laws within k',
      product,
      in_range,
      within,
      share,
      below q v w (w * d / 1000000000000000000) some_v part share,
    )
