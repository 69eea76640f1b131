-- ===== src/Xtoken/Fees.antt =====
-- The fee of amax.xtoken's `transfer`.
use amax_contracts.Common.{
  ℕ, ◌*◌, ◌/◌, ◌<◌, ◌≤◌, ◌≡◌, arith, ok, Bool, true, false, Result-cases, inl, inr,
}
use amax_contracts.Common.Int.{ℤ, pos, ◌+ℤ◌, ◌-ℤ◌, ◌*ℤ◌, ◌/ℤ◌, ◌≤ℤ◌, ◌<ℤ◌, max_ℤ, ltb_ℤ, int_laws}
use amax_contracts.Chain.{Asset, asset, IsSdk, InRange, Context}
use amax_contracts.Xtoken.{CurrencyStats, split_fee, multiply_decimal, ratio_boost}

-- The product of two naturals over a positive one is what 64-bit numbers make of it, if it fits.
multiply_decimal_lem :
    (n r p : ℕ)
    → n * r / p ≤ 0x7fffffffffffffff
    → multiply_decimal (pos n) (pos r) (pos p) ≡ ok (pos (n * r / p))
unfolding multiply_decimal ◌*ℤ◌ ◌/ℤ◌
multiply_decimal_lem n r p h = ground arith

-- What the code charges on `n`: the share, or the least fee if that is more.
abbrev pub fee_on : ℕ → ℕ → ℤ → ℤ
fee_on n ratio least = max_ℤ least (pos (n * ratio / ratio_boost))

share-lt : (n ratio : ℕ) → ratio < ratio_boost → 0 < n → n * ratio / ratio_boost < n
share-lt n ratio h p = grind arith

module _ (ctx : Context) (laws : IsSdk ctx.sdk) (row : CurrencyStats) where
  -- With a ratio below one and a quantity above the least fee, neither the overflow check nor the
  -- check that the fee is less than the quantity can fail: the fee is the larger of the share and
  -- the least fee, and the receiver gets the rest.
  pub split_fee_total :
      (n : ℕ) (q : Asset)
      → q.amount ≡ pos n
      → 0 < n
      → InRange q.amount
      → row.fee_ratio < ratio_boost
      → pos 0 ≤ℤ row.min_fee_quantity.amount
      → row.min_fee_quantity.amount <ℤ q.amount
      → let fee = fee_on n row.fee_ratio row.min_fee_quantity.amount in
        (split_fee ctx row q true ≡ ok (asset (q.amount -ℤ fee) q.symbol, asset fee q.symbol))
        × (pos 0 ≤ℤ fee)
        × (fee <ℤ q.amount)
  unfolding split_fee
  split_fee_total n q e positive fits ratio nonneg above =
      let fee = fee_on n row.fee_ratio row.min_fee_quantity.amount in
      let small = share-lt n row.fee_ratio ratio positive in
      let share = n * row.fee_ratio / ratio_boost in
      let product : multiply_decimal q.amount (pos row.fee_ratio) (pos ratio_boost)
          ≡ ok (pos share) =
        rw e (multiply_decimal_lem n row.fee_ratio ratio_boost (ground arith)) in
      let bounds : (pos 0 ≤ℤ fee) × (fee <ℤ q.amount) = ground arith in
      let s = laws.sub_lem q (asset fee q.symbol) in
      let l = laws.lt_lem (asset fee q.symbol) q in
      let rest : InRange (q.amount -ℤ fee) = grind int_laws in (ground arith, bounds.0, bounds.1)

  -- The parts that a transfer is split into have its symbol and add up to it; without a fee the
  -- receiver gets all of it.
  pub split_fee-eq-ok :
      (q got fee : Asset) (b : Bool)
      → split_fee ctx row q b ≡ ok (got, fee)
      → (got.symbol ≡ q.symbol)
        × (fee.symbol ≡ q.symbol)
        × (got.amount +ℤ fee.amount ≡ q.amount)
        × (b ≡ false → fee.amount ≡ pos 0)
        × (b ≡ true → (fee.amount <ℤ q.amount) × (row.min_fee_quantity.amount ≤ℤ fee.amount))
  unfolding split_fee
  split_fee-eq-ok q got fee false h =
      (ground arith, ground arith, grind int_laws, ground arith, λ e. cc)
  split_fee-eq-ok q got fee true h =
      elim (Result-cases (multiply_decimal q.amount (pos row.fee_ratio) (pos ratio_boost))) [
        | inl (share, e) ↦
            let charged = asset (max_ℤ row.min_fee_quantity.amount share) q.symbol in
            let s = laws.sub_lem q charged in
            let l = laws.lt_lem charged q in
            let parts : (got ≡ asset (q.amount -ℤ charged.amount) q.symbol)
                × (fee ≡ charged)
                × (ltb_ℤ charged.amount q.amount ≡ true) =
              ground arith in
            (
              ground arith,
              ground arith,
              grind (int_laws, parts),
              λ e. cc,
              λ e. (ground arith, ground arith),
            )
        | inr (m, e) ↦ absurd (ground arith)
      ]
