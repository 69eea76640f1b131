-- ===== src/Xtoken/Actions.antt =====
-- Runs of amax.xtoken: any actions, in any order, under any signatures.
use amax_contracts.Common.{ℕ, ◌<◌, ◌≡◌, [], refl, Bool, some, arith, ok, Result-cases, inl, inr}
use amax_contracts.Common.Int.{pos, ◌≤ℤ◌}
use amax_contracts.Chain.{Name, Asset, Symbol, IsSdk, Context, max_amount}
use amax_contracts.Chain.Table.{find, total, Rows-find}
use amax_contracts.Xtoken.{Account, CurrencyStats, State, ratio_boost}
use amax_contracts.Xtoken.Admin.{
  Action, creating, issuing, retiring, transferring, notifying, opening, closing, setting_ratio,
  setting_receiver, setting_minimum, exempting, freezing, pausing, apply, fresh,
  update_currency_field, feeratio, feereceiver, minfee, pause, open_account,
}
use amax_contracts.Xtoken.Balances.{held}
use amax_contracts.Xtoken.Invariant.{StatsOk, supply_of, IsValid, supply_bounds, total-held-nonneg}
use amax_contracts.Xtoken.Preserve.{
  transfer-IsValid, notifypayfee-IsValid, update_currency_field-IsValid,
}
use amax_contracts.Xtoken.Settings.{
  issue-IsValid, retire-IsValid, create-IsValid, open_account-IsValid, opens-IsValid, close-IsValid,
  feeexempt-IsValid, freezeacct-IsValid,
}

module _ (ctx : Context) (laws : IsSdk ctx.sdk) where
  feeratio-IsValid :
      (sym : Symbol) (ratio : ℕ) (st st' : State)
      → feeratio ctx sym ratio st ≡ ok st'
      → IsValid st
      → IsValid st'
  unfolding feeratio
  feeratio-IsValid sym ratio st st' h v =
      let write : CurrencyStats → CurrencyStats = λ r. record r { fee_ratio = ratio } in
      elim (Result-cases (update_currency_field ctx sym write st)) [
        | inl ((st'', out), u) ↦
            let small : ratio < ratio_boost = ground arith in
            let same : st' ≡ st'' = ground arith in
            rw same (
              update_currency_field-IsValid ctx laws sym write st st'' out u (λ r. refl)
                (λ r e o. (o.0, o.1, o.2, o.3, o.4, small, o.6, o.7)) v)
        | inr (m, u) ↦ absurd (ground arith)
      ]

  feereceiver-IsValid :
      (sym : Symbol) (receiver : Name) (st st' : State)
      → feereceiver ctx sym receiver st ≡ ok st'
      → IsValid st
      → IsValid st'
  unfolding feereceiver
  feereceiver-IsValid sym receiver st st' h v =
      let write : CurrencyStats → CurrencyStats = λ r. record r { fee_receiver = receiver } in
      elim (Result-cases (update_currency_field ctx sym write st)) [
        | inl ((st'', out), u) ↦
            let opened : open_account receiver sym out.issuer st'' ≡ ok st' = ground arith in
            open_account-IsValid ctx laws receiver sym out.issuer st'' st' opened (
              update_currency_field-IsValid ctx laws sym write st st'' out u (λ r. refl)
                (λ r e o. o) v)
        | inr (m, u) ↦ absurd (ground arith)
      ]

  minfee-IsValid :
      (sym : Symbol) (least : Asset) (st st' : State)
      → minfee ctx sym least st ≡ ok st'
      → IsValid st
      → IsValid st'
  unfolding minfee
  minfee-IsValid sym least st st' h v =
      let write : CurrencyStats → CurrencyStats = λ r. record r { min_fee_quantity = least } in
      elim (Result-cases (update_currency_field ctx sym write st)) [
        | inl ((st'', out), u) ↦
            let nonneg : pos 0 ≤ℤ least.amount = ground arith in
            let unit : least.symbol ≡ sym = ground arith in
            let same : st' ≡ st'' = ground arith in
            rw same (
              update_currency_field-IsValid ctx laws sym write st st'' out u (λ r. refl)
                (λ r e o. (o.0, o.1, o.2, o.3, o.4, o.5, nonneg, ground arith)) v)
        | inr (m, u) ↦ absurd (ground arith)
      ]

  pause-IsValid :
      (sym : Symbol) (b : Bool) (st st' : State)
      → pause ctx sym b st ≡ ok st'
      → IsValid st
      → IsValid st'
  unfolding pause
  pause-IsValid sym b st st' h v =
      let write : CurrencyStats → CurrencyStats = λ r. record r { is_paused = b } in
      elim (Result-cases (update_currency_field ctx sym write st)) [
        | inl ((st'', out), u) ↦
            let same : st' ≡ st'' = ground arith in
            rw same (
              update_currency_field-IsValid ctx laws sym write st st'' out u (λ r. refl)
                (λ r e o. o) v)
        | inr (m, u) ↦ absurd (ground arith)
      ]

fresh-IsValid : (st : State) → IsValid st → IsValid (fresh st)
fresh-IsValid st v = record {
  accounts_ok = v.accounts_ok;
  stats_ok = v.stats_ok;
  backed = v.backed;
}

-- Every action that goes through keeps the invariant.
pub apply-IsValid :
    (ctx : Context) (a : Action) (st st' : State)
    → IsSdk ctx.sdk
    → apply ctx a st ≡ ok st'
    → IsValid st
    → IsValid st'
unfolding apply
apply-IsValid ctx (creating issuer m) st st' laws h v =
    create-IsValid ctx laws issuer m (fresh st) st' h (fresh-IsValid st v)
apply-IsValid ctx (issuing to q memo) st st' laws h v =
    issue-IsValid ctx laws to q memo (fresh st) st' h (fresh-IsValid st v)
apply-IsValid ctx (retiring q memo) st st' laws h v =
    retire-IsValid ctx laws q memo (fresh st) st' h (fresh-IsValid st v)
apply-IsValid ctx (transferring from to q memo) st st' laws h v =
    transfer-IsValid ctx laws from to q memo (fresh st) st' h (fresh-IsValid st v)
apply-IsValid ctx (notifying from to receiver fee memo) st st' laws h v =
    notifypayfee-IsValid ctx laws from to receiver fee memo (fresh st) st' h (fresh-IsValid st v)
apply-IsValid ctx (opening owner sym payer) st st' laws h v =
    opens-IsValid ctx laws owner sym payer (fresh st) st' h (fresh-IsValid st v)
apply-IsValid ctx (closing owner sym) st st' laws h v =
    close-IsValid ctx laws owner sym (fresh st) st' h (fresh-IsValid st v)
apply-IsValid ctx (setting_ratio sym ratio) st st' laws h v =
    feeratio-IsValid ctx laws sym ratio (fresh st) st' h (fresh-IsValid st v)
apply-IsValid ctx (setting_receiver sym receiver) st st' laws h v =
    feereceiver-IsValid ctx laws sym receiver (fresh st) st' h (fresh-IsValid st v)
apply-IsValid ctx (setting_minimum sym least) st st' laws h v =
    minfee-IsValid ctx laws sym least (fresh st) st' h (fresh-IsValid st v)
apply-IsValid ctx (exempting sym account b) st st' laws h v =
    feeexempt-IsValid ctx laws sym account b (fresh st) st' h (fresh-IsValid st v)
apply-IsValid ctx (freezing sym account b) st st' laws h v =
    freezeacct-IsValid ctx laws sym account b (fresh st) st' h (fresh-IsValid st v)
apply-IsValid ctx (pausing sym b) st st' laws h v =
    pause-IsValid ctx laws sym b (fresh st) st' h (fresh-IsValid st v)

abbrev pub deployed : State
deployed = record { accounts = []; stats = []; recipients = []; sent = [] }

-- A state that the contract comes to from its deployment, through actions that went through.
pub data Reach : State → Type 0 where
  start : Reach deployed
  next :
      (ctx : Context) (a : Action) {st st' : State}
      → Reach st
      → IsSdk ctx.sdk
      → apply ctx a st ≡ ok st'
      → Reach st'

pub Reach-IsValid : {st : State} → Reach st → IsValid st
Reach-IsValid start = record { accounts_ok = tt; stats_ok = tt; backed = λ c. refl }
Reach-IsValid (next ctx a {st} {st'} r laws h) = apply-IsValid ctx a st st' laws h (Reach-IsValid r)

-- After any run from the deployment: the supply of each code is the sum of its balances, neither it
-- nor a balance is negative, no balance is more than the supply, no supply is more than its token's
-- limit, which fits an asset, every fee ratio is below one, and no least fee is negative.
pub Reach-fees :
    {st : State} (c : ℕ)
    → Reach st
    → (total (held c) st.accounts ≡ supply_of c st.stats)
      × (pos 0 ≤ℤ supply_of c st.stats)
      × ((s : Name) (a : Account)
          → find s c st.accounts ≡ some a
          → (pos 0 ≤ℤ a.balance.amount) × (a.balance.amount ≤ℤ supply_of c st.stats))
      × ((r : CurrencyStats)
          → find c c st.stats ≡ some r
          → (r.supply.amount ≤ℤ r.max_supply.amount)
            × (r.max_supply.amount ≤ℤ pos max_amount)
            × (r.fee_ratio < ratio_boost)
            × (pos 0 ≤ℤ r.min_fee_quantity.amount))
Reach-fees {st} c r =
    let v = Reach-IsValid r in
    (
      v.backed c,
      rw (← v.backed c) (total-held-nonneg c st.accounts v.accounts_ok),
      λ s a e. supply_bounds st c s a v e,
      λ row e.
          let ok_row = Rows-find StatsOk c c row st.stats v.stats_ok e in
          (ok_row.3, ok_row.4, ok_row.5, ok_row.6),
    )
