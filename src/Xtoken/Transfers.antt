-- ===== src/Xtoken/Transfers.antt =====
-- What `transfer` of amax.xtoken moves, and whom it refuses.
use amax_contracts.Common.{
  ℕ, ◌≡◌, ◌&&◌, refl, ◌∙◌, ◌==◌, Bool, true, false, if◌then◌else◌, Option, none, some, arith, ok,
  Bool-cases, inl, inr,
}
use mathlib.Core.Path.{subst₂}
use amax_contracts.Common.Int.{ℤ, pos, pos_part, ◌+ℤ◌, ◌-ℤ◌, ◌≤ℤ◌, ◌<ℤ◌, int_laws}
use amax_contracts.Chain.{Name, Asset, asset, IsSdk, Context, Memo}
use amax_contracts.Chain.Table.{Table, find, find-modify, find-modify_same, Rows-find}
use amax_contracts.Xtoken.{
  Account, CurrencyStats, State, transfer, split_fee, pays_fee, sub_balance, add_balance,
  require_recipient, is_account_frozen,
}
use amax_contracts.Xtoken.Balances.{
  sub_balance-eq-ok, add_balance-eq-ok, stats-add_balance, stats-sub_balance,
}
use amax_contracts.Xtoken.Invariant.{StatsOk, IsValid}
use amax_contracts.Xtoken.Fees.{fee_on, split_fee-eq-ok, split_fee_total}
use amax_contracts.Xtoken.Preserve.{FeePaid-Adds}
use amax_contracts.Xtoken.Effects.{FeePaid, transfer-eq-ok, pay_fee-eq-ok}

-- What an owner has of a code: nothing where there is no row.
abbrev pub amount_of : Name → ℕ → Table Account → ℤ
amount_of owner code t = elim (find owner code t) [ none ↦ pos 0 | some a ↦ a.balance.amount ]

-- An amount that the owner `n` has of a code, as seen by the owner `o` of the code `c`.
abbrev pub part : Name → Asset → Name → ℕ → ℤ
part n v o c = if o == n && c == v.symbol.code then v.amount else pos 0

-- The row of an account, if it has one, is not frozen.
abbrev pub Thawed : CurrencyStats → Name → Option Account → Type 0
Thawed row n none = Unit
Thawed row n (some a) = is_account_frozen row n a ≡ false

module _ (ctx : Context) (laws : IsSdk ctx.sdk) (info : CurrencyStats) (flag : Bool) where
  amount_of-sub_balance :
      (owner : Name) (v : Asset) (st st' : State)
      → sub_balance ctx info owner v flag st ≡ ok st'
      → (o c : ℕ) → amount_of o c st'.accounts +ℤ part owner v o c ≡ amount_of o c st.accounts
  amount_of-sub_balance owner v st st' h o c =
      let (row, e, thawed, le, same, final) =
        sub_balance-eq-ok ctx laws info flag owner v st st' h in
      let new : Account = record row {
        balance = asset (row.balance.amount -ℤ v.amount) row.balance.symbol;
      } in
      rw final (grind (int_laws, find-modify owner v.symbol.code owner o c new row st.accounts e))

  amount_of-add_balance :
      (owner : Name) (v : Asset) (payer : Name) (st st' : State)
      → add_balance ctx info owner v payer flag st ≡ ok st'
      → (o c : ℕ) → amount_of o c st'.accounts ≡ amount_of o c st.accounts +ℤ part owner v o c
  amount_of-add_balance owner v payer st st' h o c =
      elim (add_balance-eq-ok ctx laws info flag owner v payer st st' h) [
        | inl (e, final) ↦ rw final (grind (int_laws, e))
        | inr (row, e, thawed, same, final) ↦
            let new : Account = record row {
              balance = asset (row.balance.amount +ℤ v.amount) row.balance.symbol;
            } in
            rw final
              (grind (int_laws, find-modify_same owner v.symbol.code o c new row st.accounts e))
      ]

  frame-add_balance :
      (owner : Name) (v : Asset) (payer : Name) (st st' : State)
      → add_balance ctx info owner v payer flag st ≡ ok st'
      → (st'.stats ≡ st.stats) × (st'.recipients ≡ st.recipients) × (st'.sent ≡ st.sent)
  frame-add_balance owner v payer st st' h =
      elim (add_balance-eq-ok ctx laws info flag owner v payer st st' h) [
        | inl (e, final) ↦ ground arith
        | inr (row, e, thawed, same, final) ↦ ground arith
      ]

-- What a receiver is charged on a transfer of `q`.
abbrev pub charge : CurrencyStats → Name → Asset → State → ℤ
charge row to q st =
    if pays_fee row to st q.symbol.code
    then fee_on (pos_part q.amount) row.fee_ratio row.min_fee_quantity.amount
    else pos 0

regroup :
    (less more final old q got fee : ℤ)
    → less +ℤ q ≡ old
    → more ≡ less +ℤ got
    → final ≡ more +ℤ fee
    → final +ℤ q ≡ old +ℤ got +ℤ fee
regroup less more final old q got fee a b c = rw (c, b, ← a) (omega int_laws)

module _ (ctx : Context) (laws : IsSdk ctx.sdk) where
  amount_of-FeePaid :
      (row : CurrencyStats) (from to : Name) (fee : Asset) (memo : Memo) (payer : Name)
      (more st' : State)
      → FeePaid ctx laws row from to fee memo payer more st'
      → pos 0 ≤ℤ fee.amount
      → (o c : ℕ)
      → amount_of o c st'.accounts ≡ amount_of o c more.accounts +ℤ part row.fee_receiver fee o c
  amount_of-FeePaid row from to fee memo payer more st' (inl (none_due, same)) nonneg o c =
      rw same (grind int_laws)
  amount_of-FeePaid row from to fee memo payer more st' (inr (due, h)) nonneg o c =
      let (paid, a, final) = pay_fee-eq-ok ctx laws row from to fee memo payer more st' h in
      rw final (amount_of-add_balance ctx laws row false row.fee_receiver fee payer more paid a o c)

  split_fee_free :
      (row : CurrencyStats) (q : Asset) → split_fee ctx row q false ≡ ok (q, asset (pos 0) q.symbol)
  unfolding split_fee
  split_fee_free row q = refl

  charge_lem :
      (row : CurrencyStats) (to : Name) (q got fee : Asset) (st : State)
      → StatsOk q.symbol.code q.symbol.code row
      → pos 0 <ℤ q.amount
      → row.min_fee_quantity.amount <ℤ q.amount
      → ctx.sdk.asset_is_valid q ≡ true
      → split_fee ctx row q (pays_fee row to st q.symbol.code) ≡ ok (got, fee)
      → (fee ≡ asset (charge row to q st) q.symbol)
        × (got ≡ asset (q.amount -ℤ charge row to q st) q.symbol)
        × (pos 0 ≤ℤ fee.amount)
        × (fee.amount <ℤ q.amount)
  charge_lem row to q got fee st fine positive above valid h =
      elim (Bool-cases (pays_fee row to st q.symbol.code)) [
        | inl pays ↦
            let n = pos_part q.amount in
            let total =
              split_fee_total ctx laws row n q (ground arith) (ground arith)
                (laws.valid_range q valid) fine.5 fine.6 above in
            rw pays (ground (arith, total.0, rw pays at h))
        | inr free ↦ rw free (grind (int_laws, split_fee_free row q, rw free at h))
      ]

  -- A transfer that goes through in a valid state takes its quantity from the sender, gives it less
  -- the fee to the receiver and the fee to the token's fee receiver, and touches no other balance.
  -- The fee is the larger of the share and the least fee, or nothing for a token without a fee and
  -- for the issuer, the fee receiver and an exempt receiver; it is less than the quantity. The
  -- supplies stay.
  pub transfer_splits :
      (from to : Name) (q : Asset) (memo : Memo) (st st' : State)
      → IsValid st
      → transfer ctx from to q memo st ≡ ok st'
      → (row : CurrencyStats) × (find q.symbol.code q.symbol.code st.stats ≡ some row)
        × (pos 0 ≤ℤ charge row to q st)
        × (charge row to q st <ℤ q.amount)
        × ((o c : ℕ)
            → amount_of o c st'.accounts +ℤ part from q o c
              ≡ amount_of o c st.accounts
                +ℤ part to (asset (q.amount -ℤ charge row to q st) q.symbol) o c
                +ℤ part row.fee_receiver (asset (charge row to q st) q.symbol) o c)
        × (st'.stats ≡ st.stats)
  transfer_splits from to q memo st st' v h =
      let (row, got, fee, payer, less, more, e, who, amounts, split, p, a, last) =
        transfer-eq-ok ctx laws from to q memo st st' h in
      let start = require_recipient to (require_recipient from st) in
      let fine = Rows-find StatsOk q.symbol.code q.symbol.code row st.stats v.stats_ok e in
      let (fee_is, got_is, nonneg, small) =
        charge_lem row to q got fee st fine amounts.0 amounts.1 amounts.2 split in
      (
        row,
        e,
        rw fee_is at nonneg,
        rw fee_is at small,
        λ o c.
            subst₂
              (λ g f.
                amount_of o c st'.accounts +ℤ part from q o c
                ≡ amount_of o c st.accounts +ℤ part to g o c +ℤ part row.fee_receiver f o c)
              got_is fee_is
              (regroup _ _ _ _ _ _ _
                (amount_of-sub_balance ctx laws row true from q start less p o c)
                (amount_of-add_balance ctx laws row true to got payer less more a o c)
                (amount_of-FeePaid row from to fee memo payer more st' last nonneg o c)),
        (FeePaid-Adds ctx laws row from to fee memo payer more st' nonneg last).2
            ∙ stats-add_balance ctx laws row true to got payer less more a
            ∙ stats-sub_balance ctx laws row true from q start less p,
      )

  -- A transfer that goes through was signed by its sender, and is of a token that is not paused and
  -- of more than the least fee; neither the sender nor the receiver has a frozen row, except the
  -- issuer.
  pub transfer_allowed :
      (from to : Name) (q : Asset) (memo : Memo) (st st' : State)
      → transfer ctx from to q memo st ≡ ok st'
      → (ctx.has_auth from ≡ true)
        × ((row : CurrencyStats) × (find q.symbol.code q.symbol.code st.stats ≡ some row)
            × (row.is_paused ≡ false)
            × (row.min_fee_quantity.amount <ℤ q.amount)
            × Thawed row from (find from q.symbol.code st.accounts)
            × Thawed row to (find to q.symbol.code st.accounts))
  transfer_allowed from to q memo st st' h =
      let (row, got, fee, payer, less, more, e, who, amounts, split, p, a, last) =
        transfer-eq-ok ctx laws from to q memo st st' h in
      let start = require_recipient to (require_recipient from st) in
      let code = q.symbol.code in
      let (was, f, thawed, le, same, final) =
        sub_balance-eq-ok ctx laws row true from q start less p in
      let parts = split_fee-eq-ok ctx laws row q got fee (pays_fee row to st code) split in
      let new : Account = record was {
        balance = asset (was.balance.amount -ℤ q.amount) was.balance.symbol;
      } in
      let stays = find-modify from code from to code new was st.accounts f in
      (
        who.1,
        (
          row,
          e,
          who.2,
          amounts.1,
          ground arith,
          elim (add_balance-eq-ok ctx laws row true to got payer less more a) [
            | inl (g, end) ↦ ground (arith, stays, parts.0)
            | inr (b, g, free, unit, end) ↦ ground (arith, stays, parts.0)
          ],
        ),
      )
