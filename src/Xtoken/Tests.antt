-- ===== src/Xtoken/Tests.antt =====
-- The fee token at concrete inputs.
use amax_contracts.Common.{ℕ, ◌≡◌, ◌<◌, refl, some, [], ◌∷◌, arith, ok, true, false}
use amax_contracts.Common.Int.{ℤ, pos, ◌+ℤ◌, ◌-ℤ◌, ◌*ℤ◌, ◌/ℤ◌, ◌≤ℤ◌, ◌<ℤ◌}
use amax_contracts.Chain.{Name, asset, Symbol, max_amount, Context}
use amax_contracts.Chain.Sample.{signed_by, sdk-IsSdk}
use amax_contracts.Chain.Table.{find, total}
use amax_contracts.Xtoken.{
  Account, CurrencyStats, State, create, issue, transfer, split_fee, pay_fee, pays_fee,
  multiply_decimal, sub_balance, add_balance, ratio_boost,
}
use amax_contracts.Xtoken.Admin.{
  creating, issuing, setting_ratio, setting_receiver, apply, feeratio, feereceiver,
  update_currency_field, open_account,
}
use amax_contracts.Xtoken.Balances.{held}
use amax_contracts.Xtoken.Invariant.{supply_of}
use amax_contracts.Xtoken.Fees.{fee_on, split_fee_total}
use amax_contracts.Xtoken.Actions.{Reach, start, next, Reach-IsValid, Reach-fees}
use amax_contracts.Xtoken.Transfers.{
  amount_of, part, charge, Thawed, transfer_splits, transfer_allowed,
}

abbrev sym : Symbol
sym = record { code = 7; precision = 4 }

-- Signed by the contract, 50, and by the accounts 1 and 2.
abbrev ctx : Context
ctx = signed_by 50 (50 ∷ 1 ∷ 2 ∷ []) 0

abbrev holder : ℤ → Account
holder n = record { balance = asset n sym; is_frozen = false; is_fee_exempt = false }

abbrev settings : CurrencyStats
settings = record {
  supply = asset (pos 500) sym;
  max_supply = asset (pos 1000) sym;
  issuer = 1;
  is_paused = false;
  fee_receiver = 3;
  fee_ratio = 100;
  min_fee_quantity = asset (pos 0) sym;
}

abbrev configured : State
configured = record {
  accounts =
      record { scope = 3; key = 7; payer = 1; row = holder (pos 0) }
      ∷ record { scope = 1; key = 7; payer = 1; row = holder (pos 500) }
      ∷ [];
  stats = record { scope = 7; key = 7; payer = 50; row = settings } ∷ [];
  recipients = [];
  sent = [];
}

configured-Reach : Reach configured
unfolding apply create issue add_balance feeratio feereceiver update_currency_field open_account
    ◌+ℤ◌ ◌-ℤ◌
configured-Reach =
    next ctx (setting_receiver sym 3)
      (next ctx (setting_ratio sym 100)
        (next ctx (issuing 1 (asset (pos 500) sym) [])
          (next ctx (creating 1 (asset (pos 1000) sym)) start sdk-IsSdk refl) sdk-IsSdk refl)
        sdk-IsSdk refl)
      sdk-IsSdk refl

-- The state after 1 has sent 200 to 2, with a fee of 2.
abbrev charged : State
charged = record configured {
  accounts =
      record { scope = 2; key = 7; payer = 2; row = holder (pos 198) }
      ∷ record { scope = 3; key = 7; payer = 1; row = holder (pos 2) }
      ∷ record { scope = 1; key = 7; payer = 1; row = holder (pos 300) }
      ∷ [];
  recipients = 2 ∷ 1 ∷ [];
  sent =
      record { payer_from = 1; payer_to = 2; receiver = 3; fee = asset (pos 2) sym; memo = [] }
      ∷ [];
}

transfer-configured : transfer ctx 1 2 (asset (pos 200) sym) [] configured ≡ ok charged
unfolding transfer split_fee pay_fee pays_fee multiply_decimal sub_balance add_balance ◌+ℤ◌ ◌-ℤ◌
    ◌*ℤ◌ ◌/ℤ◌
transfer-configured = refl

Reach-fees_example :
    (total (held 7) configured.accounts ≡ supply_of 7 configured.stats)
    × (pos 0 ≤ℤ supply_of 7 configured.stats)
    × ((s : Name) (a : Account)
        → find s 7 configured.accounts ≡ some a
        → (pos 0 ≤ℤ a.balance.amount) × (a.balance.amount ≤ℤ supply_of 7 configured.stats))
    × ((r : CurrencyStats)
        → find 7 7 configured.stats ≡ some r
        → (r.supply.amount ≤ℤ r.max_supply.amount)
          × (r.max_supply.amount ≤ℤ pos max_amount)
          × (r.fee_ratio < ratio_boost)
          × (pos 0 ≤ℤ r.min_fee_quantity.amount))
Reach-fees_example = Reach-fees 7 configured-Reach

split_fee_total_example :
    let fee = fee_on 200 100 (pos 0) in
    (split_fee ctx settings (asset (pos 200) sym) true
      ≡ ok (asset (pos 200 -ℤ fee) sym, asset fee sym))
    × (pos 0 ≤ℤ fee)
    × (fee <ℤ pos 200)
split_fee_total_example =
    split_fee_total ctx sdk-IsSdk settings 200 (asset (pos 200) sym) refl (omega arith)
      (omega arith) (omega arith) (omega arith) (omega arith)

transfer_splits_example :
    (row : CurrencyStats) × (find 7 7 configured.stats ≡ some row)
    × (pos 0 ≤ℤ charge row 2 (asset (pos 200) sym) configured)
    × (charge row 2 (asset (pos 200) sym) configured <ℤ pos 200)
    × ((o c : ℕ)
        → amount_of o c charged.accounts +ℤ part 1 (asset (pos 200) sym) o c
          ≡ amount_of o c configured.accounts
            +ℤ part 2 (asset (pos 200 -ℤ charge row 2 (asset (pos 200) sym) configured) sym) o c
            +ℤ part row.fee_receiver
                (asset (charge row 2 (asset (pos 200) sym) configured) sym)
                o
                c)
    × (charged.stats ≡ configured.stats)
transfer_splits_example =
    transfer_splits ctx sdk-IsSdk 1 2 (asset (pos 200) sym) [] configured charged
      (Reach-IsValid configured-Reach) transfer-configured

transfer_allowed_example :
    (ctx.has_auth 1 ≡ true)
    × ((row : CurrencyStats) × (find 7 7 configured.stats ≡ some row)
        × (row.is_paused ≡ false)
        × (row.min_fee_quantity.amount <ℤ pos 200)
        × Thawed row 1 (find 1 7 configured.accounts)
        × Thawed row 2 (find 2 7 configured.accounts))
transfer_allowed_example =
    transfer_allowed ctx sdk-IsSdk 1 2 (asset (pos 200) sym) [] configured charged
      transfer-configured
