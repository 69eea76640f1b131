-- ===== src/Xtoken/Admin.antt =====
-- src_system/contracts/amax.xtoken: the actions that open and close accounts, and those by which the
-- issuer sets the fee, pauses the token and freezes accounts.
use amax_contracts.Common.{
  ℕ, Bool, true, false, not, ltb, [], Result, ok, ◌>>=◌, ◌>>◌, check, or_err,
}
use amax_contracts.Common.Int.{pos, ltb_ℤ, eqb_ℤ}
use amax_contracts.Chain.{Name, Symbol, Asset, asset, symbol_eq, Context, require_auth, Memo}
use amax_contracts.Chain.Table.{find, contains, emplace, modify, modify_same, erase}
use amax_contracts.Xtoken.{
  Account, CurrencyStats, State, set_accounts, set_stats, ratio_boost, new_account,
  is_account_frozen, create, issue, retire, transfer, notifypayfee,
}

abbrev pub open_row : Name → Symbol → Name → State → Bool → Result State
open_row owner symbol ram_payer st true = ok st
open_row owner symbol ram_payer st false = do
  rows ← emplace owner symbol.code ram_payer (new_account (asset (pos 0) symbol)) st.accounts
  ok (set_accounts rows st)

-- The private `open_account`, whose result no caller reads.
unfoldable pub open_account : Name → Symbol → Name → State → Result State
open_account owner symbol ram_payer st =
    open_row owner symbol ram_payer st (contains owner symbol.code st.accounts)

-- The action `open`.
unfoldable pub opens : Context → Name → Symbol → Name → State → Result State
opens ctx owner symbol ram_payer st = do
  require_auth ctx ram_payer
  check (ctx.is_account owner) "owner account does not exist"
  row ← or_err (find symbol.code symbol.code st.stats) "token of symbol does not exist"
  check (symbol_eq row.supply.symbol symbol) "symbol precision mismatch"
  check (not row.is_paused) "token is paused"
  open_account owner symbol ram_payer st

unfoldable pub close : Context → Name → Symbol → State → Result State
unfolding is_account_frozen
close ctx owner symbol st = do
  require_auth ctx owner
  row ← or_err (find symbol.code symbol.code st.stats) "token of symbol does not exist"
  check (symbol_eq row.supply.symbol symbol) "symbol precision mismatch"
  check (not row.is_paused) "token is paused"
  acct ←
      or_err (find owner symbol.code st.accounts)
        "Balance row already deleted or never existed. Action won't have any effect."
  check (not (is_account_frozen row owner acct)) "account is frozen"
  check (eqb_ℤ acct.balance.amount (pos 0)) "Cannot close because the balance is not zero."
  ok (set_accounts (erase owner symbol.code st.accounts) st)

-- `update_currency_field`, with the write to the field as a function.
unfoldable pub update_currency_field :
    Context → Symbol → (CurrencyStats → CurrencyStats) → State → Result (State × CurrencyStats)
update_currency_field ctx symbol write st = do
  row ← or_err (find symbol.code symbol.code st.stats) "token of symbol does not exist"
  check (symbol_eq row.supply.symbol symbol) "symbol precision mismatch"
  require_auth ctx row.issuer
  ok (set_stats (modify_same symbol.code symbol.code (write row) st.stats) st, write row)

unfoldable pub feeratio : Context → Symbol → ℕ → State → Result State
feeratio ctx symbol fee_ratio st = do
  check (ltb fee_ratio ratio_boost) "fee_ratio out of range"
  out ← update_currency_field ctx symbol (λ r. record r { fee_ratio = fee_ratio }) st
  ok out.0

unfoldable pub feereceiver : Context → Symbol → Name → State → Result State
feereceiver ctx symbol fee_receiver st = do
  check (ctx.is_account fee_receiver) "Invalid account of fee_receiver"
  out ← update_currency_field ctx symbol (λ r. record r { fee_receiver = fee_receiver }) st
  open_account fee_receiver symbol out.1.issuer out.0

unfoldable pub minfee : Context → Symbol → Asset → State → Result State
minfee ctx symbol min_fee_quantity st = do
  check (symbol_eq min_fee_quantity.symbol symbol) "symbol of min_fee_quantity  mismatch"
  check (ltb_ℤ (pos 0) min_fee_quantity.amount) "amount of min_fee_quantity can not be negative"
  out ← update_currency_field ctx symbol (λ r. record r { min_fee_quantity = min_fee_quantity }) st
  ok out.0

unfoldable pub pause : Context → Symbol → Bool → State → Result State
pause ctx symbol is_paused st = do
  out ← update_currency_field ctx symbol (λ r. record r { is_paused = is_paused }) st
  ok out.0

unfoldable pub feeexempt : Context → Symbol → Name → Bool → State → Result State
feeexempt ctx symbol account is_fee_exempt st = do
  row ← or_err (find symbol.code symbol.code st.stats) "token of symbol does not exist"
  check (symbol_eq row.supply.symbol symbol) "symbol precision mismatch"
  require_auth ctx row.issuer
  acct ← or_err (find account symbol.code st.accounts) "account of token does not exist"
  let new : Account = record acct { is_fee_exempt = is_fee_exempt }
  ok (set_accounts (modify account symbol.code row.issuer new st.accounts) st)

unfoldable pub freezeacct : Context → Symbol → Name → Bool → State → Result State
freezeacct ctx symbol account is_frozen st = do
  row ← or_err (find symbol.code symbol.code st.stats) "token of symbol does not exist"
  check (symbol_eq row.supply.symbol symbol) "symbol precision mismatch"
  require_auth ctx row.issuer
  acct ← or_err (find account symbol.code st.accounts) "account of token does not exist"
  let new : Account = record acct { is_frozen = is_frozen }
  ok (set_accounts (modify account symbol.code row.issuer new st.accounts) st)

-- The actions that the contract dispatches.
pub data Action : Type 0 where
  creating : Name → Asset → Action
  issuing : Name → Asset → Memo → Action
  retiring : Asset → Memo → Action
  transferring : Name → Name → Asset → Memo → Action
  notifying : Name → Name → Name → Asset → Memo → Action
  opening : Name → Symbol → Name → Action
  closing : Name → Symbol → Action
  setting_ratio : Symbol → ℕ → Action
  setting_receiver : Symbol → Name → Action
  setting_minimum : Symbol → Asset → Action
  exempting freezing : Symbol → Name → Bool → Action
  pausing : Symbol → Bool → Action

-- An action starts with nobody notified and nothing sent.
abbrev pub fresh : State → State
fresh st = record st { recipients = []; sent = [] }

unfoldable pub apply : Context → Action → State → Result State
apply ctx (creating issuer m) st = create ctx issuer m (fresh st)
apply ctx (issuing to q memo) st = issue ctx to q memo (fresh st)
apply ctx (retiring q memo) st = retire ctx q memo (fresh st)
apply ctx (transferring from to q memo) st = transfer ctx from to q memo (fresh st)
apply ctx (notifying from to receiver fee memo) st =
    notifypayfee ctx from to receiver fee memo (fresh st)
apply ctx (opening owner sym payer) st = opens ctx owner sym payer (fresh st)
apply ctx (closing owner sym) st = close ctx owner sym (fresh st)
apply ctx (setting_ratio sym ratio) st = feeratio ctx sym ratio (fresh st)
apply ctx (setting_receiver sym receiver) st = feereceiver ctx sym receiver (fresh st)
apply ctx (setting_minimum sym m) st = minfee ctx sym m (fresh st)
apply ctx (exempting sym account b) st = feeexempt ctx sym account b (fresh st)
apply ctx (freezing sym account b) st = freezeacct ctx sym account b (fresh st)
apply ctx (pausing sym b) st = pause ctx sym b (fresh st)
