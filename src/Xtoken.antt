-- ===== src/Xtoken.antt =====
-- src_system/contracts/amax.xtoken: the actions of `class xtoken`, a token with a transfer fee, and
-- with accounts that its issuer can freeze.
pub mod Admin
pub mod Balances
pub mod Invariant
pub mod Fees
pub mod Effects
pub mod Preserve
pub mod Settings
pub mod Actions
pub mod Transfers
mod Tests
use amax_contracts.Common.{
  ℕ, Bool, true, false, not, ◌&&◌, ◌||◌, ◌==◌, ltb, leb, if◌then◌else◌, Option, none, some, List,
  [], ◌∷◌, length, Result, ok, err, ◌>>=◌, ◌>>◌, check, or_err,
}
use amax_contracts.Common.Int.{ℤ, pos, negsuc, ltb_ℤ, leb_ℤ, eqb_ℤ, max_ℤ, ◌-ℤ◌, ◌*ℤ◌, ◌/ℤ◌}
use amax_contracts.Chain.{Name, Symbol, Asset, asset, symbol_eq, Context, require_auth, Memo}
use amax_contracts.Chain.Table.{Table, find, contains, emplace, modify, modify_same, erase}

abbrev pub ratio_boost : ℕ
ratio_boost = 10000

-- `struct account`, in the scope of its owner and under its symbol's code.
pub record Account : Type 0 where
  pub balance : Asset
  pub is_frozen : Bool
  pub is_fee_exempt : Bool

-- `struct currency_stats`, in the scope of its symbol's code and under it.
pub record CurrencyStats : Type 0 where
  pub supply : Asset
  pub max_supply : Asset
  pub issuer : Name
  pub is_paused : Bool
  pub fee_receiver : Name
  pub fee_ratio : ℕ
  pub min_fee_quantity : Asset

-- The arguments of the inline action `notifypayfee` that `transfer` sends.
pub record PayFee : Type 0 where
  pub payer_from : Name
  pub payer_to : Name
  pub receiver : Name
  pub fee : Asset
  pub memo : Memo

-- The contract's tables, the accounts notified so far, and the inline actions sent so far.
pub record State : Type 0 where
  pub accounts : Table Account
  pub stats : Table CurrencyStats
  pub recipients : List Name
  pub sent : List PayFee

abbrev pub set_accounts : Table Account → State → State
set_accounts rows st = record st { accounts = rows }

abbrev pub set_stats : Table CurrencyStats → State → State
set_stats rows st = record st { stats = rows }

abbrev pub require_recipient : Name → State → State
require_recipient n st = record st { recipients = n ∷ st.recipients }

-- `multiply_decimal<int64_t, int128_t>`, on values whose product fits 128 bits.
unfoldable pub multiply_decimal : ℤ → ℤ → ℤ → Result ℤ
multiply_decimal a b precision = do
  let tmp = a *ℤ b /ℤ precision
  check (leb_ℤ (negsuc 0x7fffffffffffffff) tmp && leb_ℤ tmp (pos 0x7fffffffffffffff))
      "overflow exception of multiply_decimal"
  ok tmp

unfoldable pub is_account_frozen : CurrencyStats → Name → Account → Bool
is_account_frozen st owner acct = acct.is_frozen && not (owner == st.issuer)

unfoldable pub sub_balance : Context → CurrencyStats → Name → Asset → Bool → State → Result State
unfolding is_account_frozen
sub_balance ctx row owner value is_check_frozen st = do
  let code = value.symbol.code
  from ← or_err (find owner code st.accounts) "no balance object found"
  check (not (is_check_frozen && is_account_frozen row owner from)) "from account is frozen"
  check (leb_ℤ value.amount from.balance.amount) "overdrawn balance"
  left ← ctx.sdk.sub from.balance value
  ok (set_accounts (modify owner code owner (record from { balance = left }) st.accounts) st)

abbrev pub new_account : Asset → Account
new_account value = record { balance = value; is_frozen = false; is_fee_exempt = false }

abbrev add_to :
    Context → CurrencyStats → Name → Asset → Name → Bool → State → Option Account → Result State
add_to ctx row owner value ram_payer is_check_frozen st none = do
  rows ← emplace owner value.symbol.code ram_payer (new_account value) st.accounts
  ok (set_accounts rows st)
add_to ctx row owner value ram_payer is_check_frozen st (some to) = do
  check (not (is_check_frozen && is_account_frozen row owner to)) "to account is frozen"
  sum ← ctx.sdk.add to.balance value
  ok (
      set_accounts (modify_same owner value.symbol.code (record to { balance = sum }) st.accounts)
        st)

unfoldable pub add_balance :
    Context → CurrencyStats → Name → Asset → Name → Bool → State → Result State
unfolding is_account_frozen
add_balance ctx row owner value ram_payer is_check_frozen st =
    add_to ctx row owner value ram_payer is_check_frozen st
      (find owner value.symbol.code st.accounts)

pub create : Context → Name → Asset → State → Result State
create ctx issuer maximum_supply st = do
  require_auth ctx ctx.self
  check (ctx.is_account issuer) "issuer account does not exist"
  let sym = maximum_supply.symbol
  check (ctx.sdk.symbol_is_valid sym) "invalid symbol name"
  check (ctx.sdk.asset_is_valid maximum_supply) "invalid supply"
  check (ltb_ℤ (pos 0) maximum_supply.amount) "max-supply must be positive"
  check (not (contains sym.code sym.code st.stats)) "token with symbol already exists"
  let row : CurrencyStats = record {
    supply = asset (pos 0) sym;
    max_supply = maximum_supply;
    issuer = issuer;
    is_paused = false;
    fee_receiver = 0;
    fee_ratio = 0;
    min_fee_quantity = asset (pos 0) sym;
  }
  rows ← emplace sym.code sym.code ctx.self row st.stats
  ok (set_stats rows st)

pub issue : Context → Name → Asset → Memo → State → Result State
issue ctx to quantity memo st = do
  let sym = quantity.symbol
  check (ctx.sdk.symbol_is_valid sym) "invalid symbol name"
  check (leb (length memo) 256) "memo has more than 256 bytes"
  row ←
      or_err (find sym.code sym.code st.stats)
        "token with symbol does not exist, create token before issue"
  check (to == row.issuer) "tokens can only be issued to issuer account"
  require_auth ctx row.issuer
  check (ctx.sdk.asset_is_valid quantity) "invalid quantity"
  check (ltb_ℤ (pos 0) quantity.amount) "must issue positive quantity"
  check (symbol_eq quantity.symbol row.supply.symbol) "symbol precision mismatch"
  check (leb_ℤ quantity.amount (row.max_supply.amount -ℤ row.supply.amount))
      "quantity exceeds available supply"
  supply ← ctx.sdk.add row.supply quantity
  let new : CurrencyStats = record row { supply = supply }
  add_balance ctx new row.issuer quantity row.issuer false
      (set_stats (modify_same sym.code sym.code new st.stats) st)

pub retire : Context → Asset → Memo → State → Result State
retire ctx quantity memo st = do
  let sym = quantity.symbol
  check (ctx.sdk.symbol_is_valid sym) "invalid symbol name"
  check (leb (length memo) 256) "memo has more than 256 bytes"
  row ← or_err (find sym.code sym.code st.stats) "token with symbol does not exist"
  require_auth ctx row.issuer
  check (ctx.sdk.asset_is_valid quantity) "invalid quantity"
  check (ltb_ℤ (pos 0) quantity.amount) "must retire positive quantity"
  check (symbol_eq quantity.symbol row.supply.symbol) "symbol precision mismatch"
  supply ← ctx.sdk.sub row.supply quantity
  let new : CurrencyStats = record row { supply = supply }
  sub_balance ctx new row.issuer quantity false
      (set_stats (modify_same sym.code sym.code new st.stats) st)

-- Whether a receiver pays no fee: its row says so.
abbrev pub exempt : Option Account → Bool
exempt none = false
exempt (some a) = a.is_fee_exempt

unfoldable pub pays_fee : CurrencyStats → Name → State → ℕ → Bool
pays_fee row to st code =
    not (row.fee_receiver == 0)
    && ltb 0 row.fee_ratio
    && not (to == row.issuer)
    && not (to == row.fee_receiver)
    && not (exempt (find to code st.accounts))

-- What the receiver gets, and the fee: `actual_recv` and `fee` of `transfer`.
unfoldable pub split_fee : Context → CurrencyStats → Asset → Bool → Result (Asset × Asset)
split_fee ctx row quantity false = ok (quantity, asset (pos 0) quantity.symbol)
split_fee ctx row quantity true = do
  share ← multiply_decimal quantity.amount (pos row.fee_ratio) (pos ratio_boost)
  let fee = asset (max_ℤ row.min_fee_quantity.amount share) quantity.symbol
  less ← ctx.sdk.lt fee quantity
  check less "the calculated fee must less than quantity"
  actual_recv ← ctx.sdk.sub quantity fee
  ok (actual_recv, fee)

unfoldable pub pay_fee :
    Context → CurrencyStats → Name → Name → Asset → Memo → Name → State → Result State
pay_fee ctx row from to fee memo payer st = do
  paid ← add_balance ctx row row.fee_receiver fee payer false st
  let notice : PayFee = record {
    payer_from = from;
    payer_to = to;
    receiver = row.fee_receiver;
    fee = fee;
    memo = memo;
  }
  ok (record paid { sent = notice ∷ paid.sent })

pub transfer : Context → Name → Name → Asset → Memo → State → Result State
transfer ctx from to quantity memo st = do
  check (not (from == to)) "cannot transfer to self"
  require_auth ctx from
  check (ctx.is_account to) "to account does not exist"
  let code = quantity.symbol.code
  row ← or_err (find code code st.stats) "token of symbol does not exist"
  check (symbol_eq row.supply.symbol quantity.symbol) "symbol precision mismatch"
  check (not row.is_paused) "token is paused"
  let notified = require_recipient to (require_recipient from st)
  check (ctx.sdk.asset_is_valid quantity) "invalid quantity"
  check (ltb_ℤ (pos 0) quantity.amount) "must transfer positive quantity"
  check (symbol_eq quantity.symbol row.supply.symbol) "symbol precision mismatch"
  check (leb (length memo) 256) "memo has more than 256 bytes"
  above ← ctx.sdk.lt row.min_fee_quantity quantity
  check above "quantity must larger than min fee"
  parts ← split_fee ctx row quantity (pays_fee row to st code)
  let payer = if ctx.has_auth to then to else from
  less ← sub_balance ctx row from quantity true notified
  more ← add_balance ctx row to parts.0 payer true less
  (if ltb_ℤ (pos 0) parts.1.amount
      then pay_fee ctx row from to parts.1 memo payer more
      else ok more)

pub notifypayfee : Context → Name → Name → Name → Asset → Memo → State → Result State
notifypayfee ctx from to fee_receiver fee memo st = do
  require_auth ctx ctx.self
  ok (require_recipient fee_receiver (require_recipient to st))
