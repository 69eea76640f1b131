-- ===== src/Token.antt =====
-- src_system/contracts/amax.token: the actions of `class token`, each from the state of the
-- contract's tables to the new state, or to the message of the check that aborts it.
pub mod Balances
pub mod Invariant
pub mod Effects
pub mod Preserve
pub mod Actions
pub mod Authority
mod Tests
pub mod Transfers
pub mod Blacklists
use amax_contracts.Common.{
  Bool, true, false, not, ◌&&◌, ◌||◌, ◌==◌, leb, if◌then◌else◌, Option, none, some, List, [], ◌∷◌,
  length, Result, ok, ◌>>=◌, ◌>>◌, check, or_err,
}
use amax_contracts.Common.Int.{pos, ltb_ℤ, leb_ℤ, eqb_ℤ, ◌-ℤ◌}
use amax_contracts.Chain.{Name, Symbol, Asset, asset, symbol_eq, Context, require_auth, Memo}
use amax_contracts.Chain.Names
use amax_contracts.Chain.Table.{Table, find, contains, emplace, modify, modify_same, erase}

-- `struct account`, in the scope of its owner and under its symbol's code.
pub record Account : Type 0 where
  pub balance : Asset

-- `struct currency_stats`, in the scope of its symbol's code and under it.
pub record CurrencyStats : Type 0 where
  pub supply : Asset
  pub max_supply : Asset
  pub issuer : Name

-- `struct blacklist_t`, in the scope of the contract.
pub record Blacklisted : Type 0 where
  pub account : Name

-- The contract's tables, and the accounts that the transaction has notified so far.
pub record State : Type 0 where
  pub accounts : Table Account
  pub stats : Table CurrencyStats
  pub blacklist : Table Blacklisted
  pub recipients : List Name

-- The chain, with what the code reads of other contracts' tables: who is on the blacklist of
-- `amax.degov`, and on that of a token contract other than this one.
pub record Env : Type 0 where
  pub chain : Context
  pub open chain use *
  pub degov_blacklist : Name → Bool
  pub foreign_blacklist : Name → Name → Bool

-- `degov::is_blacklisted`
unfoldable pub degov_is_blacklisted : Env → Name → Bool
degov_is_blacklisted env account =
    not (account == Names.amax)
    && not (account == Names.armoniaadmin)
    && env.degov_blacklist account

-- `_is_blacklisted`
unfoldable pub is_blacklisted : Env → State → Name → Name → Bool
is_blacklisted env st target token_contract =
    (if token_contract == env.self
      then contains token_contract target st.blacklist
      else env.foreign_blacklist token_contract target)
    || degov_is_blacklisted env target

abbrev pub require_recipient : Name → State → State
require_recipient n st = record st { recipients = n ∷ st.recipients }

abbrev pub set_accounts : Table Account → State → State
set_accounts rows st = record st { accounts = rows }

abbrev pub set_stats : Table CurrencyStats → State → State
set_stats rows st = record st { stats = rows }

unfoldable pub sub_balance : Env → Name → Asset → State → Result State
sub_balance env owner value st = do
  row ← or_err (find owner value.symbol.code st.accounts) "no balance object found"
  check (leb_ℤ value.amount row.balance.amount) "overdrawn balance"
  left ← env.sdk.sub row.balance value
  ok (
      set_accounts (modify owner value.symbol.code owner (record { balance = left }) st.accounts)
        st)

abbrev add_to : Env → Name → Asset → Name → State → Option Account → Result State
add_to env owner value ram_payer st none = do
  rows ← emplace owner value.symbol.code ram_payer (record { balance = value }) st.accounts
  ok (set_accounts rows st)
add_to env owner value ram_payer st (some row) = do
  sum ← env.sdk.add row.balance value
  ok (set_accounts (modify_same owner value.symbol.code (record { balance = sum }) st.accounts) st)

unfoldable pub add_balance : Env → Name → Asset → Name → State → Result State
add_balance env owner value ram_payer st =
    add_to env owner value ram_payer st (find owner value.symbol.code st.accounts)

pub create : Env → Name → Asset → State → Result State
create env issuer maximum_supply st = do
  require_auth env.chain env.self
  check (env.is_account issuer) "issuer account does not exist"
  let sym = maximum_supply.symbol
  check (env.sdk.symbol_is_valid sym) "invalid symbol name"
  check (env.sdk.asset_is_valid maximum_supply) "invalid supply"
  check (ltb_ℤ (pos 0) maximum_supply.amount) "max-supply must be positive"
  check (not (contains sym.code sym.code st.stats)) "token with symbol already exists"
  let row : CurrencyStats = record {
    supply = asset (pos 0) sym;
    max_supply = maximum_supply;
    issuer = issuer;
  }
  rows ← emplace sym.code sym.code env.self row st.stats
  ok (set_stats rows st)

pub issue : Env → Name → Asset → Memo → State → Result State
issue env issuer quantity memo st = do
  let sym = quantity.symbol
  check (env.sdk.symbol_is_valid sym) "invalid symbol name"
  check (leb (length memo) 256) "memo has more than 256 bytes"
  row ←
      or_err (find sym.code sym.code st.stats)
        "token with symbol does not exist, create token before issue"
  check (issuer == row.issuer) "tokens can only be issued to issuer account"
  require_auth env.chain row.issuer
  check (env.sdk.asset_is_valid quantity) "invalid quantity"
  check (ltb_ℤ (pos 0) quantity.amount) "must issue positive quantity"
  check (symbol_eq quantity.symbol row.supply.symbol) "symbol precision mismatch"
  check (leb_ℤ quantity.amount (row.max_supply.amount -ℤ row.supply.amount))
      "quantity exceeds available supply"
  supply ← env.sdk.add row.supply quantity
  add_balance env row.issuer quantity row.issuer
      (set_stats (modify_same sym.code sym.code (record row { supply = supply }) st.stats) st)

pub setissue : Env → Name → Symbol → Name → State → Result State
setissue env issuer sym newissuer st = do
  check (not (issuer == newissuer)) "tokens issuer account is same"
  check (env.sdk.symbol_is_valid sym) "invalid symbol name"
  row ←
      or_err (find sym.code sym.code st.stats)
        "token with symbol does not exist, create token before issue"
  check (issuer == row.issuer) "tokens can only be issued to issuer account"
  require_auth env.chain row.issuer
  check (symbol_eq sym row.supply.symbol) "symbol precision mismatch"
  ok (set_stats (modify_same sym.code sym.code (record row { issuer = newissuer }) st.stats) st)

pub slashblack : Env → Name → Asset → Memo → State → Result State
slashblack env target quantity memo st = do
  check (env.has_auth Names.amax || env.has_auth Names.armoniaadmin || env.has_auth Names.amax_dao)
      "no auth to operate"
  check (is_blacklisted env st target env.self) "blacklisted acccounts only!"
  let code = quantity.symbol.code
  check (leb (length memo) 256) "memo has more than 256 bytes"
  check (env.sdk.asset_is_valid quantity) "invalid quantity"
  check (ltb_ℤ (pos 0) quantity.amount) "must slash positive quantity"
  held ← or_err (find target code st.accounts) "no balance object found"
  short ← env.sdk.lt held.balance quantity
  check (not short) "overdrawn balance"
  left ← env.sdk.sub held.balance quantity
  let slashed = modify_same target code (record { balance = left }) st.accounts
  row ← or_err (find code code st.stats) "token with symbol does not exist"
  supply ← env.sdk.sub row.supply quantity
  let rows = modify_same code code (record row { supply = supply }) st.stats
  ok (require_recipient target (set_stats rows (set_accounts slashed st)))

pub retire : Env → Asset → Memo → State → Result State
retire env quantity memo st = do
  let sym = quantity.symbol
  check (env.sdk.symbol_is_valid sym) "invalid symbol name"
  check (leb (length memo) 256) "memo has more than 256 bytes"
  row ← or_err (find sym.code sym.code st.stats) "token with symbol does not exist"
  require_auth env.chain row.issuer
  check (env.sdk.asset_is_valid quantity) "invalid quantity"
  check (ltb_ℤ (pos 0) quantity.amount) "must retire positive quantity"
  check (symbol_eq quantity.symbol row.supply.symbol) "symbol precision mismatch"
  supply ← env.sdk.sub row.supply quantity
  sub_balance env row.issuer quantity
      (set_stats (modify_same sym.code sym.code (record row { supply = supply }) st.stats) st)

-- The two loops of `blacklist`: a name that is there already, or not there, is skipped.
unfoldable pub add_all : Name → List Name → Table Blacklisted → Result (Table Blacklisted)
add_all self [] rows = ok rows
add_all self (target ∷ targets) rows =
    (if contains self target rows
      then ok rows
      else emplace self target self (record { account = target }) rows)
    >>= add_all self targets

unfoldable pub remove_all : Name → List Name → Table Blacklisted → Table Blacklisted
remove_all self [] rows = rows
remove_all self (target ∷ targets) rows =
    remove_all self targets (if contains self target rows then erase self target rows else rows)

pub blacklist : Env → List Name → Bool → State → Result State
blacklist env targets to_add st = do
  check (env.has_auth env.self || env.has_auth Names.armoniaadmin) "not authorized"
  check (leb (length targets) 50) "overiszed targets"
  rows ←
      if to_add
      then add_all env.self targets st.blacklist
      else ok (remove_all env.self targets st.blacklist)
  ok (record st { blacklist = rows })

-- The guards on the two accounts of a transfer, before its token is looked up.
unfoldable pub may_send : Env → Name → Name → State → Result (Unit {0})
may_send env from to st = do
  require_auth env.chain from
  check (not (from == to)) "cannot transfer to self"
  check (env.is_account to) "to account does not exist"
  check (not (from == Names.aaaaaaaaaaaa) || to == Names.amax) "can only transfer to amax"
  check (not (is_blacklisted env st from Names.amax_token) || to == Names.oooo)
      "blacklisted accounts can only transfer to oooo"

pub transfer : Env → Name → Name → Asset → Memo → State → Result State
transfer env from to quantity memo st = do
  may_send env from to st
  let code = quantity.symbol.code
  row ← or_err (find code code st.stats) "unable to find key"
  let notified = require_recipient to (require_recipient from st)
  check (env.sdk.asset_is_valid quantity) "invalid quantity"
  check (ltb_ℤ (pos 0) quantity.amount) "must transfer positive quantity"
  check (symbol_eq quantity.symbol row.supply.symbol) "symbol precision mismatch"
  check (leb (length memo) 256) "memo has more than 256 bytes"
  let payer = if env.has_auth to then to else from
  paid ← sub_balance env from quantity notified
  add_balance env to quantity payer paid

abbrev open_new : Env → Name → Symbol → Name → State → Bool → Result State
open_new env owner symbol ram_payer st true = ok st
open_new env owner symbol ram_payer st false = do
  rows ← emplace owner symbol.code ram_payer (record { balance = asset (pos 0) symbol }) st.accounts
  ok (set_accounts rows st)

pub open_account : Env → Name → Symbol → Name → State → Result State
open_account env owner symbol ram_payer st = do
  require_auth env.chain ram_payer
  check (env.is_account owner) "owner account does not exist"
  row ← or_err (find symbol.code symbol.code st.stats) "symbol does not exist"
  check (symbol_eq row.supply.symbol symbol) "symbol precision mismatch"
  open_new env owner symbol ram_payer st (contains owner symbol.code st.accounts)

pub close : Env → Name → Symbol → State → Result State
close env owner symbol st = do
  require_auth env.chain owner
  row ←
      or_err (find owner symbol.code st.accounts)
        "Balance row already deleted or never existed. Action won't have any effect."
  check (eqb_ℤ row.balance.amount (pos 0)) "Cannot close because the balance is not zero."
  ok (set_accounts (erase owner symbol.code st.accounts) st)

-- The actions that the contract dispatches.
pub data Action : Type 0 where
  creates : Name → Asset → Action
  issues : Name → Asset → Memo → Action
  setissues : Name → Symbol → Name → Action
  slashes : Name → Asset → Memo → Action
  retires : Asset → Memo → Action
  blacklists : List Name → Bool → Action
  transfers : Name → Name → Asset → Memo → Action
  opens : Name → Symbol → Name → Action
  closes : Name → Symbol → Action

-- An action starts with nobody notified.
abbrev pub fresh : State → State
fresh st = record st { recipients = [] }

unfoldable pub apply : Env → Action → State → Result State
apply env (creates issuer m) st = create env issuer m (fresh st)
apply env (issues issuer q memo) st = issue env issuer q memo (fresh st)
apply env (setissues issuer sym next) st = setissue env issuer sym next (fresh st)
apply env (slashes target q memo) st = slashblack env target q memo (fresh st)
apply env (retires q memo) st = retire env q memo (fresh st)
apply env (blacklists targets to_add) st = blacklist env targets to_add (fresh st)
apply env (transfers from to q memo) st = transfer env from to q memo (fresh st)
apply env (opens owner sym payer) st = open_account env owner sym payer (fresh st)
apply env (closes owner sym) st = close env owner sym (fresh st)
