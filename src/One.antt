-- ===== src/One.antt =====
-- src_mining/contracts/amax.one: the tables of `class amax_one`, and the swap of a deposit of APL
-- for mined tokens, at once or after the check of an advertisement. Inline actions are collected
-- in the state, the newest first.
pub mod Admin
pub mod Memos
pub mod Claims
pub mod Swaps
pub mod Orders
pub mod Deposits
mod Tests
use amax_contracts.Common.{
  ℕ, ◌+◌, ◌-◌, ◌/◌, ◌%◌, ◌^◌, Bool, true, false, not, ◌&&◌, ◌||◌, ◌==◌, ltb, leb, if◌then◌else◌,
  List, [], ◌∷◌, length, Result, ok, ◌>>=◌, ◌>>◌, check, or_err,
}
use amax_contracts.Common.Int.{ℤ, pos, negsuc, ltb_ℤ, eqb_ℤ}
use amax_contracts.Chain.{Name, Symbol, Asset, symbol_eq, Context, require_auth, Memo}
use amax_contracts.Chain.Table.{Table, find, emplace, modify, erase}
use amax_contracts.One.Memos.{get_ads_id}

-- `struct global_t`; times are seconds since the epoch.
pub record Global : Type 0 where
  pub mine_token_contract : Name
  pub admin : Name
  pub last_order_id : ℕ
  pub started_at : ℕ
  pub ended_at : ℕ

-- `struct ads_order_t`, under its id.
pub record AdsOrder : Type 0 where
  pub id : ℕ
  pub miner : Name
  pub ads_id : Memo
  pub recd_apls : Asset
  pub created_at : ℕ
  pub expired_at : ℕ

-- `struct swap_conf_t`, under its amount of APL.
pub record SwapConf : Type 0 where
  pub swap_amount : ℕ
  pub swap_tokens : Asset
  pub swap_tokens_after_adscheck : Asset
  pub mine_token_total : Asset
  pub mine_token_remained : Asset

-- The inline actions: `TRANSFER(bank, to, quantity, memo)`, and the log of a swap.
pub data Sent : Type 0 where
  transferred : Name → Name → Asset → Memo → Sent
  logged : Name → Asset → Asset → Memo → ℕ → Sent

pub record State : Type 0 where
  pub global : Global
  pub swap_confs : Table SwapConf
  pub ads_orders : Table AdsOrder
  pub sent : List Sent
  pub recipients : List Name

-- The chain, with what is read of two token contracts: `aplink::token::get_sum` of an account,
-- which aborts without a row, and the blacklist of `amax.token`.
pub record Env : Type 0 where
  pub chain : Context
  pub open chain use *
  pub apl_sum : Name → Result Asset
  pub token_blacklist : Name → Bool

abbrev pub apl_symbol : Symbol
apl_symbol = record { code = 0x4c5041; precision = 4 }

-- `time_point_sec(current_time_point())`, of 32 bits.
abbrev pub now_sec : Env → ℕ
now_sec env = env.now / 1000000 % 2 ^ 32

-- A signed amount as the 64-bit key of a table.
abbrev pub key_of : ℤ → ℕ
key_of (pos n) = n % 2 ^ 64
key_of (negsuc n) = 2 ^ 64 - 1 - n

abbrev pub reward_of : Bool → SwapConf → Asset
reward_of ads_checked conf =
    if ads_checked then conf.swap_tokens_after_adscheck else conf.swap_tokens

-- `_claim_reward`; its comparison `a <= b` is the negation of `b < a`.
unfoldable pub claim_reward : Env → Name → Asset → Bool → Memo → Memo → State → Result State
claim_reward env to recd_apls ads_checked ads_id memo st = do
  conf ← or_err (find env.self (key_of recd_apls.amount) st.swap_confs) "swap conf not found"
  let reward = reward_of ads_checked conf
  check (ltb_ℤ (pos 0) reward.amount) "swap token must greater than 0"
  short ← env.sdk.lt conf.mine_token_remained reward
  check (not short) "reward token not enough"
  left ← env.sdk.sub conf.mine_token_remained reward
  ok (record st {
    swap_confs =
        modify env.self (key_of recd_apls.amount) env.self
          (record conf { mine_token_remained = left }) st.swap_confs;
    sent =
        logged to recd_apls reward ads_id env.now
        ∷ transferred st.global.mine_token_contract to reward memo
        ∷ st.sent;
  })

-- `_add_adsorder`
unfoldable pub add_adsorder : Env → Name → Asset → Memo → State → Result State
add_adsorder env miner quantity ads_id st = do
  let id = (st.global.last_order_id + 1) % 2 ^ 64
  let order : AdsOrder = record {
    id = id;
    miner = miner;
    ads_id = ads_id;
    recd_apls = quantity;
    created_at = now_sec env;
    expired_at = (now_sec env + 3600) % 2 ^ 32;
  }
  rows ← emplace env.self id env.self order st.ads_orders
  ok (record st { global = record st.global { last_order_id = id }; ads_orders = rows })

-- The end of `ontransfer`: a deposit of 100 APL with an advertisement waits for its check.
unfoldable pub is_ads_order : Asset → Memo → Bool
is_ads_order quantity memo =
    ltb 10 (length memo) && eqb_ℤ quantity.amount (pos 1000000) && ltb 4 (length (get_ads_id memo))

-- `ontransfer`, from the test of the blacklist on.
unfoldable pub take_deposit : Env → Name → Asset → Memo → State → Result State
take_deposit env from quantity memo st = do
  check (leb st.global.started_at (now_sec env)) "amax #1 not open yet"
  check (ltb (now_sec env) st.global.ended_at) "amax #1 already ended"
  check (symbol_eq quantity.symbol apl_symbol) "None APL symbol not allowed"
  conf ← or_err (find env.self (key_of quantity.amount) st.swap_confs) "swap amount not supported"
  short ← env.sdk.lt conf.mine_token_remained conf.swap_tokens
  check (not short) "swap not enought amax "
  if is_ads_order quantity memo
      then add_adsorder env from quantity (get_ads_id memo) st
      else claim_reward env from quantity false [] [] st

unfoldable pub checked_deposit : Env → Name → Asset → Memo → State → Result State
checked_deposit env from quantity memo st = do
  check (ltb_ℤ (pos 0) quantity.amount) "quantity must be positive"
  sumbalance ← env.apl_sum from
  check (ltb_ℤ sumbalance.amount (pos 10000000))
      "apl sum greater than or equal to 1000, please go to the pro pool to mine"
  if env.token_blacklist from then ok st else take_deposit env from quantity memo st

unfoldable pub ontransfer : Env → Name → Name → Asset → Memo → State → Result State
ontransfer env from to quantity memo st =
    if from == env.self || not (to == env.self)
    then ok st
    else checked_deposit env from quantity memo st

abbrev pub drop_order : Env → ℕ → State → State
drop_order env order_id st = record st { ads_orders = erase env.self order_id st.ads_orders }

unfoldable pub confirmads : Env → ℕ → State → Result State
confirmads env order_id st = do
  require_auth env.chain st.global.admin
  order ← or_err (find env.self order_id st.ads_orders) "order_id not existed"
  paid ← claim_reward env order.miner order.recd_apls true order.ads_id [] st
  ok (drop_order env order_id paid)

unfoldable pub onswapexpird : Env → ℕ → State → Result State
onswapexpird env order_id st = do
  require_auth env.chain st.global.admin
  order ← or_err (find env.self order_id st.ads_orders) "order_id not existed"
  paid ← claim_reward env order.miner order.recd_apls false [] [] st
  ok (drop_order env order_id paid)
