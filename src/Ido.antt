-- ===== src/Ido.antt =====
-- src_mining/contracts/amax.ido: the sale of AMAX for MUSDT at a set price, of `class amax_ido`,
-- with the rounded division of its math.hpp.
pub mod Rounding
pub mod Sales
mod Tests
use amax_contracts.Common.{
  ℕ, ◌+◌, ◌-◌, ◌*◌, ◌/◌, ◌%◌, ◌^◌, Bool, not, ◌||◌, ◌==◌, ltb, leb, if◌then◌else◌, List, [], ◌∷◌,
  Result, ok, ◌>>=◌, ◌>>◌, check,
}
use amax_contracts.Common.Int.{ℤ, pos, negsuc, ltb_ℤ}
use amax_contracts.Chain.{Name, Symbol, Asset, asset, symbol_eq, Context, require_auth}
use amax_contracts.Chain.Names

abbrev pub sys_symbol : Symbol
sys_symbol = record { code = 0x58414d41; precision = 8 }

abbrev pub usdt_symbol : Symbol
usdt_symbol = record { code = 0x544453554d; precision = 6 }

-- "amax.mtoken"
abbrev pub usdt_bank : Name
usdt_bank = 0x348dd04b3482a600

-- `struct global_t`, and the values that it starts with.
pub record Global : Type 0 where
  pub amax_price : Asset
  pub min_buy_amount : Asset
  pub admin : Name

abbrev pub initial : Global
initial = record {
  amax_price = asset (pos 100000000) usdt_symbol;
  min_buy_amount = asset (pos 1000000) sys_symbol;
  admin = 0x348dd0d292d61390;
}

-- `TRANSFER(bank, to, quantity, memo)`; its memo prints the price.
pub record Payment : Type 0 where
  pub bank : Name
  pub to : Name
  pub quantity : Asset

pub record State : Type 0 where
  pub global : Global
  pub sent : List Payment

-- The chain, the SDK's constructor of an asset, and the contract's AMAX at `amax.token`, whose
-- reading aborts without a row.
pub record Env : Type 0 where
  pub chain : Context
  pub open chain use *
  pub make_asset : ℤ → Symbol → Result Asset
  pub get_balance : Result Asset

-- `wasm::safemath::divide_decimal`, on unsigned 128-bit integers.
unfoldable pub divide_decimal : ℕ → ℕ → ℕ → ℕ
divide_decimal a b precision = (10 * a % 2 ^ 128 * precision % 2 ^ 128 / b + 5) % 2 ^ 128 / 10

-- The conversions of C++ between 64 signed bits and 128 unsigned ones.
abbrev pub to_uint128 : ℤ → ℕ
to_uint128 (pos n) = n
to_uint128 (negsuc n) = 2 ^ 128 - 1 - n

abbrev pub to_int64 : ℕ → ℤ
to_int64 n =
    if ltb (n % 2 ^ 64) (2 ^ 63) then pos (n % 2 ^ 64) else negsuc (2 ^ 64 - 1 - n % 2 ^ 64)

-- A positive amount times 100, in 64 signed bits.
abbrev pub times_100 : ℤ → ℤ
times_100 (pos n) = to_int64 (n * 100)
times_100 (negsuc n) = to_int64 (2 ^ 128 - (n + 1) * 100)

-- `get_precision`
unfoldable pub get_precision : Symbol → Result ℕ
get_precision s = do
  check (leb s.precision 18) "precision digit should be in range[0,18]"
  ok (10 ^ s.precision)

unfoldable pub init : Env → Name → State → Result State
init env admin st = do
  require_auth env.chain env.self
  ok (record st { global = record st.global { admin = admin } })

unfoldable pub setprice : Env → Asset → State → Result State
setprice env price st = do
  require_auth env.chain st.global.admin
  check (symbol_eq price.symbol usdt_symbol) "Only USDT is supported for payment"
  check (ltb_ℤ (pos 0) price.amount) "negative price not allowed"
  ok (record st { global = record st.global { amax_price = price } })

-- `ontransfer`, of a deposit from another contract than `amax.token`.
unfoldable pub sell : Env → Name → Asset → State → Result State
sell env from quantity st = do
  check (ltb_ℤ (pos 0) quantity.amount) "quantity must be positive"
  check (env.first_receiver == usdt_bank) "None USDT contract not allowed"
  check (symbol_eq quantity.symbol usdt_symbol) "None USDT symbol not allowed"
  let price = st.global.amax_price
  precision ← get_precision price.symbol
  let amount =
      divide_decimal (to_uint128 (times_100 quantity.amount)) (to_uint128 price.amount) precision
  quant ← env.make_asset (to_int64 amount) sys_symbol
  balance ← env.get_balance
  enough ← env.sdk.lt quant balance
  check enough "insufficent funds to buy"
  small ← env.sdk.lt quant st.global.min_buy_amount
  check (not small) "buy amount too small"
  ok (record st {
    sent = record { bank = Names.amax_token; to = from; quantity = quant } ∷ st.sent;
  })

unfoldable pub ontransfer : Env → Name → Name → Asset → State → Result State
ontransfer env from to quantity st =
    if from == env.self || not (to == env.self) || env.first_receiver == Names.amax_token
    then ok st
    else sell env from quantity st

-- The actions and the notification that the contract dispatches.
pub data Action : Type 0 where
  inits : Name → Action
  prices : Asset → Action
  deposits : Name → Name → Asset → Action

unfoldable pub apply : Env → Action → State → Result State
apply env (inits admin) st = init env admin st
apply env (prices price) st = setprice env price st
apply env (deposits from to quantity) st = ontransfer env from to quantity st
