-- ===== src/Chain.antt =====
-- What the contracts take from the chain and its SDK (amax.cdt, which the repository only calls):
-- names, symbols and assets as data, and the SDK's functions on them as the parameter `Sdk`.
pub mod Table
pub mod Names
pub mod Sample
use amax_contracts.Common.{ℕ, ◌≡◌, Bool, true, ◌&&◌, ◌==◌, List, Result, ok, err, check}
use amax_contracts.Common.Int.{ℤ, pos, negsuc, ◌+ℤ◌, ◌-ℤ◌, ◌≤ℤ◌, ltb_ℤ, eqb_ℤ}

-- An `eosio::name` is its 64-bit value.
abbrev pub Name : Type 0
Name = ℕ

-- `eosio::symbol`: the raw value of its code, and its precision.
pub record Symbol : Type 0 where
  pub code : ℕ
  pub precision : ℕ

-- `eosio::asset`: a signed 64-bit amount of a symbol.
pub record Asset : Type 0 where
  pub amount : ℤ
  pub symbol : Symbol

abbrev pub asset : ℤ → Symbol → Asset
asset n s = record { amount = n; symbol = s }

abbrev pub symbol_eq : Symbol → Symbol → Bool
symbol_eq s t = s.code == t.code && s.precision == t.precision

-- `asset::max_amount`, 2^62 - 1.
abbrev pub max_amount : ℕ
max_amount = 0x3fffffffffffffff

abbrev pub InRange : ℤ → Type 0
InRange n = (n ≤ℤ pos max_amount) × (negsuc 0x3ffffffffffffffe ≤ℤ n)

-- The SDK's functions that the contracts call. `add` and `sub` are `asset::operator+=` and `-=`
-- (`+` and `-` are the same), `lt` and `eq` are `operator<` and `==`, `make` is the constructor;
-- each aborts with a message of its own. `neg` is the unary minus.
pub record Sdk : Type 0 where
  pub symbol_is_valid : Symbol → Bool
  pub asset_is_valid : Asset → Bool
  pub add : Asset → Asset → Result Asset
  pub sub : Asset → Asset → Result Asset
  pub lt : Asset → Asset → Result Bool
  pub eq : Asset → Asset → Result Bool
  pub neg : Asset → Asset
  pub make : ℤ → Symbol → Result Asset

-- The outcome of an asset's arithmetic, whose exact result is `n`: that amount of the first asset's
-- symbol, or an abort where the symbols differ or `n` is out of range.
abbrev pub Computes : ℤ → Asset → Asset → Result Asset → Type 0
Computes n a b (ok c) = (c ≡ asset n a.symbol) × (b.symbol ≡ a.symbol) × InRange n
Computes n a b (err _) = b.symbol ≡ a.symbol → InRange n → ⊥

-- The outcome of a comparison, which aborts where the symbols differ.
abbrev pub Compares : Asset → Asset → Result Bool → Type 0
Compares a b (ok r) = (b.symbol ≡ a.symbol) × (r ≡ ltb_ℤ a.amount b.amount)
Compares a b (err _) = b.symbol ≡ a.symbol → ⊥

abbrev pub Equates : Asset → Asset → Result Bool → Type 0
Equates a b (ok r) = (b.symbol ≡ a.symbol) × (r ≡ eqb_ℤ a.amount b.amount)
Equates a b (err _) = b.symbol ≡ a.symbol → ⊥

-- The outcome of making an asset, which aborts where the amount is out of range or the symbol is
-- not valid.
abbrev pub Makes : Bool → ℤ → Symbol → Result Asset → Type 0
Makes valid n s (ok c) = (c ≡ asset n s) × InRange n × (valid ≡ true)
Makes valid n s (err _) = InRange n → valid ≡ true → ⊥

-- What the SDK documents of its functions.
pub record IsSdk (s : Sdk) : Type 0 where
  pub valid_range : (a : Asset) → s.asset_is_valid a ≡ true → InRange a.amount
  pub valid_symbol : (a : Asset) → s.asset_is_valid a ≡ true → s.symbol_is_valid a.symbol ≡ true
  pub valid_lem :
      (a : Asset) → InRange a.amount → s.symbol_is_valid a.symbol ≡ true → s.asset_is_valid a ≡ true
  pub add_lem : (a b : Asset) → Computes (a.amount +ℤ b.amount) a b (s.add a b)
  pub sub_lem : (a b : Asset) → Computes (a.amount -ℤ b.amount) a b (s.sub a b)
  pub lt_lem : (a b : Asset) → Compares a b (s.lt a b)
  pub eq_lem : (a b : Asset) → Equates a b (s.eq a b)
  pub neg_lem : (a : Asset) → s.neg a ≡ asset (pos 0 -ℤ a.amount) a.symbol
  pub make_lem : (n : ℤ) (t : Symbol) → Makes (s.symbol_is_valid t) n t (s.make n t)

-- What a transaction is run with: the contract's account, who has signed, which accounts exist,
-- the current time in microseconds, the account whose action was notified, and the SDK.
pub record Context : Type 0 where
  pub self : Name
  pub has_auth : Name → Bool
  pub is_account : Name → Bool
  pub now : ℕ
  pub first_receiver : Name
  pub sdk : Sdk

-- `require_auth`.
abbrev pub require_auth : Context → Name → Result (Unit {0})
require_auth ctx n = check (ctx.has_auth n) "missing authority"

-- Text is only measured and passed on: its bytes.
abbrev pub Memo : Type 0
Memo = List ℕ
