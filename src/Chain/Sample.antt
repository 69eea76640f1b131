-- ===== src/Chain/Sample.antt =====
-- An SDK and a signer that meet what `IsSdk` asks, for runs at concrete inputs.
use amax_contracts.Common.{
  refl, ℕ, Bool, true, false, ◌&&◌, ◌==◌, if◌then◌else◌, arith, ok, err, Result, List, [], ◌∷◌,
  ◌||◌, leb, ltb,
}
use amax_contracts.Common.Int.{ℤ, pos, negsuc, ◌+ℤ◌, ◌-ℤ◌, leb_ℤ, ltb_ℤ, eqb_ℤ}
use amax_contracts.Chain.{Symbol, Asset, asset, symbol_eq, Sdk, IsSdk, Context, max_amount, Name}

abbrev pub in_range : ℤ → Bool
in_range n = leb_ℤ n (pos max_amount) && leb_ℤ (negsuc 0x3ffffffffffffffe) n

abbrev pub exact : ℤ → Asset → Asset → Result Asset
exact n a b =
    if symbol_eq b.symbol a.symbol && in_range n
    then ok (asset n a.symbol)
    else err "asset arithmetic"

-- The default symbol is not valid.
abbrev pub has_code : Symbol → Bool
has_code s = leb s.precision 18 && ltb 0 s.code

abbrev pub sdk : Sdk
sdk = record {
  symbol_is_valid = has_code;
  asset_is_valid = λ a. in_range a.amount && has_code a.symbol;
  add = λ a b. exact (a.amount +ℤ b.amount) a b;
  sub = λ a b. exact (a.amount -ℤ b.amount) a b;
  lt = λ a b.
      if symbol_eq b.symbol a.symbol
      then ok (ltb_ℤ a.amount b.amount)
      else err "comparison of assets with different symbols is not allowed";
  eq = λ a b.
      if symbol_eq b.symbol a.symbol
      then ok (eqb_ℤ a.amount b.amount)
      else err "comparison of assets with different symbols is not allowed";
  neg = λ a. asset (pos 0 -ℤ a.amount) a.symbol;
  make = λ n s.
      if in_range n && has_code s
      then ok (asset n s)
      else err "magnitude of asset amount must be less than 2^62";
}

pub sdk-IsSdk : IsSdk sdk
sdk-IsSdk = record {
  valid_range = λ a h. ground arith;
  valid_symbol = λ a h. ground arith;
  valid_lem = λ a r h. ground arith;
  add_lem = λ a b. ground arith;
  sub_lem = λ a b. ground arith;
  lt_lem = λ a b. ground arith;
  eq_lem = λ a b. ground arith;
  neg_lem = λ a. refl;
  make_lem = λ n t. ground arith;
}

abbrev pub among : Name → List Name → Bool
among n [] = false
among n (m ∷ ms) = n == m || among n ms

-- All accounts exist; the listed ones have signed.
abbrev pub signed_by : Name → List Name → ℕ → Context
signed_by self signers now = record {
  self = self;
  has_auth = λ n. among n signers;
  is_account = λ n. true;
  now = now;
  first_receiver = self;
  sdk = sdk;
}
