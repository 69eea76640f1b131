-- ===== src/Ido/Sales.antt =====
-- The price of amax.ido over any run, and what a deposit buys.
use native.Mathlib.Nat.{mod-eq_of_lt}
use amax_contracts.Common.{
  ℕ, ◌+◌, ◌*◌, ◌/◌, ◌%◌, ◌^◌, ◌<◌, ◌≡◌, ◌≢◌, ◌⊎◌, refl, sym, true, ◌==◌, ◌||◌, not, [], ◌∷◌, arith,
  ok, Result-cases, Bool-cases, inl, inr,
}
use amax_contracts.Common.Int.{ℤ, pos, negsuc, ltb_ℤ}
use amax_contracts.Chain.{Name, Symbol, Asset, asset, symbol_eq}
use amax_contracts.Chain.Names
use amax_contracts.Ido.{
  sys_symbol, usdt_symbol, usdt_bank, initial, State, Env, divide_decimal, to_uint128, to_int64,
  times_100, get_precision, init, setprice, sell, ontransfer, Action, inits, prices, deposits,
  apply,
}
use amax_contracts.Ido.Rounding.{divide_decimal_lem}

-- The price is a positive amount of MUSDT.
abbrev pub IsPriced : State → Type 0
IsPriced st = (price : ℕ) × (0 < price) × (st.global.amax_price ≡ asset (pos price) usdt_symbol)

positive : (z : ℤ) → ltb_ℤ (pos 0) z ≡ true → (p : ℕ) × (0 < p) × (z ≡ pos p)
positive (pos n) h = (n, ground arith, refl)
positive (negsuc n) h = absurd (ground arith)

setprice-IsPriced :
    (env : Env) (price : Asset) (st st' : State) → setprice env price st ≡ ok st' → IsPriced st'
unfolding setprice
setprice-IsPriced env price st st' h =
    let (p, above, amount) = positive price.amount (ground arith) in (p, above, ground arith)

-- What a sale does, before its price is worked out.
sell-eq-ok :
    (env : Env) (from : Name) (q : Asset) (st st' : State)
    → sell env from q st ≡ ok st'
    → (ltb_ℤ (pos 0) q.amount ≡ true)
      × (env.first_receiver ≡ usdt_bank)
      × (symbol_eq q.symbol usdt_symbol ≡ true)
      × ((quant : Asset) × (env.make_asset
              (to_int64 (
                divide_decimal
                  (to_uint128 (times_100 q.amount))
                  (to_uint128 st.global.amax_price.amount)
                  (10 ^ st.global.amax_price.symbol.precision)))
              sys_symbol
            ≡ ok quant)
          × (st' ≡ record st {
            sent = record { bank = Names.amax_token; to = from; quantity = quant } ∷ st.sent;
          }))
unfolding sell get_precision
sell-eq-ok env from q st st' h =
    let amount =
      divide_decimal (to_uint128 (times_100 q.amount)) (to_uint128 st.global.amax_price.amount)
        (10 ^ st.global.amax_price.symbol.precision) in
    elim (Result-cases (env.make_asset (to_int64 amount) sys_symbol)) [
      | inr (m, e) ↦ absurd (ground arith)
      | inl (quant, e) ↦ elim (Result-cases env.get_balance) [
        | inr (m, b) ↦ absurd (ground arith)
        | inl (balance, b) ↦ elim (Result-cases (env.sdk.lt quant balance)) [
          | inr (m, l) ↦ absurd (ground arith)
          | inl (enough, l) ↦ elim (Result-cases (env.sdk.lt quant st.global.min_buy_amount)) [
            | inr (m, k) ↦ absurd (ground arith)
            | inl (small, k) ↦ (ground arith, ground arith, ground arith, (quant, e, ground arith))
          ]
        ]
      ]
    ]

sell-IsPriced :
    (env : Env) (from : Name) (q : Asset) (st st' : State)
    → sell env from q st ≡ ok st'
    → IsPriced st
    → IsPriced st'
sell-IsPriced env from q st st' h v =
    let (above, bank, usdt, (quant, made, final)) = sell-eq-ok env from q st st' h in rw final v

apply-IsPriced :
    (env : Env) (a : Action) (st st' : State) → apply env a st ≡ ok st' → IsPriced st → IsPriced st'
unfolding apply init ontransfer
apply-IsPriced env (inits admin) st st' h (p, above, price) = (p, above, ground arith)
apply-IsPriced env (prices price) st st' h v = setprice-IsPriced env price st st' h
apply-IsPriced env (deposits from to q) st st' h v =
    elim (Bool-cases
      (from == env.self || not (to == env.self) || env.first_receiver == Names.amax_token)) [
        | inl skip ↦ (v.0, v.1, ground arith)
        | inr take ↦ sell-IsPriced env from q st st' (ground arith) v
      ]

-- A state that the contract comes to from its start, through actions that went through.
pub data Reach : State → Type 0 where
  start : Reach (record { global = initial; sent = [] })
  next : (env : Env) (a : Action) {st st' : State} → Reach st → apply env a st ≡ ok st' → Reach st'

-- Over any run the price is a positive amount of MUSDT, so that no sale divides by zero.
pub Reach-IsPriced : {st : State} → Reach st → IsPriced st
Reach-IsPriced start = (100000000, omega arith, refl)
Reach-IsPriced (next env a {st} {st'} r h) = apply-IsPriced env a st st' h (Reach-IsPriced r)

-- The AMAX that `n` units of MUSDT buy, to the nearest unit, a half going up.
abbrev pub bought : ℕ → ℕ → ℕ
bought n price = (2 * (n * 100 * 1000000) + price) / (2 * price)

to_int64_small : (n : ℕ) → n < 2 ^ 63 → to_int64 n ≡ pos n
to_int64_small n h =
    let whole : n % 2 ^ 64 ≡ n = mod-eq_of_lt (omega arith) in rw whole (ground arith)

-- The amount that the code works out is the nearest one, where nothing leaves its range.
amount_bought :
    (n price : ℕ)
    → 0 < price
    → n * 100 < 2 ^ 63
    → bought n price < 2 ^ 63
    → to_int64 (divide_decimal (to_uint128 (times_100 (pos n))) (to_uint128 (pos price)) (10 ^ 6))
      ≡ pos (bought n price)
amount_bought n price above scaled fits =
    let wide : to_int64 (n * 100) ≡ pos (n * 100) = to_int64_small (n * 100) scaled in
    let nearest = divide_decimal_lem (n * 100) price 1000000 above (omega arith) (omega arith) in
    rw wide (rw nearest (to_int64_small (bought n price) fits))

sell-bought :
    (env : Env) (from : Name) (n price : ℕ) (s : Symbol) (st st' : State)
    → ((z : ℤ) (t : Symbol) (made : Asset) → env.make_asset z t ≡ ok made → made ≡ asset z t)
    → 0 < price
    → st.global.amax_price ≡ asset (pos price) usdt_symbol
    → n * 100 < 2 ^ 63
    → bought n price < 2 ^ 63
    → sell env from (asset (pos n) s) st ≡ ok st'
    → (0 < n)
      × (env.first_receiver ≡ usdt_bank)
      × (s ≡ usdt_symbol)
      × (st' ≡ record st {
        sent =
            record {
              bank = Names.amax_token;
              to = from;
              quantity = asset (pos (bought n price)) sys_symbol;
            }
            ∷ st.sent;
      })
sell-bought env from n price s st st' maker above at scaled fits h =
    let (some_usdt, bank, usdt, (quant, made, final)) =
      sell-eq-ok env from (asset (pos n) s) st st' h in
    let amount = amount_bought n price above scaled fits in
    let shape =
      maker
        (to_int64 (
          divide_decimal (to_uint128 (times_100 (pos n))) (to_uint128 st.global.amax_price.amount)
            (10 ^ st.global.amax_price.symbol.precision)))
        sys_symbol quant made in
    let paid : quant ≡ asset (pos (bought n price)) sys_symbol =
      rw shape (rw at (rw amount refl)) in
    (ground arith, bank, ground arith, rw (sym paid) final)

-- A transfer that another account makes to the contract and that goes through is either one of the
-- AMAX token, which changes nothing, or of a positive amount of MUSDT at its bank, and its sender is
-- paid, in AMAX, the deposit over the price to the nearest unit, a half going up. This is so at a
-- positive price in MUSDT, while the deposit times 100 and the payment fit 64 bits.
pub ontransfer-bought :
    (env : Env) (from to : Name) (n price : ℕ) (s : Symbol) (st st' : State)
    → ((z : ℤ) (t : Symbol) (made : Asset) → env.make_asset z t ≡ ok made → made ≡ asset z t)
    → from ≢ env.self
    → to ≡ env.self
    → 0 < price
    → st.global.amax_price ≡ asset (pos price) usdt_symbol
    → n * 100 < 2 ^ 63
    → bought n price < 2 ^ 63
    → ontransfer env from to (asset (pos n) s) st ≡ ok st'
    → ((env.first_receiver ≡ Names.amax_token) × (st' ≡ st))
      ⊎ ((0 < n)
          × (env.first_receiver ≡ usdt_bank)
          × (s ≡ usdt_symbol)
          × (st' ≡ record st {
            sent =
                record {
                  bank = Names.amax_token;
                  to = from;
                  quantity = asset (pos (bought n price)) sys_symbol;
                }
                ∷ st.sent;
          }))
unfolding ontransfer
ontransfer-bought env from to n price s st st' maker other mine above at scaled fits h =
    elim (Bool-cases (env.first_receiver == Names.amax_token)) [
      | inl refuel ↦ inl (ground arith, ground arith)
      | inr deposit ↦
          inr (sell-bought env from n price s st st' maker above at scaled fits (ground arith))
    ]
