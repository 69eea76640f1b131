-- ===== src/Ido/Tests.antt =====
-- A sale of amax.ido: 250 MUSDT at the price of 100 buy 2.5 AMAX.
use amax_contracts.Common.{◌+◌, ◌*◌, ◌/◌, ◌<◌, ◌≡◌, ◌≢◌, ◌⊎◌, refl, [], ◌∷◌, arith, ok}
use amax_contracts.Common.Int.{ℤ, pos}
use amax_contracts.Chain.{Name, Symbol, Asset, asset}
use amax_contracts.Chain.Names
use amax_contracts.Chain.Sample.{signed_by}
use amax_contracts.Ido.{
  sys_symbol, usdt_symbol, usdt_bank, initial, State, Env, divide_decimal, get_precision, sell,
  ontransfer, deposits, apply,
}
use amax_contracts.Ido.Rounding.{divide_decimal_lem}
use amax_contracts.Ido.Sales.{IsPriced, start, next, Reach-IsPriced, bought, ontransfer-bought}

-- Told of a transfer of the bank of MUSDT, with 1000 AMAX to sell.
abbrev env : Env
env = record {
  chain = record (signed_by 50 (1 ∷ []) 0) { first_receiver = usdt_bank };
  make_asset = λ z s. ok (asset z s);
  get_balance = ok (asset (pos 100000000000) sys_symbol);
}

abbrev fresh : State
fresh = record { global = initial; sent = [] }

abbrev sold : State
sold = record {
  global = initial;
  sent =
      record { bank = Names.amax_token; to = 7; quantity = asset (pos 250000000) sys_symbol } ∷ [];
}

abbrev buyer : Name
buyer = 7

buyer_ne : buyer ≢ env.self
buyer_ne = omega arith

ok_inj : {a b : Asset} → ok a ≡ ok b → b ≡ a
ok_inj e = cc

makes : (z : ℤ) (t : Symbol) (made : Asset) → env.make_asset z t ≡ ok made → made ≡ asset z t
makes z t made e = ok_inj e

sells : ontransfer env 7 50 (asset (pos 250000000) usdt_symbol) fresh ≡ ok sold
unfolding ontransfer sell get_precision divide_decimal
sells = refl

-- A third of 2 is nearer to 1 than to 0.
divide_decimal_lem_example : divide_decimal 2 3 1 ≡ (2 * (2 * 1) + 3) / (2 * 3)
divide_decimal_lem_example = divide_decimal_lem 2 3 1 (omega arith) (omega arith) (omega arith)

Reach-IsPriced_example : IsPriced sold
unfolding apply
Reach-IsPriced_example =
    Reach-IsPriced (next env (deposits 7 50 (asset (pos 250000000) usdt_symbol)) start sells)

ontransfer-bought_example :
    ((env.first_receiver ≡ Names.amax_token) × (sold ≡ fresh))
    ⊎ ((0 < 250000000)
        × (env.first_receiver ≡ usdt_bank)
        × (usdt_symbol ≡ usdt_symbol)
        × (sold ≡ record fresh {
          sent =
              record {
                bank = Names.amax_token;
                to = 7;
                quantity = asset (pos (bought 250000000 100000000)) sys_symbol;
              }
              ∷ fresh.sent;
        }))
ontransfer-bought_example =
    ontransfer-bought env 7 50 250000000 100000000 usdt_symbol fresh sold makes buyer_ne refl
      (omega arith) refl (omega arith) (omega arith) sells
