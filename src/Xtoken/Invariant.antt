-- ===== src/Xtoken/Invariant.antt =====
-- The invariant of the token's tables: balances, supplies and fees stand under their codes and in
-- range, and the supply of a code is the sum of the balances of that code.
use amax_contracts.Common.{ℕ, ◌<◌, ◌≡◌, none, some, [], ◌∷◌, arith, ◌==◌, if◌then◌else◌}
use amax_contracts.Common.Int.{ℤ, pos, ◌≤ℤ◌, int_laws}
use amax_contracts.Chain.{max_amount}
use amax_contracts.Chain.Table.{Table, find, modify_same, Rows, total, Rows-find, find-modify_same}
use amax_contracts.Xtoken.{Account, CurrencyStats, State, ratio_boost}
use amax_contracts.Xtoken.Balances.{AccountOk, held}

-- A supply stands under its symbol's code, and below a limit of the same symbol that fits an asset;
-- the fee ratio is below one, and the least fee is not negative and of the same symbol.
abbrev pub StatsOk : ℕ → ℕ → CurrencyStats → Type 0
StatsOk s k r =
    (s ≡ k)
    × (r.supply.symbol.code ≡ k)
    × (r.max_supply.symbol ≡ r.supply.symbol)
    × (r.supply.amount ≤ℤ r.max_supply.amount)
    × (r.max_supply.amount ≤ℤ pos max_amount)
    × (r.fee_ratio < ratio_boost)
    × (pos 0 ≤ℤ r.min_fee_quantity.amount)
    × (r.min_fee_quantity.symbol ≡ r.supply.symbol)

-- The supply of a code, which is nothing where no token of that code exists.
abbrev pub supply_of : ℕ → Table CurrencyStats → ℤ
supply_of c stats = elim (find c c stats) [ none ↦ pos 0 | some r ↦ r.supply.amount ]

pub record IsValid (st : State) : Type 0 where
  pub accounts_ok : Rows AccountOk st.accounts
  pub stats_ok : Rows StatsOk st.stats
  pub backed : (c : ℕ) → total (held c) st.accounts ≡ supply_of c st.stats

pub total-held-nonneg : (c : ℕ) (t : Table Account) → Rows AccountOk t → pos 0 ≤ℤ total (held c) t
total-held-nonneg c [] h = omega arith
total-held-nonneg c (e ∷ t) h = grind (int_laws, total-held-nonneg c t h.2)

-- No single balance exceeds the sum of the balances of its code.
pub le-total-held :
    (c s : ℕ) (t : Table Account) (a : Account)
    → Rows AccountOk t
    → find s c t ≡ some a
    → a.balance.amount ≤ℤ total (held c) t
le-total-held c s [] a h e = cc
le-total-held c s (x ∷ t) a h e =
    grind (int_laws, le-total-held c s t a h.2, total-held-nonneg c t h.2)

-- In a valid state the supply of every code is not negative, and bounds every balance of it.
pub supply_bounds :
    (st : State) (c s : ℕ) (a : Account)
    → IsValid st
    → find s c st.accounts ≡ some a
    → (pos 0 ≤ℤ a.balance.amount) × (a.balance.amount ≤ℤ supply_of c st.stats)
supply_bounds st c s a v e = (
  ground (arith, Rows-find AccountOk s c a st.accounts v.accounts_ok e),
  rw (← v.backed c) (le-total-held c s st.accounts a v.accounts_ok e),
)

pub supply_of-modify_same :
    (c k : ℕ) (r old : CurrencyStats) (stats : Table CurrencyStats)
    → find k k stats ≡ some old
    → supply_of c (modify_same k k r stats)
      ≡ (if c == k then r.supply.amount else supply_of c stats)
supply_of-modify_same c k r old stats e = ground (arith, find-modify_same k k c c r old stats e)
