-- ===== src/Token/Actions.antt =====
-- Runs of the token contract: any actions, in any order, under any signatures.
use amax_contracts.Common.{◌≡◌, refl, some, [], ok, ℕ}
use amax_contracts.Common.Int.{pos, ◌≤ℤ◌}
use amax_contracts.Chain.{Name, IsSdk, max_amount}
use amax_contracts.Chain.Table.{find, total, Rows-find}
use amax_contracts.Token.{
  Account, CurrencyStats, State, Env, Action, creates, issues, setissues, slashes, retires,
  blacklists, transfers, opens, closes, apply, fresh,
}
use amax_contracts.Token.Invariant.{
  IsValid, supply_of, supply_bounds, total-held-nonneg, StatsOk, total-held-nonneg,
}
use amax_contracts.Token.Balances.{held}
use amax_contracts.Token.Preserve.{
  create-IsValid, issue-IsValid, setissue-IsValid, slashblack-IsValid, retire-IsValid,
  blacklist-IsValid, transfer-IsValid, open_account-IsValid, close-IsValid,
}

abbrev pub deployed : State
deployed = record { accounts = []; stats = []; blacklist = []; recipients = [] }

-- A state that the contract comes to from its deployment, through actions that went through; one
-- that is aborted leaves the state as it was.
pub data Reach : State → Type 0 where
  start : Reach deployed
  next :
      (env : Env) (a : Action) {st st' : State}
      → Reach st
      → IsSdk env.sdk
      → apply env a st ≡ ok st'
      → Reach st'

fresh-IsValid : (st : State) → IsValid st → IsValid (fresh st)
fresh-IsValid st v = record {
  accounts_ok = v.accounts_ok;
  stats_ok = v.stats_ok;
  backed = v.backed;
}

-- Every action that goes through keeps the invariant.
pub apply-IsValid :
    (env : Env) (a : Action) (st st' : State)
    → IsSdk env.sdk
    → apply env a st ≡ ok st'
    → IsValid st
    → IsValid st'
unfolding apply
apply-IsValid env (creates issuer m) st st' laws h v =
    create-IsValid env laws issuer m (fresh st) st' h (fresh-IsValid st v)
apply-IsValid env (issues issuer q memo) st st' laws h v =
    issue-IsValid env laws issuer q memo (fresh st) st' h (fresh-IsValid st v)
apply-IsValid env (setissues issuer sym newissuer) st st' laws h v =
    setissue-IsValid env laws issuer sym newissuer (fresh st) st' h (fresh-IsValid st v)
apply-IsValid env (slashes target q memo) st st' laws h v =
    slashblack-IsValid env laws target q memo (fresh st) st' h (fresh-IsValid st v)
apply-IsValid env (retires q memo) st st' laws h v =
    retire-IsValid env laws q memo (fresh st) st' h (fresh-IsValid st v)
apply-IsValid env (blacklists targets to_add) st st' laws h v =
    blacklist-IsValid env laws targets to_add (fresh st) st' h (fresh-IsValid st v)
apply-IsValid env (transfers from to q memo) st st' laws h v =
    transfer-IsValid env laws from to q memo (fresh st) st' h (fresh-IsValid st v)
apply-IsValid env (opens owner sym payer) st st' laws h v =
    open_account-IsValid env laws owner sym payer (fresh st) st' h (fresh-IsValid st v)
apply-IsValid env (closes owner sym) st st' laws h v =
    close-IsValid env laws owner sym (fresh st) st' h (fresh-IsValid st v)

pub Reach-IsValid : {st : State} → Reach st → IsValid st
Reach-IsValid start = record { accounts_ok = tt; stats_ok = tt; backed = λ c. refl }
Reach-IsValid (next env a {st} {st'} r laws h) = apply-IsValid env a st st' laws h (Reach-IsValid r)

-- After any run from the deployment: the supply of each code is the sum of its balances, neither it
-- nor a balance is negative, no balance is more than the supply, and no supply is more than its
-- token's limit, which fits an asset.
pub Reach-supply :
    {st : State} (c : ℕ)
    → Reach st
    → (total (held c) st.accounts ≡ supply_of c st.stats)
      × (pos 0 ≤ℤ supply_of c st.stats)
      × ((s : Name) (a : Account)
          → find s c st.accounts ≡ some a
          → (pos 0 ≤ℤ a.balance.amount) × (a.balance.amount ≤ℤ supply_of c st.stats))
      × ((r : CurrencyStats)
          → find c c st.stats ≡ some r
          → (r.supply.amount ≤ℤ r.max_supply.amount) × (r.max_supply.amount ≤ℤ pos max_amount))
Reach-supply {st} c r =
    let v = Reach-IsValid r in
    (
      v.backed c,
      rw (← v.backed c) (total-held-nonneg c st.accounts v.accounts_ok),
      λ s a e. supply_bounds st c s a v e,
      λ row e. let ok_row = Rows-find StatsOk c c row st.stats v.stats_ok e in (ok_row.3, ok_row.4),
    )
