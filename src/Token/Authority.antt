-- ===== src/Token/Authority.antt =====
-- Who can make a balance of the token fall.
use amax_contracts.Common.{ℕ, ◌≡◌, ◌⊎◌, inl, inr, List, arith, ok, Bool, true, ◌||◌, Bool-cases}
use amax_contracts.Common.Int.{◌+ℤ◌, ◌-ℤ◌, ◌≤ℤ◌, ◌<ℤ◌, int_laws}
use amax_contracts.Chain.{Name, Asset, asset, Symbol, IsSdk, Memo}
use amax_contracts.Chain.Names
use amax_contracts.Chain.Table.{modify_same, find-modify_same, find-erase_ne}
use amax_contracts.Token.{
  Account, CurrencyStats, State, Env, Action, creates, issues, setissues, slashes, retires,
  blacklists, transfers, opens, closes, apply, fresh, create, issue, setissue, slashblack, retire,
  blacklist, transfer, open_account, close, is_blacklisted, set_stats,
}
use amax_contracts.Token.Transfers.{
  amount_of, at, amount_of-sub_balance, amount_of-add_balance, transfer_moves, transfer_permitted,
}
use amax_contracts.Token.Effects.{
  create-eq-ok, issue-eq-ok, setissue-eq-ok, slashblack-eq-ok, retire-eq-ok, open_account-eq-ok,
  close-eq-ok,
}

-- The owner has signed; or a permitted account has signed, and the owner is on a blacklist.
abbrev pub Permits : Env → State → Name → Type 0
Permits env st o =
    (env.has_auth o ≡ true)
    ⊎ ((is_blacklisted env st o env.self ≡ true)
        × ((env.has_auth Names.amax
              || env.has_auth Names.armoniaadmin
              || env.has_auth Names.amax_dao)
            ≡ true))

module _ (env : Env) (laws : IsSdk env.sdk) (o : Name) (c : ℕ) where
  -- A balance does not fall, or its owner's signature or blacklisting permits it.
  abbrev Guarded : State → State → Type 0
  Guarded st st' = (amount_of o c st.accounts ≤ℤ amount_of o c st'.accounts) ⊎ Permits env st o

  issue-Guarded :
      (issuer : Name) (q : Asset) (memo : Memo) (st st' : State)
      → issue env issuer q memo st ≡ ok st'
      → Guarded st st'
  issue-Guarded issuer q memo st st' h =
      let (row, e, who, auth, positive, same, fits, a) =
        issue-eq-ok env laws issuer q memo st st' h in
      let key = q.symbol.code in
      let new : CurrencyStats = record row {
        supply = asset (row.supply.amount +ℤ q.amount) row.supply.symbol;
      } in
      let start = set_stats (modify_same key key new st.stats) st in
      inl (grind (int_laws, amount_of-add_balance env laws row.issuer q row.issuer start st' a o c))

  retire-Guarded :
      (q : Asset) (memo : Memo) (st st' : State) → retire env q memo st ≡ ok st' → Guarded st st'
  retire-Guarded q memo st st' h =
      let (row, e, auth, positive, same, a) = retire-eq-ok env laws q memo st st' h in
      let key = q.symbol.code in
      let new : CurrencyStats = record row {
        supply = asset (row.supply.amount -ℤ q.amount) row.supply.symbol;
      } in
      let start = set_stats (modify_same key key new st.stats) st in
      let moved = amount_of-sub_balance env laws row.issuer q start st' a o c in
      elim (Bool-cases (at row.issuer key o c)) [
        | inl here ↦ inr (inl (ground arith))
        | inr other ↦ inl (rw (moved, other) (omega arith))
      ]

  transfer-Guarded :
      (from to : Name) (q : Asset) (memo : Memo) (st st' : State)
      → transfer env from to q memo st ≡ ok st'
      → Guarded st st'
  transfer-Guarded from to q memo st st' h =
      let moves = transfer_moves env laws from to q memo st st' h in
      let permitted = transfer_permitted env laws from to q memo st st' h in
      let code = q.symbol.code in
      elim (Bool-cases (at from code o c)) [
        | inl here ↦ inr (inl (ground arith))
        | inr other ↦ elim (Bool-cases (at to code o c)) [
          | inl there ↦ inl (grind (int_laws, moves.1, moves.4))
          | inr neither ↦ inl (rw (moves.5 o c (ground arith)) (omega arith))
        ]
      ]

  slashblack-Guarded :
      (target : Name) (q : Asset) (memo : Memo) (st st' : State)
      → slashblack env target q memo st ≡ ok st'
      → Guarded st st'
  slashblack-Guarded target q memo st st' h =
      let (was, row, f, e, listed, auth, positive, covered, same, same', final) =
        slashblack-eq-ok env laws target q memo st st' h in
      let key = q.symbol.code in
      let left : Account = record {
        balance = asset (was.balance.amount -ℤ q.amount) was.balance.symbol;
      } in
      elim (Bool-cases (at target key o c)) [
        | inl here ↦ inr (inr (ground arith, auth))
        | inr other ↦
            inl (rw final (ground (arith, find-modify_same target key o c left was st.accounts f)))
      ]

  open_account-Guarded :
      (owner : Name) (sym : Symbol) (payer : Name) (st st' : State)
      → open_account env owner sym payer st ≡ ok st'
      → Guarded st st'
  open_account-Guarded owner sym payer st st' h =
      elim (open_account-eq-ok env laws owner sym payer st st' h).1 [
        | inl same ↦ inl (rw same (omega arith))
        | inr (empty, final) ↦ inl (rw final (ground arith))
      ]

  close-Guarded :
      (owner : Name) (sym : Symbol) (st st' : State)
      → close env owner sym st ≡ ok st'
      → Guarded st st'
  close-Guarded owner sym st st' h =
      let (row, e, auth, zero_amount, final) = close-eq-ok env laws owner sym st st' h in
      elim (Bool-cases (at owner sym.code o c)) [
        | inl here ↦ inr (inl (ground arith))
        | inr other ↦ inl (rw final (ground (arith, find-erase_ne owner sym.code o c st.accounts)))
      ]

  same-Guarded : (st st' : State) → st'.accounts ≡ st.accounts → Guarded st st'
  same-Guarded st st' e = inl (rw e (omega arith))

  create-Guarded :
      (issuer : Name) (m : Asset) (st st' : State)
      → create env issuer m st ≡ ok st'
      → Guarded st st'
  create-Guarded issuer m st st' h =
      let effect = create-eq-ok env laws issuer m st st' h in same-Guarded st st' (rw effect.5)

  setissue-Guarded :
      (issuer : Name) (sym : Symbol) (newissuer : Name) (st st' : State)
      → setissue env issuer sym newissuer st ≡ ok st'
      → Guarded st st'
  setissue-Guarded issuer sym newissuer st st' h =
      let effect = setissue-eq-ok env laws issuer sym newissuer st st' h in
      same-Guarded st st' (rw effect.5)

  blacklist-Guarded :
      (targets : List Name) (to_add : Bool) (st st' : State)
      → blacklist env targets to_add st ≡ ok st'
      → Guarded st st'
  unfolding blacklist
  blacklist-Guarded targets to_add st st' h = same-Guarded st st' (ground arith)

  -- Whatever the action, where it goes through a balance can only fall if its owner has signed, or
  -- is on a blacklist while one of `amax`, `armoniaadmin` and `amax.dao` has signed.
  pub fall_permitted :
      (a : Action) (st st' : State)
      → apply env a st ≡ ok st'
      → amount_of o c st'.accounts <ℤ amount_of o c st.accounts
      → Permits env st o
  unfolding apply is_blacklisted
  fall_permitted (creates issuer m) st st' h fell =
      ground (arith, create-Guarded issuer m (fresh st) st' h)
  fall_permitted (issues issuer q memo) st st' h fell =
      ground (arith, issue-Guarded issuer q memo (fresh st) st' h)
  fall_permitted (setissues issuer sym newissuer) st st' h fell =
      ground (arith, setissue-Guarded issuer sym newissuer (fresh st) st' h)
  fall_permitted (slashes target q memo) st st' h fell =
      ground (arith, slashblack-Guarded target q memo (fresh st) st' h)
  fall_permitted (retires q memo) st st' h fell =
      ground (arith, retire-Guarded q memo (fresh st) st' h)
  fall_permitted (blacklists targets to_add) st st' h fell =
      ground (arith, blacklist-Guarded targets to_add (fresh st) st' h)
  fall_permitted (transfers from to q memo) st st' h fell =
      ground (arith, transfer-Guarded from to q memo (fresh st) st' h)
  fall_permitted (opens owner sym payer) st st' h fell =
      ground (arith, open_account-Guarded owner sym payer (fresh st) st' h)
  fall_permitted (closes owner sym) st st' h fell =
      ground (arith, close-Guarded owner sym (fresh st) st' h)
