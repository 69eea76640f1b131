-- ===== src/Xtoken/Balances.antt =====
-- What `sub_balance` and `add_balance` of amax.xtoken.cpp do when they go through.
use amax_contracts.Common.{
  ℕ, ◌≡◌, refl, ◌⊎◌, Bool, false, ◌&&◌, inl, inr, ◌==◌, if◌then◌else◌, none, some, ◌∷◌, arith, ok,
  Option-cases,
}
use amax_contracts.Common.Int.{ℤ, pos, ◌+ℤ◌, ◌-ℤ◌, ◌≤ℤ◌, int_laws}
use amax_contracts.Chain.{Name, Asset, asset, IsSdk, Context}
use amax_contracts.Chain.Table.{
  find, modify, modify_same, Rows, total, modify-Rows, modify_same-Rows, Rows-find, total-modify,
  total-modify_same,
}
use amax_contracts.Xtoken.{
  Account, CurrencyStats, State, set_accounts, new_account, sub_balance, add_balance,
  is_account_frozen,
}

-- A balance stands under its symbol's code and is not negative.
abbrev pub AccountOk : ℕ → ℕ → Account → Type 0
AccountOk s k a = (a.balance.symbol.code ≡ k) × (pos 0 ≤ℤ a.balance.amount)

-- What a row counts towards the supply of the symbol code `c`.
abbrev pub held : ℕ → ℕ → ℕ → Account → ℤ
held c s k a = if k == c then a.balance.amount else pos 0

abbrev pub counted : ℕ → Asset → ℤ
counted c v = if v.symbol.code == c then v.amount else pos 0

module _ (ctx : Context) (laws : IsSdk ctx.sdk) (info : CurrencyStats) (flag : Bool) where
  -- What `sub_balance` has found and written: with the flag it refuses a frozen account.
  pub sub_balance-eq-ok :
      (owner : Name) (v : Asset) (st st' : State)
      → sub_balance ctx info owner v flag st ≡ ok st'
      → (row : Account) × (find owner v.symbol.code st.accounts ≡ some row)
        × ((flag && is_account_frozen info owner row) ≡ false)
        × (v.amount ≤ℤ row.balance.amount)
        × (v.symbol ≡ row.balance.symbol)
        × (st'
            ≡ set_accounts
                (modify owner v.symbol.code owner
                  (record row {
                    balance = asset (row.balance.amount -ℤ v.amount) row.balance.symbol;
                  })
                  st.accounts)
                st)
  unfolding sub_balance
  sub_balance-eq-ok owner v st st' h = elim (Option-cases (find owner v.symbol.code st.accounts)) [
    | inl e ↦ ground arith
    | inr (row, e) ↦
        let s = laws.sub_lem row.balance v in
        (row, e, ground arith, ground arith, ground arith, ground arith)
  ]

  pub sub_balance-Rows :
      (owner : Name) (v : Asset) (st st' : State)
      → sub_balance ctx info owner v flag st ≡ ok st'
      → Rows AccountOk st.accounts
      → Rows AccountOk st'.accounts
  sub_balance-Rows owner v st st' h rows =
      let (row, e, thawed, le, same, final) = sub_balance-eq-ok owner v st st' h in
      rw final (
        modify-Rows AccountOk owner v.symbol.code owner _ st.accounts rows (
          ground (arith, Rows-find AccountOk owner v.symbol.code row st.accounts rows e),
          omega int_laws,
        ))

  pub total-sub_balance :
      (owner : Name) (v : Asset) (st st' : State)
      → sub_balance ctx info owner v flag st ≡ ok st'
      → (c : ℕ) → total (held c) st'.accounts +ℤ counted c v ≡ total (held c) st.accounts
  total-sub_balance owner v st st' h c =
      let (row, e, thawed, le, same, final) = sub_balance-eq-ok owner v st st' h in
      let key = v.symbol.code in
      let new : Account = record row {
        balance = asset (row.balance.amount -ℤ v.amount) row.balance.symbol;
      } in
      rw final (grind (int_laws, total-modify (held c) owner key owner new row st.accounts e))

  pub stats-sub_balance :
      (owner : Name) (v : Asset) (st st' : State)
      → sub_balance ctx info owner v flag st ≡ ok st'
      → st'.stats ≡ st.stats
  stats-sub_balance owner v st st' h =
      let (row, e, thawed, le, same, final) = sub_balance-eq-ok owner v st st' h in rw final

  -- `add_balance` either opens the row or adds to the one that is there, if that is not frozen.
  pub add_balance-eq-ok :
      (owner : Name) (v : Asset) (payer : Name) (st st' : State)
      → add_balance ctx info owner v payer flag st ≡ ok st'
      → ((find owner v.symbol.code st.accounts ≡ none)
          × (st'
              ≡ set_accounts
                  (record { scope = owner; key = v.symbol.code; payer = payer; row = new_account v }
                    ∷ st.accounts)
                  st))
        ⊎ ((row : Account) × (find owner v.symbol.code st.accounts ≡ some row)
            × ((flag && is_account_frozen info owner row) ≡ false)
            × (v.symbol ≡ row.balance.symbol)
            × (st'
                ≡ set_accounts
                    (modify_same owner v.symbol.code
                      (record row {
                        balance = asset (row.balance.amount +ℤ v.amount) row.balance.symbol;
                      })
                      st.accounts)
                    st))
  unfolding add_balance
  add_balance-eq-ok owner v payer st st' h =
      elim (Option-cases (find owner v.symbol.code st.accounts)) [
        | inl e ↦ inl (e, ground arith)
        | inr (row, e) ↦
            let s = laws.add_lem row.balance v in
            inr (row, e, ground arith, ground arith, ground arith)
      ]

  pub add_balance-Rows :
      (owner : Name) (v : Asset) (payer : Name) (st st' : State)
      → add_balance ctx info owner v payer flag st ≡ ok st'
      → pos 0 ≤ℤ v.amount
      → Rows AccountOk st.accounts
      → Rows AccountOk st'.accounts
  add_balance-Rows owner v payer st st' h nonneg rows =
      elim (add_balance-eq-ok owner v payer st st' h) [
        | inl (e, final) ↦ rw final ((refl, nonneg), e, rows)
        | inr (row, e, thawed, same, final) ↦ rw final (
            modify_same-Rows AccountOk owner v.symbol.code _ st.accounts rows (
              ground (arith, Rows-find AccountOk owner v.symbol.code row st.accounts rows e),
              omega (int_laws, Rows-find AccountOk owner v.symbol.code row st.accounts rows e),
            ))
      ]

  pub total-add_balance :
      (owner : Name) (v : Asset) (payer : Name) (st st' : State)
      → add_balance ctx info owner v payer flag st ≡ ok st'
      → (c : ℕ) → total (held c) st'.accounts ≡ total (held c) st.accounts +ℤ counted c v
  total-add_balance owner v payer st st' h c = elim (add_balance-eq-ok owner v payer st st' h) [
    | inl (e, final) ↦ rw final (omega int_laws)
    | inr (row, e, thawed, same, final) ↦
        let key = v.symbol.code in
        let new : Account = record row {
          balance = asset (row.balance.amount +ℤ v.amount) row.balance.symbol;
        } in
        rw final (grind (int_laws, total-modify_same (held c) owner key new row st.accounts e))
  ]

  pub stats-add_balance :
      (owner : Name) (v : Asset) (payer : Name) (st st' : State)
      → add_balance ctx info owner v payer flag st ≡ ok st'
      → st'.stats ≡ st.stats
  stats-add_balance owner v payer st st' h = elim (add_balance-eq-ok owner v payer st st' h) [
    | inl (e, final) ↦ rw final
    | inr (row, e, thawed, same, final) ↦ rw final
  ]
