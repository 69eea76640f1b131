-- ===== src/Token/Effects.antt =====
-- What each action of amax.token has found, and what it has written, when it goes through.
use amax_contracts.Common.{
  ◌≡◌, ◌≢◌, ◌⊎◌, ◌∷◌, ◌||◌, true, if◌then◌else◌, none, some, arith, ok, Option-cases, Result-cases,
  inl, inr,
}
use amax_contracts.Common.Int.{pos, ◌+ℤ◌, ◌-ℤ◌, ◌≤ℤ◌, ◌<ℤ◌}
use amax_contracts.Chain.{Name, Asset, Symbol, asset, IsSdk, Memo}
use amax_contracts.Chain.Names
use amax_contracts.Chain.Table.{find, modify_same, erase}
use amax_contracts.Token.{
  Account, CurrencyStats, State, Env, sub_balance, add_balance, create, issue, retire, slashblack,
  setissue, open_account, close, set_stats, set_accounts, is_blacklisted, may_send, transfer,
  require_recipient, is_blacklisted,
}

module _ (env : Env) (laws : IsSdk env.sdk) where
  pub transfer-eq-ok :
      (from to : Name) (q : Asset) (memo : Memo) (st st' : State)
      → transfer env from to q memo st ≡ ok st'
      → (row : CurrencyStats) × (paid : State) × (payer : Name) × (find q.symbol.code q.symbol.code
            st.stats
          ≡ some row)
        × (may_send env from to st ≡ ok tt)
        × (pos 0 <ℤ q.amount)
        × (q.symbol ≡ row.supply.symbol)
        × (sub_balance env from q (require_recipient to (require_recipient from st)) ≡ ok paid)
        × (add_balance env to q payer paid ≡ ok st')
  unfolding transfer
  transfer-eq-ok from to q memo st st' h =
      elim (Option-cases (find q.symbol.code q.symbol.code st.stats)) [
        | inl e ↦ absurd (ground arith)
        | inr (row, e) ↦
            elim (Result-cases
              (sub_balance env from q (require_recipient to (require_recipient from st)))) [
                | inl (paid, p) ↦ (
                  row,
                  paid,
                  (if env.has_auth to then to else from),
                  e,
                  ground arith,
                  ground arith,
                  ground arith,
                  p,
                  ground arith,
                )
                | inr (m, p) ↦ absurd (ground arith)
              ]
      ]

  pub issue-eq-ok :
      (issuer : Name) (q : Asset) (memo : Memo) (st st' : State)
      → issue env issuer q memo st ≡ ok st'
      → (row : CurrencyStats) × (find q.symbol.code q.symbol.code st.stats ≡ some row)
        × (issuer ≡ row.issuer)
        × (env.has_auth issuer ≡ true)
        × (pos 0 <ℤ q.amount)
        × (q.symbol ≡ row.supply.symbol)
        × (q.amount ≤ℤ row.max_supply.amount -ℤ row.supply.amount)
        × (add_balance env row.issuer q row.issuer (
              set_stats
                (modify_same q.symbol.code q.symbol.code
                  (record row { supply = asset (row.supply.amount +ℤ q.amount) row.supply.symbol })
                  st.stats)
                st)
            ≡ ok st')
  unfolding issue
  issue-eq-ok issuer q memo st st' h =
      elim (Option-cases (find q.symbol.code q.symbol.code st.stats)) [
        | inl e ↦ absurd (ground arith)
        | inr (row, e) ↦
            let s = laws.add_lem row.supply q in
            (
              row,
              e,
              ground arith,
              ground arith,
              ground arith,
              ground arith,
              ground arith,
              ground arith,
            )
      ]

  pub retire-eq-ok :
      (q : Asset) (memo : Memo) (st st' : State)
      → retire env q memo st ≡ ok st'
      → (row : CurrencyStats) × (find q.symbol.code q.symbol.code st.stats ≡ some row)
        × (env.has_auth row.issuer ≡ true)
        × (pos 0 <ℤ q.amount)
        × (q.symbol ≡ row.supply.symbol)
        × (sub_balance env row.issuer q (
              set_stats
                (modify_same q.symbol.code q.symbol.code
                  (record row { supply = asset (row.supply.amount -ℤ q.amount) row.supply.symbol })
                  st.stats)
                st)
            ≡ ok st')
  unfolding retire
  retire-eq-ok q memo st st' h = elim (Option-cases (find q.symbol.code q.symbol.code st.stats)) [
    | inl e ↦ absurd (ground arith)
    | inr (row, e) ↦
        let s = laws.sub_lem row.supply q in
        (row, e, ground arith, ground arith, ground arith, ground arith)
  ]

  pub slashblack-eq-ok :
      (target : Name) (q : Asset) (memo : Memo) (st st' : State)
      → slashblack env target q memo st ≡ ok st'
      → (held_row : Account) × (row : CurrencyStats) × (find target q.symbol.code st.accounts
          ≡ some held_row)
        × (find q.symbol.code q.symbol.code st.stats ≡ some row)
        × (is_blacklisted env st target env.self ≡ true)
        × ((env.has_auth Names.amax
              || env.has_auth Names.armoniaadmin
              || env.has_auth Names.amax_dao)
            ≡ true)
        × (pos 0 <ℤ q.amount)
        × (q.amount ≤ℤ held_row.balance.amount)
        × (q.symbol ≡ row.supply.symbol)
        × (q.symbol ≡ held_row.balance.symbol)
        × (st'
            ≡ require_recipient target (
                set_stats
                  (modify_same q.symbol.code q.symbol.code
                    (record row {
                      supply = asset (row.supply.amount -ℤ q.amount) row.supply.symbol;
                    })
                    st.stats)
                  (set_accounts
                    (modify_same target q.symbol.code
                      (record {
                        balance =
                            asset (held_row.balance.amount -ℤ q.amount) held_row.balance.symbol;
                      })
                      st.accounts)
                    st)))
  unfolding slashblack
  slashblack-eq-ok target q memo st st' h =
      elim (Option-cases (find target q.symbol.code st.accounts)) [
        | inl e ↦ absurd (ground arith)
        | inr (held_row, f) ↦ elim (Option-cases (find q.symbol.code q.symbol.code st.stats)) [
          | inl e ↦
              absurd
                (ground (arith, laws.lt_lem held_row.balance q, laws.sub_lem held_row.balance q))
          | inr (row, e) ↦
              let s = laws.sub_lem row.supply q in
              let t = laws.sub_lem held_row.balance q in
              let l = laws.lt_lem held_row.balance q in
              (
                held_row,
                row,
                f,
                e,
                ground arith,
                ground arith,
                ground arith,
                ground arith,
                ground arith,
                ground arith,
                ground arith,
              )
        ]
      ]

  pub create-eq-ok :
      (issuer : Name) (m : Asset) (st st' : State)
      → create env issuer m st ≡ ok st'
      → (find m.symbol.code m.symbol.code st.stats ≡ none)
        × (env.has_auth env.self ≡ true)
        × (env.is_account issuer ≡ true)
        × (pos 0 <ℤ m.amount)
        × (env.sdk.asset_is_valid m ≡ true)
        × (st'
            ≡ set_stats
                (record {
                  scope = m.symbol.code;
                  key = m.symbol.code;
                  payer = env.self;
                  row = record { supply = asset (pos 0) m.symbol; max_supply = m; issuer = issuer };
                }
                  ∷ st.stats)
                st)
  unfolding create
  create-eq-ok issuer m st st' h = ground arith

  pub setissue-eq-ok :
      (issuer : Name) (sym : Symbol) (next : Name) (st st' : State)
      → setissue env issuer sym next st ≡ ok st'
      → (row : CurrencyStats) × (find sym.code sym.code st.stats ≡ some row)
        × (issuer ≡ row.issuer)
        × (env.has_auth issuer ≡ true)
        × (issuer ≢ next)
        × (st'
            ≡ set_stats (modify_same sym.code sym.code (record row { issuer = next }) st.stats) st)
  unfolding setissue
  setissue-eq-ok issuer sym next st st' h = elim (Option-cases (find sym.code sym.code st.stats)) [
    | inl e ↦ absurd (ground arith)
    | inr (row, e) ↦ (row, e, ground arith, ground arith, ground arith, ground arith)
  ]

  pub open_account-eq-ok :
      (owner : Name) (sym : Symbol) (payer : Name) (st st' : State)
      → open_account env owner sym payer st ≡ ok st'
      → (env.has_auth payer ≡ true)
        × ((st' ≡ st)
            ⊎ ((find owner sym.code st.accounts ≡ none)
                × (st'
                    ≡ set_accounts
                        (record {
                          scope = owner;
                          key = sym.code;
                          payer = payer;
                          row = record { balance = asset (pos 0) sym };
                        }
                          ∷ st.accounts)
                        st)))
  unfolding open_account
  open_account-eq-ok owner sym payer st st' h =
      elim (Option-cases (find owner sym.code st.accounts)) [
        | inl e ↦ (ground arith, inr (e, ground arith))
        | inr (row, e) ↦ (ground arith, inl (ground arith))
      ]

  pub close-eq-ok :
      (owner : Name) (sym : Symbol) (st st' : State)
      → close env owner sym st ≡ ok st'
      → (row : Account) × (find owner sym.code st.accounts ≡ some row)
        × (env.has_auth owner ≡ true)
        × (row.balance.amount ≡ pos 0)
        × (st' ≡ set_accounts (erase owner sym.code st.accounts) st)
  unfolding close
  close-eq-ok owner sym st st' h = elim (Option-cases (find owner sym.code st.accounts)) [
    | inl e ↦ absurd (ground arith)
    | inr (row, e) ↦ (row, e, ground arith, ground arith, ground arith)
  ]
